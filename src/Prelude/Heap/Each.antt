-- ===== src/Prelude/Heap/Each.antt =====
-- container/heap: what holds of each element stays so.
use grudge_ai.Prelude.Tests.{◌==◌, ltb, Bool-cases, Option-cases}
use grudge_ai.Prelude.Lists.{length, All}
use Prim.Native.Nat.{ℕ, zero, suc, ◌+◌, ◌-◌, ◌*◌, ◌/◌}
use mathlib.Core.Path.{◌≡◌, refl, ◌∙◌, sym, ap, subst}
use mathlib.Core.Logic.{inl, inr}
use mathlib.Core.Bool.{Bool, not, ◌||◌}
use mathlib.Core.Option.{Option, none, some}
use mathlib.Core.List.{List, [], ◌∷◌, ◌++◌}
use grudge_ai.Prelude.Heap.{
  get_elem?, set, swap_found, swap, put_last, take_last, child, less_at, up, down, push, pop,
}

module _ {ℓ} {A : Type ℓ} where
  module _ {κ} (P : A → Type κ) where
    All-append-last : (xs : List A) (x : A) → All P xs → P x → All P (xs ++ x ∷ [])
    All-append-last [] x h p = (p, tt)
    All-append-last (y ∷ xs) x h p = (h.0, All-append-last xs x h.1 p)

    All-get_elem? : (xs : List A) (i : ℕ) (a : A) → All P xs → get_elem? xs i ≡ some a → P a
    All-get_elem? [] i a h e = absurd (cc)
    All-get_elem? (x ∷ xs) zero a h e = let same : x ≡ a = cc in subst P same h.0
    All-get_elem? (x ∷ xs) (suc i) a h e = All-get_elem? xs i a h.1 e

    All-set : (xs : List A) (i : ℕ) (v : A) → All P xs → P v → All P (set xs i v)
    All-set [] i v h p = tt
    All-set (x ∷ xs) zero v h p = (p, h.1)
    All-set (x ∷ xs) (suc i) v h p = (h.0, All-set xs i v h.1 p)

    All-swap_found :
        (o q : Option A) (xs : List A) (i j : ℕ)
        → get_elem? xs i ≡ o
        → get_elem? xs j ≡ q
        → All P xs
        → All P (swap_found o q xs i j)
    All-swap_found (some a) (some b) xs i j h k all =
        All-set (set xs i b) j a (All-set xs i b all (All-get_elem? xs j b all k))
          (All-get_elem? xs i a all h)
    All-swap_found (some a) none xs i j h k all = all
    All-swap_found none q xs i j h k all = all

    All-swap : (xs : List A) (i j : ℕ) → All P xs → All P (swap xs i j)
    unfolding swap
    All-swap xs i j = All-swap_found (get_elem? xs i) (get_elem? xs j) xs i j refl refl

    All-up :
        (less : A → A → Bool) (fuel : ℕ) (xs : List A) (j : ℕ)
        → All P xs
        → All P (up less fuel xs j)
    unfolding up
    All-up less zero xs j h = h
    All-up less (suc fuel) xs j h =
        let i = (j - 1) / 2 in
        elim (Bool-cases (i == j || not (less_at less xs j i))) [
          | inl stop ↦ rw stop h
          | inr go ↦ rw go (All-up less fuel (swap xs i j) i (All-swap xs i j h))
        ]

    All-down :
        (less : A → A → Bool) (fuel : ℕ) (xs : List A) (i n : ℕ)
        → All P xs
        → All P (down less fuel xs i n)
    unfolding down
    All-down less zero xs i n h = h
    All-down less (suc fuel) xs i n h =
        let j = child less xs i n in
        elim (Bool-cases (not (ltb (2 * i + 1) n) || not (less_at less xs j i))) [
          | inl stop ↦ rw stop h
          | inr go ↦ rw go (All-down less fuel (swap xs i j) j n (All-swap xs i j h))
        ]

    All-take_last :
        (xs : List A) (y : A) (ys : List A)
        → take_last xs ≡ some (y, ys)
        → All P xs
        → P y × All P ys
    unfolding take_last
    All-take_last [] y ys e h = absurd (cc)
    All-take_last (x ∷ xs) y ys e h = elim (Option-cases (take_last xs)) [
      | inl nothing ↦
          let k : some (x, []) ≡ some (y, ys) = sym (ap (put_last x) nothing) ∙ e in
          let same : x ≡ y = cc in
          let rest : [] ≡ ys = cc in (subst P same h.0, subst (All P) rest tt)
      | inr ((z, zs), found) ↦
          let k : some (z, x ∷ zs) ≡ some (y, ys) = sym (ap (put_last x) found) ∙ e in
          let ih = All-take_last xs z zs found h.1 in
          let same : z ≡ y = cc in
          let rest : x ∷ zs ≡ ys = cc in (subst P same ih.0, subst (All P) rest (h.0, ih.1))
    ]

    pub All-push :
        (less : A → A → Bool) (x : A) (xs : List A) → P x → All P xs → All P (push less x xs)
    unfolding push
    All-push less x xs p h =
        All-up less (suc (length xs)) (xs ++ x ∷ []) (length xs) (All-append-last xs x h p)

    pub All-pop :
        (less : A → A → Bool) (xs : List A) (y : A) (ys : List A)
        → pop less xs ≡ some (y, ys)
        → All P xs
        → P y × All P ys
    unfolding pop
    All-pop less xs y ys e h =
        let n = length xs - 1 in
        All-take_last (down less (length xs) (swap xs 0 n) 0 n) y ys e
          (All-down less (length xs) (swap xs 0 n) 0 n (All-swap xs 0 n h))
