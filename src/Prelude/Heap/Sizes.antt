-- ===== src/Prelude/Heap/Sizes.antt =====
-- container/heap: how many elements a heap has.
use grudge_ai.Prelude.Tests.{ltb, Bool-cases, Option-cases}
use grudge_ai.Prelude.Lists.{length, length-append}
use Prim.Native.Nat.{ℕ, zero, suc, ◌+◌, ◌-◌, ◌*◌, ◌/◌}
use mathlib.Core.Path.{◌≡◌, refl, ◌∙◌, sym, ap}
use mathlib.Core.Logic.{inl, inr}
use mathlib.Core.Bool.{Bool, not, ◌||◌}
use mathlib.Core.Option.{Option, none, some}
use mathlib.Core.List.{List, [], ◌∷◌, ◌++◌}
use native.Mathlib.Omega.{arith}
use grudge_ai.Prelude.Heap.{
  get_elem?, set, swap_found, swap, put_last, take_last, child, less_at, up, down, push, pop,
}

module _ {ℓ} {A : Type ℓ} where
  pub take_last-none : (xs : List A) → take_last xs ≡ none → xs ≡ []
  unfolding take_last
  take_last-none [] h = refl
  take_last-none (x ∷ xs) h = elim (Option-cases (take_last xs)) [
    | inl nothing ↦ absurd (cc (ap (put_last x) nothing, h))
    | inr ((z, zs), found) ↦ absurd (cc (ap (put_last x) found, h))
  ]

  length-set : (xs : List A) (i : ℕ) (v : A) → length (set xs i v) ≡ length xs
  length-set [] i v = refl
  length-set (x ∷ xs) zero v = refl
  length-set (x ∷ xs) (suc i) v = omega (arith, length-set xs i v)

  pub length-swap : (xs : List A) (i j : ℕ) → length (swap xs i j) ≡ length xs
  unfolding swap
  length-swap xs i j = length-swap_found (get_elem? xs i) (get_elem? xs j)
    where
      length-swap_found : (o p : Option A) → length (swap_found o p xs i j) ≡ length xs
      length-swap_found (some a) (some b) = length-set (set xs i b) j a ∙ length-set xs i b
      length-swap_found (some a) none = refl
      length-swap_found none p = refl

  length-up :
      (less : A → A → Bool) (fuel : ℕ) (xs : List A) (j : ℕ)
      → length (up less fuel xs j) ≡ length xs
  unfolding up
  length-up less zero xs j = refl
  length-up less (suc fuel) xs j = ground (
    arith,
    length-up less fuel (swap xs ((j - 1) / 2) j) ((j - 1) / 2),
    length-swap xs ((j - 1) / 2) j,
  )

  length-down :
      (less : A → A → Bool) (fuel : ℕ) (xs : List A) (i n : ℕ)
      → length (down less fuel xs i n) ≡ length xs
  unfolding down
  length-down less zero xs i n = refl
  length-down less (suc fuel) xs i n =
      let j = child less xs i n in
      elim (Bool-cases (not (ltb (2 * i + 1) n) || not (less_at less xs j i))) [
        | inl stop ↦ rw stop refl
        | inr go ↦ rw go (length-down less fuel (swap xs i j) j n ∙ length-swap xs i j)
      ]

  length-take_last :
      (xs : List A) (y : A) (ys : List A) → take_last xs ≡ some (y, ys) → length xs ≡ length ys + 1
  unfolding take_last
  length-take_last [] y ys h = absurd (cc)
  length-take_last (x ∷ xs) y ys h = elim (Option-cases (take_last xs)) [
    | inl nothing ↦
        ground (arith, ap length (take_last-none xs nothing), ap (put_last x) nothing, h)
    | inr ((z, zs), found) ↦
        ground (arith, length-take_last xs z zs found, ap (put_last x) found, h)
  ]

  pub length-push :
      (less : A → A → Bool) (x : A) (xs : List A) → length (push less x xs) ≡ length xs + 1
  unfolding push
  length-push less x xs =
      length-up less (suc (length xs)) (xs ++ x ∷ []) (length xs) ∙ length-append xs (x ∷ [])

  pub length-pop :
      (less : A → A → Bool) (xs : List A) (y : A) (ys : List A)
      → pop less xs ≡ some (y, ys)
      → length xs ≡ length ys + 1
  unfolding pop
  length-pop less xs y ys h =
      let n = length xs - 1 in
      sym (length-swap xs 0 n)
      ∙ sym (length-down less (length xs) (swap xs 0 n) 0 n)
      ∙ length-take_last (down less (length xs) (swap xs 0 n) 0 n) y ys h

  -- Only an empty heap gives nothing.
  pub pop-none : (less : A → A → Bool) (xs : List A) → pop less xs ≡ none → xs ≡ []
  unfolding pop
  pop-none less [] h = refl
  pop-none less (x ∷ xs) h =
      let n = length (x ∷ xs) - 1 in
      let ys = down less (length (x ∷ xs)) (swap (x ∷ xs) 0 n) 0 n in
      let e : ys ≡ [] = take_last-none ys h in
      absurd (
        omega (
          arith,
          ap length e,
          length-down less (length (x ∷ xs)) (swap (x ∷ xs) 0 n) 0 n,
          length-swap (x ∷ xs) 0 n,
        ))
