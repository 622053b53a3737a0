-- ===== src/Prelude/Heap/Members.antt =====
-- container/heap: which elements a heap has, by a test.
use grudge_ai.Prelude.Tests.{ltb, Bool-cases, Option-cases}
use grudge_ai.Prelude.Lists.{length, any}
use Prim.Native.Nat.{ℕ, zero, suc, ◌+◌, ◌-◌, ◌*◌, ◌/◌}
use mathlib.Core.Path.{◌≡◌, refl, ◌∙◌, sym, ap}
use mathlib.Core.Logic.{inl, inr}
use mathlib.Core.Bool.{Bool, not, ◌||◌}
use mathlib.Core.Option.{Option, none, some}
use mathlib.Core.List.{List, [], ◌∷◌, ◌++◌}
use native.Mathlib.Omega.{arith}
use grudge_ai.Prelude.Heap.{
  get_elem?, set, swap_found, swap, put_last, take_last, child, less_at, up, down, push, pop,
}
use grudge_ai.Prelude.Heap.Sizes.{take_last-none}

module _ {ℓ} {A : Type ℓ} where
  module _ (p : A → Bool) where
    any-append-last : (xs : List A) (x : A) → any p (xs ++ x ∷ []) ≡ (p x || any p xs)
    any-append-last [] x = refl
    any-append-last (y ∷ xs) x = ground (arith, any-append-last xs x)

    any-set :
        (xs : List A) (i : ℕ) (a v : A)
        → get_elem? xs i ≡ some a
        → (p a || any p (set xs i v)) ≡ (p v || any p xs)
    any-set [] i a v h = absurd (cc)
    any-set (x ∷ xs) zero a v h = ground (arith, h)
    any-set (x ∷ xs) (suc i) a v h = ground (arith, any-set xs i a v h)

    -- Writing the old second value first and the old first value second.
    any-set-set :
        (xs : List A) (i j : ℕ) (a b : A)
        → get_elem? xs i ≡ some a
        → get_elem? xs j ≡ some b
        → any p (set (set xs i b) j a) ≡ any p xs
    any-set-set [] i j a b h k = refl
    any-set-set (x ∷ xs) zero zero a b h k = ground (arith, h)
    any-set-set (x ∷ xs) zero (suc j) a b h k = ground (arith, h, any-set xs j b a k)
    any-set-set (x ∷ xs) (suc i) zero a b h k = ground (arith, k, any-set xs i a b h)
    any-set-set (x ∷ xs) (suc i) (suc j) a b h k = ground (arith, any-set-set xs i j a b h k)

    any-swap_found :
        (o q : Option A) (xs : List A) (i j : ℕ)
        → get_elem? xs i ≡ o
        → get_elem? xs j ≡ q
        → any p (swap_found o q xs i j) ≡ any p xs
    any-swap_found (some a) (some b) xs i j h k = any-set-set xs i j a b h k
    any-swap_found (some a) none xs i j h k = refl
    any-swap_found none q xs i j h k = refl

    any-swap : (xs : List A) (i j : ℕ) → any p (swap xs i j) ≡ any p xs
    unfolding swap
    any-swap xs i j = any-swap_found (get_elem? xs i) (get_elem? xs j) xs i j refl refl

    any-take_last :
        (xs : List A) (y : A) (ys : List A)
        → take_last xs ≡ some (y, ys)
        → any p xs ≡ (p y || any p ys)
    unfolding take_last
    any-take_last [] y ys h = absurd (cc)
    any-take_last (x ∷ xs) y ys h = elim (Option-cases (take_last xs)) [
      | inl nothing ↦ ground (arith, take_last-none xs nothing, ap (put_last x) nothing, h)
      | inr ((z, zs), found) ↦ ground (arith, any-take_last xs z zs found, ap (put_last x) found, h)
    ]

    any-up :
        (less : A → A → Bool) (fuel : ℕ) (xs : List A) (j : ℕ)
        → any p (up less fuel xs j) ≡ any p xs
    unfolding up
    any-up less zero xs j = refl
    any-up less (suc fuel) xs j = ground (
      arith,
      any-up less fuel (swap xs ((j - 1) / 2) j) ((j - 1) / 2),
      any-swap xs ((j - 1) / 2) j,
    )

    any-down :
        (less : A → A → Bool) (fuel : ℕ) (xs : List A) (i n : ℕ)
        → any p (down less fuel xs i n) ≡ any p xs
    unfolding down
    any-down less zero xs i n = refl
    any-down less (suc fuel) xs i n =
        let j = child less xs i n in
        elim (Bool-cases (not (ltb (2 * i + 1) n) || not (less_at less xs j i))) [
          | inl stop ↦ rw stop refl
          | inr go ↦ rw go (any-down less fuel (swap xs i j) j n ∙ any-swap xs i j)
        ]

    -- A heap holds what is pushed and what it held.
    pub any-push :
        (less : A → A → Bool) (x : A) (xs : List A) → any p (push less x xs) ≡ (p x || any p xs)
    unfolding push
    any-push less x xs =
        any-up less (suc (length xs)) (xs ++ x ∷ []) (length xs) ∙ any-append-last xs x

    -- What is popped and what is left are what the heap held.
    pub any-pop :
        (less : A → A → Bool) (xs : List A) (y : A) (ys : List A)
        → pop less xs ≡ some (y, ys)
        → any p xs ≡ (p y || any p ys)
    unfolding pop
    any-pop less xs y ys h =
        let n = length xs - 1 in
        sym (any-swap xs 0 n)
        ∙ sym (any-down less (length xs) (swap xs 0 n) 0 n)
        ∙ any-take_last (down less (length xs) (swap xs 0 n) 0 n) y ys h
