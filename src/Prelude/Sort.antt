-- ===== src/Prelude/Sort.antt =====
-- `sort.SliceStable`: the list in the order of `less`, equals in their old order.
use Prim.Native.Nat.{suc}
use mathlib.Core.Path.{◌≡◌, refl}
use mathlib.Core.Bool.{Bool, true, false, ◌||◌}
use mathlib.Core.Logic.{inl, inr}
use mathlib.Core.List.{List, [], ◌∷◌}
use native.Mathlib.Omega.{arith}
use grudge_ai.Prelude.Tests.{if◌then◌else◌, Bool-cases}
use grudge_ai.Prelude.Lists.{All, any, length}

module _ {ℓ} {A : Type ℓ} (less : A → A → Bool) where
  unfoldable pub insert_sorted : A → List A → List A
  insert_sorted x [] = x ∷ []
  insert_sorted x (y ∷ ys) = if less y x then y ∷ insert_sorted x ys else x ∷ y ∷ ys

  unfoldable pub sort_stable : List A → List A
  unfolding insert_sorted
  sort_stable [] = []
  sort_stable (x ∷ xs) = insert_sorted x (sort_stable xs)

  -- no later element is less than an earlier one
  abbrev pub IsSorted : List A → Type 0
  IsSorted [] = Unit
  IsSorted (x ∷ xs) = All (λ y. less y x ≡ false) xs × IsSorted xs

  module _ {κ} (P : A → Type κ) where
    All-insert_sorted : (x : A) (xs : List A) → P x → All P xs → All P (insert_sorted x xs)
    unfolding insert_sorted
    All-insert_sorted x [] p h = (p, tt)
    All-insert_sorted x (y ∷ ys) p h = ground (arith, All-insert_sorted x ys p h.1)

    pub All-sort_stable : (xs : List A) → All P xs → All P (sort_stable xs)
    unfolding sort_stable
    All-sort_stable [] h = tt
    All-sort_stable (x ∷ xs) h = All-insert_sorted x (sort_stable xs) h.0 (All-sort_stable xs h.1)

  any-insert_sorted :
      (p : A → Bool) (x : A) (xs : List A) → any p (insert_sorted x xs) ≡ (p x || any p xs)
  unfolding insert_sorted
  any-insert_sorted p x [] = refl
  any-insert_sorted p x (y ∷ ys) = ground (arith, any-insert_sorted p x ys)

  pub any-sort_stable : (p : A → Bool) (xs : List A) → any p (sort_stable xs) ≡ any p xs
  unfolding sort_stable
  any-sort_stable p [] = refl
  any-sort_stable p (x ∷ xs) =
      ground (arith, any-insert_sorted p x (sort_stable xs), any-sort_stable p xs)

  length-insert_sorted : (x : A) (xs : List A) → length (insert_sorted x xs) ≡ suc (length xs)
  unfolding insert_sorted
  length-insert_sorted x [] = refl
  length-insert_sorted x (y ∷ ys) = ground (arith, length-insert_sorted x ys)

  pub length-sort_stable : (xs : List A) → length (sort_stable xs) ≡ length xs
  unfolding sort_stable
  length-sort_stable [] = refl
  length-sort_stable (x ∷ xs) =
      omega (arith, length-insert_sorted x (sort_stable xs), length-sort_stable xs)

  -- For an order of which equality is transitive the result is sorted.
  module _ (asym : (x y : A) → less x y ≡ true → less y x ≡ false)
      (trans : (x y z : A) → less y x ≡ false → less z y ≡ false → less z x ≡ false) where
    All-raise :
        (x y : A) (xs : List A)
        → less y x ≡ false
        → All (λ z. less z y ≡ false) xs
        → All (λ z. less z x ≡ false) xs
    All-raise x y [] h a = tt
    All-raise x y (z ∷ zs) h a = (trans x y z h a.0, All-raise x y zs h a.1)

    insert_sorted-IsSorted : (x : A) (xs : List A) → IsSorted xs → IsSorted (insert_sorted x xs)
    unfolding insert_sorted
    insert_sorted-IsSorted x [] s = (tt, tt)
    insert_sorted-IsSorted x (y ∷ ys) s = elim (Bool-cases (less y x)) [
      | inl lower ↦ rw lower (
        All-insert_sorted (λ z. less z y ≡ false) x ys (asym y x lower) s.0,
        insert_sorted-IsSorted x ys s.1,
      )
      | inr upper ↦ rw upper ((upper, All-raise x y ys upper s.0), (s.0, s.1))
    ]

    pub sort_stable-IsSorted : (xs : List A) → IsSorted (sort_stable xs)
    unfolding sort_stable
    sort_stable-IsSorted [] = tt
    sort_stable-IsSorted (x ∷ xs) =
        insert_sorted-IsSorted x (sort_stable xs) (sort_stable-IsSorted xs)
