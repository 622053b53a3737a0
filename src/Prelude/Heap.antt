-- ===== src/Prelude/Heap.antt =====
-- Go's container/heap on a slice, for a `Less` on values. An index out of range does not occur; the
-- model leaves the slice as it is there.
pub mod Sizes
pub mod Members
pub mod Each
use grudge_ai.Prelude.Tests.{◌==◌, ltb, if◌then◌else◌, Bool-cases, Option-cases}
use grudge_ai.Prelude.Lists.{length, any, All, length-append}
use Prim.Native.Nat.{ℕ, zero, suc, ◌+◌, ◌-◌, ◌*◌, ◌/◌}
use mathlib.Core.Path.{◌≡◌, refl, ◌∙◌, sym, ap, subst}
use mathlib.Core.Logic.{inl, inr}
use mathlib.Core.Bool.{Bool, true, false, not, ◌||◌, ◌&&◌}
use mathlib.Core.Option.{Option, none, some}
use mathlib.Core.List.{List, [], ◌∷◌, ◌++◌}
use native.Mathlib.Omega.{arith}

module _ {ℓ} {A : Type ℓ} where
  abbrev get_elem? : List A → ℕ → Option A
  get_elem? [] i = none
  get_elem? (x ∷ xs) zero = some x
  get_elem? (x ∷ xs) (suc i) = get_elem? xs i

  abbrev set : List A → ℕ → A → List A
  set [] i v = []
  set (x ∷ xs) zero v = v ∷ xs
  set (x ∷ xs) (suc i) v = x ∷ set xs i v

  abbrev swap_found : Option A → Option A → List A → ℕ → ℕ → List A
  swap_found (some a) (some b) xs i j = set (set xs i b) j a
  swap_found (some a) none xs i j = xs
  swap_found none o xs i j = xs

  -- h[i], h[j] = h[j], h[i]
  unfoldable pub swap : List A → ℕ → ℕ → List A
  swap xs i j = swap_found (get_elem? xs i) (get_elem? xs j) xs i j

  abbrev put_last : A → Option (A × List A) → Option (A × List A)
  put_last x none = some (x, [])
  put_last x (some (y, ys)) = some (y, x ∷ ys)

  -- The last element of a slice and what stands before it.
  unfoldable pub take_last : List A → Option (A × List A)
  take_last [] = none
  take_last (x ∷ xs) = put_last x (take_last xs)

  module _ (less : A → A → Bool) where
    abbrev less_found : Option A → Option A → Bool
    less_found (some a) (some b) = less a b
    less_found (some a) none = false
    less_found none o = false

    abbrev less_at : List A → ℕ → ℕ → Bool
    less_at xs i j = less_found (get_elem? xs i) (get_elem? xs j)

    unfoldable pub up : ℕ → List A → ℕ → List A
    up zero xs j = xs
    up (suc fuel) xs j =
        let i = (j - 1) / 2 in
        let rest = up fuel (swap xs i j) i in if i == j || not (less_at xs j i) then xs else rest

    -- The child that is compared with its parent.
    abbrev child : List A → ℕ → ℕ → ℕ
    child xs i n =
        if ltb (2 * i + 2) n && less_at xs (2 * i + 2) (2 * i + 1) then 2 * i + 2 else 2 * i + 1

    unfoldable pub down : ℕ → List A → ℕ → ℕ → List A
    down zero xs i n = xs
    down (suc fuel) xs i n =
        let j = child xs i n in
        let rest = down fuel (swap xs i j) j n in
        if not (ltb (2 * i + 1) n) || not (less_at xs j i) then xs else rest

    -- heap.Push
    unfoldable pub push : A → List A → List A
    push x xs = up (suc (length xs)) (xs ++ x ∷ []) (length xs)

    -- heap.Pop; `none` for an empty heap.
    unfoldable pub pop : List A → Option (A × List A)
    pop xs = take_last (down (length xs) (swap xs 0 (length xs - 1)) 0 (length xs - 1))
