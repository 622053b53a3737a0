-- ===== src/Prelude/Maps.antt =====
-- A Go map with string keys, as an association list: the first entry for a key counts. No model
-- reads the order of the entries, which Go leaves open.
use Prim.Native.String.{String}
use mathlib.Core.Path.{◌≡◌, refl}
use mathlib.Core.Option.{Option, none, some}
use mathlib.Core.List.{List, [], ◌∷◌, map, Memᴰ}
use mathlib.Core.Logic.{inl, inr}
use native.Mathlib.Omega.{arith}
use text.Mathlib.Text.{◌==◌}
use text.Mathlib.TextEquality.{eq_iff}
use grudge_ai.Prelude.Tests.{if◌then◌else◌, Bool-cases}

abbrev pub Dict {ℓ} : Type ℓ → Type ℓ
Dict V = List (String × V)

module _ {ℓ} {V : Type ℓ} where
  -- m[k], with the second result of `v, ok := m[k]` as `none`.
  unfoldable pub lookup : String → Dict V → Option V
  lookup k [] = none
  lookup k ((j, v) ∷ m) = if j == k then some v else lookup k m

  -- delete(m, k)
  unfoldable pub erase : String → Dict V → Dict V
  erase k [] = []
  erase k ((j, v) ∷ m) = let rest = erase k m in if j == k then rest else (j, v) ∷ rest

  -- m[k] = v
  unfoldable pub insert : String → V → Dict V → Dict V
  insert k v m = (k, v) ∷ erase k m

  pub lookup-erase :
      (k j : String) (m : Dict V) → lookup j (erase k m) ≡ (if k == j then none else lookup j m)
  unfolding lookup erase
  lookup-erase k j [] = ground arith
  lookup-erase k j ((i, v) ∷ m) =
      ground (arith, lookup-erase k j m, eq_iff i k, eq_iff i j, eq_iff k j)

  pub lookup-insert :
      (k j : String) (v : V) (m : Dict V)
      → lookup j (insert k v m) ≡ (if k == j then some v else lookup j m)
  unfolding lookup insert
  lookup-insert k j v m = ground (arith, lookup-erase k j m)

pub lookup-empty {ℓ} : {V : Type ℓ} (k : String) → lookup {V = V} k [] ≡ none
unfolding lookup
lookup-empty k = refl

pub ruleset dict_laws = (lookup-insert, lookup-erase, lookup-empty)

-- The values of a map.
abbrev pub entries {ℓ} : {V : Type ℓ} → Dict V → List V
entries = map (λ e. e.1)

pub lookup-mem {ℓ} :
    {V : Type ℓ} (k : String) (m : Dict V) (v : V) → lookup k m ≡ some v → Memᴰ v (entries m)
unfolding lookup
lookup-mem k [] v h = absurd (cc)
lookup-mem k ((j, w) ∷ m) v h = elim (Bool-cases (j == k)) [
  | inl same ↦ Memᴰ.head (ground (arith, same))
  | inr other ↦ Memᴰ.tail (lookup-mem k m v (ground (arith, other)))
]
