-- ===== src/Prelude/Results.antt =====
-- A value or an error, for Go's `(T, error)` returns.
use mathlib.Core.Path.{◌≡◌, refl}
use mathlib.Core.Bool.{Bool, true, false}
use mathlib.Core.Logic.{◌⊎◌, inl, inr}

pub data Result {ℓ κ} (Failure : Type ℓ) (Value : Type κ) : Type (ℓ ⊔ κ) where
  err : Failure → Result Failure Value
  ok : Value → Result Failure Value

module _ {ℓ κ μ} {Failure : Type ℓ} {Value : Type κ} {Next : Type μ} where
  infixl 5 ◌>>=◌
  -- The rest of a function after a call that may fail.
  abbrev pub ◌>>=◌ : Result Failure Value → (Value → Result Failure Next) → Result Failure Next
  err failure >>= rest = err failure
  ok value >>= rest = rest value

-- The two ways in which a bind ends.
module _ {ℓ κ μ} {Failure : Type ℓ} {Value : Type κ} {Next : Type μ} where
  pub >>=-eq-ok :
      (call : Result Failure Value) (rest : Value → Result Failure Next) {result : Next}
      → (call >>= rest) ≡ ok result
      → (value : Value) × (call ≡ ok value) × (rest value ≡ ok result)
  >>=-eq-ok (err failure) rest e = cc
  >>=-eq-ok (ok value) rest e = (value, refl, e)

  pub >>=-eq-err :
      (call : Result Failure Value) (rest : Value → Result Failure Next) {failure : Failure}
      → (call >>= rest) ≡ err failure
      → (call ≡ err failure) ⊎ ((value : Value) × (call ≡ ok value) × (rest value ≡ err failure))
  >>=-eq-err (err e) rest h = inl (cc)
  >>=-eq-err (ok value) rest h = inr (value, refl, h)

pub Result-cases {ℓ κ} :
    {E : Type ℓ}
    → {A : Type κ} → (r : Result E A) → ((a : A) × (r ≡ ok a)) ⊎ ((e : E) × (r ≡ err e))
Result-cases (ok a) = inl (a, refl)
Result-cases (err e) = inr (e, refl)

abbrev pub succeeds {ℓ κ} : {E : Type ℓ} {A : Type κ} → Result E A → Bool
succeeds (ok a) = true
succeeds (err e) = false
