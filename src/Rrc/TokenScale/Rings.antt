-- ===== src/Rrc/TokenScale/Rings.antt =====
-- The rings stay valid: what `Observe` leaves, `Open` accepts.
use grudge_ai.Prelude.{
  ℕ, zero, suc, ◌-◌, ◌*◌, ◌≤◌, ◌<◌, String, ◌≡◌, refl, sym, ◌∙◌, ap, subst, Bool, true, false, not,
  ◌&&◌, ◌||◌, Option, some, List, [], ◌∷◌, ◌++◌, all, drop, length, length-append, text_eq, eq_iff,
  ltb, Dict, lookup, insert, erase, ℤ, is_positive, pos_part, Bool-cases, Option-cases, inl, inr,
  ◌⊎◌, arith,
}
use grudge_ai.Rrc.Floats.{Floats}
use grudge_ai.Rrc.TokenScale.{
  window, size_gate_divisor, ModelState, ObserveError, out_of_band, valid_ratios, valid_models,
  open_models, model_at, trim_ring, admit_ratio, observe,
}

length-drop {ℓ} : {A : Type ℓ} (n : ℕ) (xs : List A) → length (drop n xs) ≡ length xs - n
length-drop zero xs = omega arith
length-drop (suc n) [] = omega arith
length-drop (suc n) (x ∷ xs) = omega (arith, length-drop n xs)

module _ {ℓ} {A : Type ℓ} (p : A → Bool) where
  all-append : (xs ys : List A) → all p (xs ++ ys) ≡ (all p xs && all p ys)
  all-append [] ys = refl
  all-append (x ∷ xs) ys = ground (arith, all-append xs ys)

  all-drop : (n : ℕ) (xs : List A) → all p xs ≡ true → all p (drop n xs) ≡ true
  all-drop zero xs h = h
  all-drop (suc n) [] h = refl
  all-drop (suc n) (x ∷ xs) h = all-drop n xs (ground (arith, h))

module _ {A : Type 0} (p : String × A → Bool) where
  all-erase : (k : String) (m : Dict A) → all p m ≡ true → all p (erase k m) ≡ true
  unfolding erase
  all-erase k [] h = refl
  all-erase k ((j, v) ∷ m) h = ground (arith, h, all-erase k m)

  all-lookup :
      (k : String) (m : Dict A) (v : A) → all p m ≡ true → lookup k m ≡ some v → p (k, v) ≡ true
  unfolding lookup
  all-lookup k [] v h e = absurd (cc)
  all-lookup k ((j, w) ∷ m) v h e = elim (Bool-cases (text_eq j k)) [
    | inl same ↦
        let here : some w ≡ some v = rw same at e in
        let name : j ≡ k = ground (arith, eq_iff j k, same) in
        let value : w ≡ v = cc in
        let entry : (j, w) ≡ (k, v) = cc in subst (λ x. p x ≡ true) entry (ground (arith, h))
    | inr other ↦ all-lookup k m v (ground (arith, h)) (rw other at e)
  ]

module _ (fl : Floats) (is_nan is_inf : Floats.F fl → Bool) where
  open fl use {F}

  trim_ring_valid :
      (ratios : List F)
      → length ratios ≤ suc window
      → all (λ r. not (is_nan r || is_inf r || out_of_band fl r)) ratios ≡ true
      → valid_ratios fl is_nan is_inf (trim_ring fl ratios) ≡ true
  unfolding valid_ratios trim_ring
  trim_ring_valid ratios bound h = ground (
    arith,
    h,
    all-drop (λ r. not (is_nan r || is_inf r || out_of_band fl r)) (length ratios - window) ratios
        h,
    length-drop (length ratios - window) ratios,
  )

  abbrev is_fine : String × ModelState F → Bool
  is_fine e = not (text_eq e.0 "" || not (valid_ratios fl is_nan is_inf e.1.ratios))

  -- The ring of a model: that of its state, or the empty one.
  model_at_cases :
      (key : String) (models : Dict (ModelState F))
      → ((model_at fl key models).ratios ≡ [])
        ⊎ ((m : ModelState F) × (lookup key models ≡ some m) × (model_at fl key models ≡ m))
  unfolding model_at
  model_at_cases key models = elim (Option-cases (lookup key models)) [
    | inl missing ↦ inl (rw missing refl)
    | inr (m, found) ↦ inr (m, found, rw found refl)
  ]

  module _ (key : String) (named : text_eq key "" ≡ false) (models : Dict (ModelState F))
      (valid : valid_models fl is_nan is_inf models ≡ true) where
    model_ratios :
        (length (model_at fl key models).ratios ≤ window)
        × (all (λ r. not (is_nan r || is_inf r || out_of_band fl r)) (model_at fl key models).ratios
            ≡ true)
    unfolding valid_models valid_ratios
    model_ratios = elim (model_at_cases key models) [
      | inl empty ↦ rw empty (omega arith, refl)
      | inr (m, found, same) ↦
          let fine = all-lookup is_fine key models m valid found in
          rw same (ground (arith, fine), ground (arith, fine))
    ]

    admit_ratio-valid_models :
        (ratio : F)
        → (is_nan ratio || is_inf ratio || out_of_band fl ratio) ≡ false
        → valid_models fl is_nan is_inf (admit_ratio fl key ratio models) ≡ true
    unfolding admit_ratio valid_models insert
    admit_ratio-valid_models ratio h =
        let m = model_at fl key models in
        let p = λ (r : F). not (is_nan r || is_inf r || out_of_band fl r) in
        let ring =
          trim_ring_valid (m.ratios ++ ratio ∷ [])
            (omega (arith, length-append m.ratios (ratio ∷ []), model_ratios.0))
            (ground (arith, all-append p m.ratios (ratio ∷ []), model_ratios.1, h)) in
        ground (arith, named, ring, all-erase is_fine key models valid)

  abbrev ratio_of : ℤ → ℤ → F
  ratio_of predicted observed = fl.div (fl.of_ℕ (pos_part observed)) (fl.of_ℕ (pos_part predicted))

  -- An observation leaves the store as it is, or admits a ratio in the band of a positive prediction.
  observe_ways :
      (written : Option ObserveError) (key : String) (predicted observed budget : ℤ)
      (models : Dict (ModelState F))
      → ((observe fl written key predicted observed budget models).0 ≡ models)
        ⊎ (((observe fl written key predicted observed budget models).0
              ≡ admit_ratio fl key (ratio_of predicted observed) models)
            × (out_of_band fl (ratio_of predicted observed) ≡ false)
            × (is_positive predicted ≡ true))
  unfolding observe
  observe_ways written key predicted observed budget models =
      let skipped =
        not (is_positive predicted) || not (is_positive observed) || not (is_positive budget) in
      let small = ltb (pos_part predicted * size_gate_divisor) (pos_part budget) in
      elim (Bool-cases skipped) [
        | inl skip ↦ inl (rw skip refl)
        | inr keep ↦ elim (Bool-cases small) [
          | inl gate ↦ inl (rw (keep, gate) refl)
          | inr large ↦ elim (Bool-cases (out_of_band fl (ratio_of predicted observed))) [
            | inl out ↦ inl (rw (keep, large, out) refl)
            | inr inside ↦ inr (rw (keep, large, inside) refl, inside, ground (arith, keep))
          ]
        ]
      ]

  is_positive-pos_part : (z : ℤ) → is_positive z ≡ true → 0 < pos_part z
  is_positive-pos_part (ℤ.pos zero) h = absurd (cc)
  is_positive-pos_part (ℤ.pos (suc n)) h = omega arith
  is_positive-pos_part (ℤ.negsuc n) h = absurd (cc)

  open_of_valid :
      (models : Dict (ModelState F))
      → valid_models fl is_nan is_inf models ≡ true
      → open_models fl is_nan is_inf models ≡ (models, false)
  unfolding open_models
  open_of_valid models valid = rw valid refl

  valid_of_open :
      (models : Dict (ModelState F))
      → open_models fl is_nan is_inf models ≡ (models, false)
      → valid_models fl is_nan is_inf models ≡ true
  unfolding open_models
  valid_of_open models accepted = elim (Bool-cases (valid_models fl is_nan is_inf models)) [
    | inl valid ↦ valid
    | inr degenerate ↦
        let refused : open_models fl is_nan is_inf models ≡ ([], true) = rw degenerate refl in
        let q : true ≡ false =
          ap (λ (x : Dict (ModelState F) × Bool). x.1) (sym refused ∙ accepted) in
        absurd (cc)
  ]

  -- Where a ratio of naturals, with a positive divisor, is a finite number, and the model's key is not
  -- empty, every observation on models that `Open` accepts leaves models that `Open` accepts: no model
  -- has more than 32 ratios, and each ratio lies in the band.
  pub open_models-observe :
      ((a b : ℕ)
        → 0 < b
        → (is_nan (fl.div (fl.of_ℕ a) (fl.of_ℕ b)) || is_inf (fl.div (fl.of_ℕ a) (fl.of_ℕ b)))
          ≡ false)
      → (written : Option ObserveError) (key : String) (predicted observed budget : ℤ)
        (models : Dict (ModelState F))
      → text_eq key "" ≡ false
      → open_models fl is_nan is_inf models ≡ (models, false)
      → open_models fl is_nan is_inf (observe fl written key predicted observed budget models).0
        ≡ ((observe fl written key predicted observed budget models).0, false)
  open_models-observe finite written key predicted observed budget models named accepted =
      let valid = valid_of_open models accepted in
      let after = (observe fl written key predicted observed budget models).0 in
      elim (observe_ways written key predicted observed budget models) [
        | inl same ↦ subst (λ ms. open_models fl is_nan is_inf ms ≡ (ms, false)) (sym same) accepted
        | inr (admitted, inside, positive) ↦
            let fine =
              finite (pos_part observed) (pos_part predicted)
                (is_positive-pos_part predicted positive) in
            open_of_valid after (
              subst (λ ms. valid_models fl is_nan is_inf ms ≡ true) (sym admitted)
                (admit_ratio-valid_models key named models valid (ratio_of predicted observed)
                  (ground (arith, fine, inside))))
      ]
