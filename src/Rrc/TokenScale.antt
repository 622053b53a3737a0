-- ===== src/Rrc/TokenScale.antt =====
-- rrc/tokenscale/tokenscale.go: the ring of admitted ratios of each model. Reading and writing the
-- file is left out: `open_models` takes what the file held, and an admission that changes the store
-- is followed by the write, of which the outcome is an argument. `math.IsNaN` and `math.IsInf` are
-- arguments too.
pub mod Rings
use grudge_ai.Prelude.{
  ℕ, ◌+◌, ◌-◌, ◌*◌, String, Bool, true, false, not, ◌&&◌, ◌||◌, Option, none, some, List, [], ◌∷◌,
  ◌++◌, all, drop, length, text_eq, ltb, leb, Dict, lookup, insert, ℤ, is_positive, pos_part,
  if◌then◌else◌,
}
use grudge_ai.Rrc.Floats.{Floats}

abbrev pub window : ℕ
window = 32

abbrev pub size_gate_divisor : ℕ
size_gate_divisor = 4

pub record ModelState (F : Type 0) : Type 0 where
  pub ratios : List F
  pub samples : ℕ

-- The errors of `Observe`: a ratio outside the band, or the error of the write.
pub data ObserveError : Type 0 where
  ratio_out_of_band : String → ℤ → ℤ → ObserveError
  write_failed : String → ObserveError

module _ (fl : Floats) where
  open fl use {F}

  -- 0.5 and 3.0
  abbrev pub ratio_min : F
  ratio_min = fl.div fl.one (fl.of_ℕ 2)

  abbrev pub ratio_max : F
  ratio_max = fl.of_ℕ 3

  abbrev pub out_of_band : F → Bool
  out_of_band r = fl.lt r ratio_min || fl.lt ratio_max r

  -- `validRatios`
  unfoldable pub valid_ratios : (F → Bool) → (F → Bool) → List F → Bool
  valid_ratios is_nan is_inf ratios =
      not (ltb window (length ratios))
      && all (λ r. not (is_nan r || is_inf r || out_of_band r)) ratios

  -- The entries are models; a nil one, which `Open` rejects too, has no case here.
  unfoldable pub valid_models : (F → Bool) → (F → Bool) → Dict (ModelState F) → Bool
  valid_models is_nan is_inf models =
      all (λ e. not (text_eq e.0 "" || not (valid_ratios is_nan is_inf e.1.ratios))) models

  -- What `Open` makes of the models of a file that it could parse, and whether it reports an error.
  unfoldable pub open_models :
      (F → Bool) → (F → Bool) → Dict (ModelState F) → Dict (ModelState F) × Bool
  open_models is_nan is_inf models =
      if valid_models is_nan is_inf models then (models, false) else ([], true)

  unfoldable pub max_loop : F → List F → F
  max_loop best [] = best
  max_loop best (r ∷ rs) = max_loop (if fl.lt best r then r else best) rs

  abbrev state_of : Option (ModelState F) → ModelState F
  state_of none = record { ratios = []; samples = 0 }
  state_of (some m) = m

  unfoldable pub model_at : String → Dict (ModelState F) → ModelState F
  model_at key models = state_of (lookup key models)

  -- `Scale`: a model that is missing and one without ratios give zero.
  unfoldable pub scale : String → Dict (ModelState F) → F
  scale key models = max_loop fl.zero (model_at key models).ratios

  -- m.Ratios = m.Ratios[len(m.Ratios)-window:] where it is longer.
  unfoldable pub trim_ring : List F → List F
  trim_ring ratios =
      if ltb window (length ratios) then drop (length ratios - window) ratios else ratios

  unfoldable pub admit_ratio : String → F → Dict (ModelState F) → Dict (ModelState F)
  admit_ratio key ratio models =
      let m = model_at key models in
      insert key (record { ratios = trim_ring (m.ratios ++ ratio ∷ []); samples = m.samples + 1 })
        models

  -- `Observe`, with what the write of the file gives.
  unfoldable pub observe :
      Option ObserveError
      → String
      → ℤ
      → ℤ
      → ℤ
      → Dict (ModelState F)
      → Dict (ModelState F) × Option ObserveError
  observe written key predicted observed budget models =
      let ratio = fl.div (fl.of_ℕ (pos_part observed)) (fl.of_ℕ (pos_part predicted)) in
      if not (is_positive predicted) || not (is_positive observed) || not (is_positive budget)
      then (models, none)
      else if ltb (pos_part predicted * size_gate_divisor) (pos_part budget)
      then (models, none)
      else if out_of_band ratio
      then (models, some (ratio_out_of_band key predicted observed))
      else (admit_ratio key ratio models, written)
