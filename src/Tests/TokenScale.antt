-- ===== src/Tests/TokenScale.antt =====
-- An observation of a model's tokens on an empty store.
use grudge_ai.Prelude.{
  ℕ, ◌<◌, String, ◌≡◌, refl, Bool, true, false, ◌||◌, none, [], List, pos, Dict, text_eq,
}
use grudge_ai.Rrc.TokenScale.{
  ModelState, valid_models, open_models, observe, scale, max_loop, model_at, admit_ratio, trim_ring,
}
use grudge_ai.Rrc.TokenScale.Rings.{open_models-observe}
use grudge_ai.Tests.{nat_floats}

abbrev never : ℕ → Bool
never r = false

abbrev models : Dict (ModelState ℕ)
models = []

open_models-none : open_models nat_floats never never models ≡ (models, false)
unfolding open_models valid_models
open_models-none = refl

open_models-observe_example :
    open_models nat_floats never never
      (observe nat_floats none "m" (pos 8) (pos 2) (pos 16) models).0
    ≡ ((observe nat_floats none "m" (pos 8) (pos 2) (pos 16) models).0, false)
open_models-observe_example =
    open_models-observe nat_floats never never (λ a b h. refl) none "m" (pos 8) (pos 2) (pos 16)
      models refl open_models-none

scale-observe :
    scale nat_floats "m" (observe nat_floats none "m" (pos 8) (pos 2) (pos 16) models).0 ≡ 2
unfolding scale max_loop model_at observe admit_ratio trim_ring grudge_ai.Prelude.lookup
    grudge_ai.Prelude.insert grudge_ai.Prelude.erase
scale-observe = refl
