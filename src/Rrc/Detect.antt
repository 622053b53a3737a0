-- ===== src/Rrc/Detect.antt =====
-- rrc/detect.go and rrc/acceptance.go: the rank statistics of the acceptance law.
use grudge_ai.Prelude.{ℕ, ◌+◌, Bool, List, [], ◌∷◌, length, if◌then◌else◌}
use grudge_ai.Rrc.Floats.{Floats}

abbrev pub reference_sample_size : ℕ
reference_sample_size = 64

abbrev pub min_reference_sample : ℕ
min_reference_sample = 4

module _ (fl : Floats) where
  open fl use {F}

  -- p >= lossRatio + mu*float64(tokens)
  unfoldable pub accept : F → F → F → ℕ → Bool
  accept p loss_ratio mu tokens = fl.le (fl.add loss_ratio (fl.mul mu (fl.of_ℕ tokens))) p

  -- how many references score at or above
  unfoldable pub count_at_least : F → List F → ℕ
  count_at_least score [] = 0
  count_at_least score (r ∷ rs) = (if fl.le score r then 1 else 0) + count_at_least score rs

  unfoldable pub null_p : F → List F → F
  null_p score refs = fl.div (fl.of_ℕ (count_at_least score refs + 1)) (fl.of_ℕ (length refs + 1))

  unfoldable pub surprisal_bits : F → F
  surprisal_bits p = if fl.le p fl.zero then fl.infinity else fl.neg (fl.log2 p)

  -- `math.IsInf(bits, 1)`: at or above infinity
  unfoldable pub confidence_from_bits : F → F
  confidence_from_bits bits =
      if fl.le fl.infinity bits then fl.one else fl.sub fl.one (fl.exp2 (fl.neg bits))

  unfoldable pub bits_from_confidence : F → F
  bits_from_confidence conf =
      if fl.le fl.one conf
      then fl.infinity
      else if fl.le conf fl.zero
      then fl.zero
      else fl.neg (fl.log2 (fl.sub fl.one conf))

  unfoldable pub stance_bits : F → F
  stance_bits loss_ratio =
      if fl.le loss_ratio fl.zero
      then fl.zero
      else if fl.le fl.one loss_ratio
      then fl.infinity
      else fl.neg (fl.log2 (fl.sub fl.one loss_ratio))
