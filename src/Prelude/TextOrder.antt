-- ===== src/Prelude/TextOrder.antt =====
-- The order of texts, `text_ltb`, is asymmetric and its negation is transitive.
use Prim.Native.String.{String}
use Prim.Native.String.compare as clause
use mathlib.Core.Path.{◌≡◌}
use mathlib.Core.Bool.{true, false}
use native.Mathlib.Omega.{arith}
use text.Mathlib.Text.{◌==◌}
use grudge_ai.Prelude.Tests.{text_ltb}

pub text_ltb-asym : (s t : String) → text_ltb s t ≡ true → text_ltb t s ≡ false
text_ltb-asym String.[] String.[] h = ground arith
text_ltb-asym String.[] (String.◌∷◌ d t) h = ground (arith, clause.cons-nil d t)
text_ltb-asym (String.◌∷◌ c s) String.[] h = ground (arith, clause.cons-nil c s)
text_ltb-asym (String.◌∷◌ c s) (String.◌∷◌ d t) h =
    ground (arith, clause.cons-cons c d s t, clause.cons-cons d c t s, text_ltb-asym s t)

-- `y < x` and `z < y` fail, so `z < x` fails.
pub text_ltb_trans :
    (x y z : String) → text_ltb y x ≡ false → text_ltb z y ≡ false → text_ltb z x ≡ false
text_ltb_trans String.[] String.[] z h k = k
text_ltb_trans String.[] (String.◌∷◌ d t) String.[] h k = ground arith
text_ltb_trans String.[] (String.◌∷◌ d t) (String.◌∷◌ e u) h k = ground (arith, clause.cons-nil e u)
text_ltb_trans (String.◌∷◌ c s) String.[] z h k = ground (arith, clause.nil-cons c s)
text_ltb_trans (String.◌∷◌ c s) (String.◌∷◌ d t) String.[] h k =
    ground (arith, clause.nil-cons d t, clause.nil-cons c s)
text_ltb_trans (String.◌∷◌ c s) (String.◌∷◌ d t) (String.◌∷◌ e u) h k = ground (
  arith,
  clause.cons-cons d c t s,
  clause.cons-cons e d u t,
  clause.cons-cons e c u s,
  text_ltb_trans s t u,
)

-- The order is total: texts of which neither is less are equal.
pub text_eq_of_ltb : (s t : String) → text_ltb s t ≡ false → text_ltb t s ≡ false → (s == t) ≡ true
text_eq_of_ltb String.[] String.[] h k = ground arith
text_eq_of_ltb String.[] (String.◌∷◌ d t) h k = ground (arith, clause.nil-cons d t)
text_eq_of_ltb (String.◌∷◌ c s) String.[] h k = ground (arith, clause.nil-cons c s)
text_eq_of_ltb (String.◌∷◌ c s) (String.◌∷◌ d t) h k =
    ground (arith, clause.cons-cons c d s t, clause.cons-cons d c t s, text_eq_of_ltb s t)
