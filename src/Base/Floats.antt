-- ===== src/Base/Floats.antt =====
-- Go's float64, with the operations that the program applies to it, is a parameter: the type `Float`
-- and these operations.
use Prim.Native.Nat.{ℕ}
use mathlib.Core.Bool.{Bool}
use k8s_ai_operator.Base.Ints.{ℤ}
use k8s_ai_operator.Base.Texts.{Text}

pub record FloatOps (Float : Type 0) : Type 0 where
  -- `float64(n)`
  pub of_int : ℤ → Float
  -- the literal m / 10 ^ k: `decimal 35 3` is 0.035
  pub decimal : ℕ → ℕ → Float
  pub add : Float → Float → Float
  pub mul : Float → Float → Float
  pub div : Float → Float → Float
  -- math.Round
  pub round : Float → Float
  -- `x > 0`
  pub is_positive : Float → Bool
  -- `x < 0`
  pub is_negative : Float → Bool
  -- strconv.FormatFloat(x, 'f', precision, 64)
  pub format : Float → ℕ → Text
