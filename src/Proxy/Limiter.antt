-- ===== src/Proxy/Limiter.antt =====
-- getLimiter of internal/proxy/handler.go, and `Allow` on the limiter that it returns. The token
-- bucket of golang.org/x/time/rate is the parameter `bucket`; the map holds a bucket's present state.
pub mod Laws
pub mod Requests
use k8s_ai_operator.Base.{
  ℕ, ◌+◌, ◌/◌, ℤ, pos, negsuc, Text, Bool, none, some, ◌∷◌, ◌++◌, ◌-◌, lt_int, ltb, text_eq,
  if◌then◌else◌,
}
use k8s_ai_operator.Base.Dict
use k8s_ai_operator.Base.Dict.{Dict}
use k8s_ai_operator.Base.Floats.{FloatOps}

pub record BucketOps (Float Bucket : Type 0) : Type 0 where
  -- rate.NewLimiter: the rate per second and the burst
  pub new_limiter : Float → ℤ → Bucket
  -- Allow at a time, with the bucket that it leaves
  pub allow : ℕ → Bucket → Bool × Bucket

-- `int(rpm) / 10`: Go's division truncates towards zero.
unfoldable pub tenth : ℤ → ℤ
tenth (pos n) = pos (n / 10)
tenth (negsuc n) = if ltb (n + 1) 10 then pos 0 else negsuc ((n + 1) / 10 - 1)

unfoldable pub at_least_one : ℤ → ℤ
at_least_one n = if lt_int n (pos 1) then pos 1 else n

unfoldable pub burst : ℤ → ℤ
unfolding tenth at_least_one
burst rpm = at_least_one (tenth rpm)

unfoldable pub limiter_key : Text → Text → Text
limiter_key namespace name = namespace ++ b'/' ∷ name

module _ {Float Bucket : Type 0} (fl : FloatOps Float) (bucket : BucketOps Float Bucket) where
  unfoldable pub new_bucket : ℤ → Bucket
  new_bucket rpm = bucket.new_limiter (fl.div (fl.of_int rpm) (fl.decimal 60 0)) (burst rpm)

  unfoldable pub get_limiter : Text → Text → ℤ → Dict Text Bucket → Bucket × Dict Text Bucket
  get_limiter namespace name rpm m =
      let key = limiter_key namespace name in
      elim (Dict.get key m) [
        | some b ↦ (b, m)
        | none ↦ (new_bucket rpm, Dict.put key (new_bucket rpm) m)
      ]

  -- `h.getLimiter(...)` and `limiter.Allow()`: the bucket is changed in place.
  unfoldable pub admit : Text → Text → ℤ → ℕ → Dict Text Bucket → Bool × Dict Text Bucket
  unfolding get_limiter
  admit namespace name rpm now m =
      let (b, m') = get_limiter namespace name rpm m in
      let (passes, b') = bucket.allow now b in (passes, Dict.put (limiter_key namespace name) b' m')
