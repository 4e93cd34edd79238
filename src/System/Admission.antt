-- ===== src/System/Admission.antt =====
-- The two webhooks and the proxy together: what an endpoint that was admitted means for its limiter.
use k8s_ai_operator.Base.{
  ℕ, ◌≤◌, ℤ, pos, negsuc, Text, ◌/◌, ltb, if◌then◌else◌, true, Option, none, some, ok, ◌≡◌, refl,
  sym, ap, ◌∙◌, arith,
}
use k8s_ai_operator.Api.Meta.{RateLimitSpec}
use k8s_ai_operator.Api.Endpoint.{ModelEndpoint}
use k8s_ai_operator.Webhook.Default.{default_rate_limit, defaulted}
use k8s_ai_operator.Webhook.Validate.{rate_in_range, validate_rate_limit, validate_model_endpoint}
use k8s_ai_operator.Proxy.Limiter.{burst}

rate_in_range-pos : (r : ℤ) → rate_in_range r ≡ true → (n : ℕ) × (r ≡ pos n) × (1 ≤ n) × (n ≤ 3600)
unfolding rate_in_range
rate_in_range-pos (pos n) e = (n, refl, ground arith, ground arith)
rate_in_range-pos (negsuc n) e = absurd (ground arith)

burst_bounds :
    (n : ℕ) → 1 ≤ n → n ≤ 3600 → (m : ℕ) × (burst (pos n) ≡ pos m) × (1 ≤ m) × (m ≤ 360) × (m ≤ n)
unfolding burst
burst_bounds n low high =
    (if ltb (n / 10) 1 then 1 else n / 10, ground arith, ground arith, ground arith, ground arith)

module _ (quote : Text → Text) (show : ℤ → Text) where
  validate-default_rate_limit :
      (l : Option RateLimitSpec)
      → validate_rate_limit quote show (default_rate_limit l) ≡ validate_rate_limit quote show l
  unfolding validate_rate_limit default_rate_limit rate_in_range
  validate-default_rate_limit none = refl
  validate-default_rate_limit (some l) = refl

  pub validate-defaulted :
      (ep : ModelEndpoint)
      → validate_model_endpoint quote show (defaulted ep) ≡ validate_model_endpoint quote show ep
  unfolding validate_model_endpoint defaulted
  validate-defaulted ep = rw (validate-default_rate_limit ep.spec.rate_limit) refl

  validate-rate :
      (ep : ModelEndpoint)
      → validate_model_endpoint quote show ep ≡ ok tt
      → validate_rate_limit quote show ep.spec.rate_limit ≡ ok tt
  unfolding validate_model_endpoint
  validate-rate ep e = ground arith

  rate-in_range :
      (o : Option RateLimitSpec) (l : RateLimitSpec)
      → o ≡ some l
      → validate_rate_limit quote show o ≡ ok tt
      → rate_in_range l.requests_per_minute ≡ true
  unfolding validate_rate_limit
  rate-in_range none l same e = absurd (ground arith)
  rate-in_range (some l') l same e = ground arith

  default_rate_limit-some :
      (o : Option RateLimitSpec) → (l : RateLimitSpec) × (default_rate_limit o ≡ some l)
  unfolding default_rate_limit
  default_rate_limit-some none = (_, refl)
  default_rate_limit-some (some l) = (l, refl)

  -- An endpoint that the validating webhook lets through after the defaulting one was valid before its
  -- defaults. It has a rate limit, from 1 to 3600 requests per minute, and the bucket that the proxy
  -- makes for it has a burst of at least 1, at most 360 and never more than the requests of a minute.
  pub defaulted-burst :
      (ep : ModelEndpoint)
      → validate_model_endpoint quote show (defaulted ep) ≡ ok tt
      → (validate_model_endpoint quote show ep ≡ ok tt)
        × (l : RateLimitSpec) × (n : ℕ) × (m : ℕ) × ((defaulted ep).spec.rate_limit ≡ some l)
        × (l.requests_per_minute ≡ pos n)
        × (1 ≤ n)
        × (n ≤ 3600)
        × (burst l.requests_per_minute ≡ pos m)
        × (1 ≤ m)
        × (m ≤ 360)
        × (m ≤ n)
  unfolding defaulted
  defaulted-burst ep valid =
      let (l, limited) = default_rate_limit-some ep.spec.rate_limit in
      let in_range =
        rate-in_range (defaulted ep).spec.rate_limit l limited
          (validate-rate (defaulted ep) valid) in
      let (n, rate, low, high) = rate_in_range-pos l.requests_per_minute in_range in
      let (m, made, one, most, less) = burst_bounds n low high in
      (
        sym (validate-defaulted ep) ∙ valid,
        l,
        n,
        m,
        limited,
        rate,
        low,
        high,
        ap burst rate ∙ made,
        one,
        most,
        less,
      )
