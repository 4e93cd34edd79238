-- ===== src/Webhook/Validate/Laws.antt =====
-- What the validating webhook lets through.
use k8s_ai_operator.Base.{
  ◌<◌, ℤ, pos, negsuc, ◌≤ℤ◌, Text, lit, ◌≡◌, refl, ap, ap₂, ◌≢◌, ◌↔◌, ◌⊎◌, true, Option, none, some,
  [], ◌∷◌, ◌++◌, Any, any_iff, length, length-append, take, Result, Result-cases, ok, err, arith,
  ◌==◌, ==_iff, text_eq, inl, inr,
}
use k8s_ai_operator.Api.Meta.{BudgetSpec, RateLimitSpec}
use k8s_ai_operator.Api.Endpoint.{ModelEndpoint}
use k8s_ai_operator.Webhook.Arn.Laws.{IsRoleArn, matches_irsa_arn_iff}
use k8s_ai_operator.Webhook.Validate.{
  valid_regions, known_model_prefixes, has_vendor, rate_in_range, validate_region,
  validate_model_id, validate_arn, validate_budget, validate_rate_limit, validate_model_endpoint,
  handle, errored, allowed,
}

-- A vendor's prefix with something after it.
abbrev pub StartsWith : Text → Text → Type 0
StartsWith model_id prefix = (rest : Text) × (rest ≢ []) × (model_id ≡ prefix ++ rest)

abbrev pub HasLimit : Option BudgetSpec → Type 0
HasLimit none = Unit
HasLimit (some b) = (b.daily ≢ []) ⊎ (b.monthly ≢ [])

abbrev pub HasRate : Option RateLimitSpec → Type 0
HasRate none = Unit
HasRate (some r) = (pos 1 ≤ℤ r.requests_per_minute) × (r.requests_per_minute ≤ℤ pos 3600)

-- The conditions on a ModelEndpoint, each in its own words.
pub record IsAdmissible (ep : ModelEndpoint) : Type 0 where
  pub region : Any (λ r. r ≡ ep.spec.region) valid_regions
  pub model : Any (StartsWith ep.spec.model_id) known_model_prefixes
  pub role : IsRoleArn ep.spec.irsa_role_arn
  pub budget : HasLimit ep.spec.cost_budget
  pub rate : HasRate ep.spec.rate_limit

take-append : (p r : Text) → take (length p) (p ++ r) ≡ p
take-append [] r = refl
take-append (c ∷ p) r = ap (λ s. c ∷ s) (take-append p r)

split_at : (p s : Text) → length p < length s → take (length p) s ≡ p → StartsWith s p
split_at [] [] h e = absurd (omega arith)
split_at [] (c ∷ s) h e = (c ∷ s, (λ k. cc), refl)
split_at (c ∷ p) [] h e = absurd (omega arith)
split_at (c ∷ p) (d ∷ s) h e =
    let (rest, given, whole) = split_at p s (omega arith) (ground arith) in
    let head : d ≡ c = ground arith in (rest, given, ap₂ ◌∷◌ head whole)

length-ne-zero : (s : Text) → s ≢ [] → 0 < length s
length-ne-zero [] h = absurd (h refl)
length-ne-zero (c ∷ s) h = omega arith

has_vendor_iff :
    (model_id prefix : Text) → (has_vendor model_id prefix ≡ true) ↔ StartsWith model_id prefix
unfolding has_vendor
has_vendor_iff model_id prefix = (
  λ e. split_at prefix model_id (ground arith) (ground arith),
  λ h.
      let (rest, given, whole) = h in
      rw whole (
        ground
          (arith, take-append prefix rest, length-append prefix rest, length-ne-zero rest given)),
)

rate_in_range_iff : (n : ℤ) → (rate_in_range n ≡ true) ↔ ((pos 1 ≤ℤ n) × (n ≤ℤ pos 3600))
unfolding rate_in_range
rate_in_range_iff (pos n) = ground arith
rate_in_range_iff (negsuc n) = ground arith

module _ (quote : Text → Text) (show : ℤ → Text) where
  validate_region_iff :
      (region : Text)
      → (validate_region quote show region ≡ ok tt) ↔ Any (λ r. r ≡ region) valid_regions
  unfolding validate_region
  validate_region_iff region =
      let known =
        any_iff (λ r. r == region) (λ r. r ≡ region) (λ r. ==_iff r region) valid_regions in
      (λ e. known.0 (ground arith), λ h. let t = known.1 h in ground arith)

  validate_model_id_iff :
      (model_id : Text)
      → (validate_model_id quote show model_id ≡ ok tt)
        ↔ Any (StartsWith model_id) known_model_prefixes
  unfolding validate_model_id
  validate_model_id_iff model_id =
      let known =
        any_iff (has_vendor model_id) (StartsWith model_id) (has_vendor_iff model_id)
          known_model_prefixes in
      (λ e. known.0 (ground arith), λ h. let t = known.1 h in ground arith)

  validate_arn_iff : (arn : Text) → (validate_arn quote show arn ≡ ok tt) ↔ IsRoleArn arn
  unfolding validate_arn
  validate_arn_iff arn = (
    λ e. (matches_irsa_arn_iff arn).0 (ground arith),
    λ h. let t = (matches_irsa_arn_iff arn).1 h in ground arith,
  )

  validate_budget_iff :
      (b : Option BudgetSpec) → (validate_budget quote show b ≡ ok tt) ↔ HasLimit b
  unfolding validate_budget
  validate_budget_iff none = (λ _. tt, λ _. refl)
  validate_budget_iff (some b) = ground arith

  validate_rate_limit_iff :
      (r : Option RateLimitSpec) → (validate_rate_limit quote show r ≡ ok tt) ↔ HasRate r
  unfolding validate_rate_limit
  validate_rate_limit_iff none = (λ _. tt, λ _. refl)
  validate_rate_limit_iff (some r) =
      let range = rate_in_range_iff r.requests_per_minute in
      (λ e. range.0 (ground arith), λ h. let t = range.1 h in ground arith)

  -- validateModelEndpoint accepts exactly the admissible endpoints: a known region, a vendor's prefix
  -- with something after it, a role ARN, a budget with a limit if there is a budget, and between 1 and
  -- 3600 requests per minute if there is a rate limit.
  pub validate_model_endpoint_iff :
      (ep : ModelEndpoint) → (validate_model_endpoint quote show ep ≡ ok tt) ↔ IsAdmissible ep
  unfolding validate_model_endpoint
  validate_model_endpoint_iff ep = (
    λ e. record {
      region = (validate_region_iff ep.spec.region).0 (ground arith);
      model = (validate_model_id_iff ep.spec.model_id).0 (ground arith);
      role = (validate_arn_iff ep.spec.irsa_role_arn).0 (ground arith);
      budget = (validate_budget_iff ep.spec.cost_budget).0 (ground arith);
      rate = (validate_rate_limit_iff ep.spec.rate_limit).0 (ground arith);
    },
    λ h.
        let a = (validate_region_iff ep.spec.region).1 h.region in
        let b = (validate_model_id_iff ep.spec.model_id).1 h.model in
        let c = (validate_arn_iff ep.spec.irsa_role_arn).1 h.role in
        let d = (validate_budget_iff ep.spec.cost_budget).1 h.budget in
        let e = (validate_rate_limit_iff ep.spec.rate_limit).1 h.rate in ground arith,
  )

  -- The webhook allows a request exactly when its object decodes to an admissible endpoint, and
  -- answers an object that does not decode with status 400.
  pub handle_allowed_iff :
      (decode : Text → Result ModelEndpoint) (raw : Text)
      → ((handle quote show decode raw ≡ allowed [])
          ↔ ((ep : ModelEndpoint) × (decode raw ≡ ok ep) × IsAdmissible ep))
        × ((e : Text)
            → decode raw ≡ err e
            → handle quote show decode raw ≡ errored 400 (lit "decoding ModelEndpoint: " ++ e))
  unfolding handle
  handle_allowed_iff decode raw = (
    (
      λ e. elim (Result-cases (decode raw)) [
        | inr (m, refused) ↦ absurd (ground arith)
        | inl (ep, decoded) ↦ (ep, decoded, (validate_model_endpoint_iff ep).0 (ground arith))
      ],
      λ h.
          let (ep, decoded, admissible) = h in
          let valid = (validate_model_endpoint_iff ep).1 admissible in ground arith,
    ),
    λ e refused. ground arith,
  )
