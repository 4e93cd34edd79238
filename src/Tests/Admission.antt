-- ===== src/Tests/Admission.antt =====
-- The webhooks on one endpoint.
use k8s_ai_operator.Base.{
  ℕ, ◌≤◌, ℤ, pos, some, ◌∙◌, Text, lit, ◌≡◌, refl, ◌↔◌, [], true, Result, ok, err, text_eq, nat_eq,
  cut_prefix,
}
use k8s_ai_operator.Api.Meta.{RateLimitSpec}
use k8s_ai_operator.Proxy.Limiter.{burst}
use k8s_ai_operator.System.Admission.{validate-defaulted, defaulted-burst}
use k8s_ai_operator.Api.Endpoint.{ModelEndpoint}
use k8s_ai_operator.Webhook.Arn.{
  matches_irsa_arn, role_part, is_name, is_partition_byte, is_digit, is_dot,
}
use k8s_ai_operator.Webhook.Arn.Laws.{IsRoleArn, matches_irsa_arn_iff}
use k8s_ai_operator.Webhook.Validate
use k8s_ai_operator.Webhook.Validate.{validate_model_endpoint, patch_from_raw, validate_region}
use k8s_ai_operator.Webhook.Validate.Laws.{IsAdmissible, validate_model_endpoint_iff}
use k8s_ai_operator.Webhook.Default
use k8s_ai_operator.Webhook.Default.{defaulted}
use k8s_ai_operator.Tests.World.{endpoint}

abbrev quote : Text → Text
quote t = t

abbrev show : ℤ → Text
show n = []

-- The model id without its vendor.
abbrev mistyped : ModelEndpoint
mistyped = record endpoint { spec = record endpoint.spec { model_id = lit "claude-3-haiku" } }

admission : Unit {0}
unfolding validate_model_endpoint Validate.validate_model_id Validate.validate_arn validate_region
    Validate.valid_regions text_eq Validate.known_model_prefixes Validate.has_vendor
    matches_irsa_arn role_part cut_prefix nat_eq is_partition_byte is_digit is_name is_dot
    Validate.validate_budget Validate.validate_rate_limit Validate.rate_in_range lit
admission = tt

endpoint_accepted : validate_model_endpoint quote show endpoint ≡ ok tt
unfolding admission
endpoint_accepted = refl

mistyped_rejected :
    validate_model_endpoint quote show mistyped
    ≡ err (
        lit
          "spec.modelId claude-3-haiku does not start with a known Bedrock vendor prefix (anthropic., amazon., meta., etc.)")
unfolding admission
mistyped_rejected = refl

matches_irsa_arn_iff_example :
    (matches_irsa_arn endpoint.spec.irsa_role_arn ≡ true) ↔ IsRoleArn endpoint.spec.irsa_role_arn
matches_irsa_arn_iff_example = matches_irsa_arn_iff endpoint.spec.irsa_role_arn

validate_model_endpoint_iff_example :
    (validate_model_endpoint quote show endpoint ≡ ok tt) ↔ IsAdmissible endpoint
validate_model_endpoint_iff_example = validate_model_endpoint_iff quote show endpoint

abbrev decode : Text → Result ModelEndpoint
decode t = ok endpoint

abbrev encode : ModelEndpoint → Result Text
encode ep = ok (lit "json")

abbrev decode_default : Text → Result ModelEndpoint
decode_default t = ok (defaulted endpoint)

first_patch :
    Default.handle decode_default encode (lit "raw") ≡ patch_from_raw (lit "raw") (lit "json")
unfolding Default.handle
first_patch = refl

defaulted-burst_example :
    (validate_model_endpoint quote show endpoint ≡ ok tt)
    × (l : RateLimitSpec) × (n : ℕ) × (m : ℕ) × ((defaulted endpoint).spec.rate_limit ≡ some l)
    × (l.requests_per_minute ≡ pos n)
    × (1 ≤ n)
    × (n ≤ 3600)
    × (burst l.requests_per_minute ≡ pos m)
    × (1 ≤ m)
    × (m ≤ 360)
    × (m ≤ n)
defaulted-burst_example =
    defaulted-burst quote show endpoint (validate-defaulted quote show endpoint ∙ endpoint_accepted)
