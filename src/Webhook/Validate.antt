-- ===== src/Webhook/Validate.antt =====
-- The validating webhook of internal/webhook/modelendpoint_webhook.go. `quote` is the verb %q and
-- `show` the verb %d; decoding is the parameter `decode`.
pub mod Laws
use k8s_ai_operator.Base.{
  ℕ, ◌+◌, ℤ, pos, lt_int, Text, lit, Bool, not, ◌&&◌, ◌||◌, Option, none, some, List, [], ◌∷◌, ◌++◌,
  any, length, take, ltb, Result, ok, err, ◌>>◌, ◌==◌, text_eq, if◌then◌else◌,
}
use k8s_ai_operator.Api.Meta.{BudgetSpec, RateLimitSpec}
use k8s_ai_operator.Api.Endpoint.{ModelEndpoint}
use k8s_ai_operator.Webhook.Arn.{matches_irsa_arn}

unfoldable pub valid_regions : List Text
unfolding lit
valid_regions =
    lit "us-east-1"
    ∷ lit "us-east-2"
    ∷ lit "us-west-2"
    ∷ lit "eu-west-1"
    ∷ lit "eu-west-2"
    ∷ lit "eu-west-3"
    ∷ lit "eu-central-1"
    ∷ lit "eu-north-1"
    ∷ lit "ap-southeast-1"
    ∷ lit "ap-southeast-2"
    ∷ lit "ap-northeast-1"
    ∷ lit "ap-northeast-2"
    ∷ lit "ap-south-1"
    ∷ lit "ca-central-1"
    ∷ lit "sa-east-1"
    ∷ lit "us-gov-west-1"
    ∷ []

unfoldable pub known_model_prefixes : List Text
unfolding lit
known_model_prefixes =
    lit "anthropic."
    ∷ lit "amazon."
    ∷ lit "meta."
    ∷ lit "mistral."
    ∷ lit "cohere."
    ∷ lit "ai21."
    ∷ lit "stability."
    ∷ lit "writer."
    ∷ []

-- admission.Response, as far as the handlers build it
pub data Response : Type 0 where
  errored : (status : ℕ) (message : Text) → Response
  denied : (reason : Text) → Response
  allowed : (message : Text) → Response
  -- admission.PatchResponseFromRaw
  patch_from_raw : (original current : Text) → Response

-- `len(modelId) > len(prefix) && modelId[:len(prefix)] == prefix`
unfoldable pub has_vendor : Text → Text → Bool
has_vendor model_id prefix =
    ltb (length prefix) (length model_id) && take (length prefix) model_id == prefix

unfoldable pub rate_in_range : ℤ → Bool
rate_in_range n = not (lt_int n (pos 1) || lt_int (pos 3600) n)

module _ (quote : Text → Text) (show : ℤ → Text) where
  unfoldable pub validate_region : Text → Result (Unit {0})
  validate_region region =
      if any (λ r. r == region) valid_regions
      then ok tt
      else err
          (lit "spec.region " ++ (quote region ++ lit " is not a known Bedrock-enabled AWS region"))

  unfoldable pub validate_model_id : Text → Result (Unit {0})
  validate_model_id model_id =
      if any (has_vendor model_id) known_model_prefixes
      then ok tt
      else err (
          lit "spec.modelId "
          ++ (quote model_id
              ++ lit
                  " does not start with a known Bedrock vendor prefix (anthropic., amazon., meta., etc.)"))

  unfoldable pub validate_arn : Text → Result (Unit {0})
  validate_arn arn =
      if matches_irsa_arn arn
      then ok tt
      else err (
          lit "spec.irsaRoleArn "
          ++ (quote arn
              ++ lit
                  " does not look like a valid IAM role ARN; expected arn:aws:iam::<account>:role/<name>"))

  unfoldable pub validate_budget : Option BudgetSpec → Result (Unit {0})
  validate_budget none = ok tt
  validate_budget (some budget) =
      if budget.daily == [] && budget.monthly == []
      then err
          (lit "spec.costBudget is present but both daily and monthly are empty; set at least one")
      else ok tt

  unfoldable pub validate_rate_limit : Option RateLimitSpec → Result (Unit {0})
  validate_rate_limit none = ok tt
  validate_rate_limit (some limit) =
      if rate_in_range limit.requests_per_minute
      then ok tt
      else err (
          lit "spec.rateLimit.requestsPerMinute must be between 1 and 3600, got "
          ++ show limit.requests_per_minute)

  unfoldable pub validate_model_endpoint : ModelEndpoint → Result (Unit {0})
  validate_model_endpoint ep = do
    validate_region ep.spec.region
    validate_model_id ep.spec.model_id
    validate_arn ep.spec.irsa_role_arn
    validate_budget ep.spec.cost_budget
    validate_rate_limit ep.spec.rate_limit

  -- ModelEndpointValidator.Handle, on the raw object
  unfoldable pub handle : (Text → Result ModelEndpoint) → Text → Response
  handle decode raw = elim (decode raw) [
    | err e ↦ errored 400 (lit "decoding ModelEndpoint: " ++ e)
    | ok ep ↦ elim (validate_model_endpoint ep) [ err e ↦ denied e | ok _ ↦ allowed [] ]
  ]
