-- ===== src/Api/Endpoint.antt =====
-- api/v1alpha1/modelendpoint_types.go
use k8s_ai_operator.Base.{Text, ℤ, Option, List, Bool}
use k8s_ai_operator.Api.Meta.{ObjectMeta, Condition, BudgetSpec, RateLimitSpec}

pub record ModelEndpointSpec : Type 0 where
  pub model_id : Text
  pub region : Text
  pub irsa_role_arn : Text
  pub max_tokens : Option ℤ
  pub cost_budget : Option BudgetSpec
  pub rate_limit : Option RateLimitSpec
  pub guardrail_policy_ref : Option Text

pub record ModelEndpointStatus : Type 0 where
  pub available : Bool
  pub conditions : List Condition
  pub cost_this_month : Text
  pub cost_today : Text
  pub invocations_today : ℤ
  pub total_input_tokens : ℤ
  pub total_output_tokens : ℤ
  pub service_name : Text
  pub observed_generation : ℤ

pub record ModelEndpoint : Type 0 where
  pub meta : ObjectMeta
  pub spec : ModelEndpointSpec
  pub status : ModelEndpointStatus
