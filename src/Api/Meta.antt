-- ===== src/Api/Meta.antt =====
-- The parts of k8s.io/apimachinery's ObjectMeta and Condition that the operator uses, and
-- api/v1alpha1/shared_types.go. Times are seconds, with 0 for the zero time.
use k8s_ai_operator.Base.{ℕ, Text, lit, ℤ, Option, none, some, List, Bool, true, ◌==◌, nat_eq}

pub record ObjectMeta : Type 0 where
  pub name : Text
  pub namespace : Text
  pub generation : ℤ
  pub deletion_timestamp : Option ℕ
  pub finalizers : List Text

-- `DeletionTimestamp.IsZero()`, on a nil pointer too
abbrev pub is_zero_time : Option ℕ → Bool
is_zero_time none = true
is_zero_time (some t) = t == 0

-- client.ObjectKey, types.NamespacedName
pub record ObjectKey : Type 0 where
  pub namespace : Text
  pub name : Text

pub data ConditionStatus : Type 0 where
  condition_true condition_false condition_unknown : ConditionStatus

pub record Condition : Type 0 where
  pub kind : Text
  pub status : ConditionStatus
  pub reason : Text
  pub message : Text
  pub last_transition_time : ℕ

pub record BudgetSpec : Type 0 where
  pub daily : Text
  pub monthly : Text

pub record RateLimitSpec : Type 0 where
  pub requests_per_minute : ℤ

pub record ModelEndpointRef : Type 0 where
  pub name : Text

unfoldable pub condition_ready : Text
unfolding lit
condition_ready = lit "Ready"

unfoldable pub condition_bedrock_reachable : Text
unfolding lit
condition_bedrock_reachable = lit "BedrockReachable"

unfoldable pub condition_budget_breached : Text
unfolding lit
condition_budget_breached = lit "BudgetBreached"

unfoldable pub condition_guardrail_synced : Text
unfolding lit
condition_guardrail_synced = lit "GuardrailSynced"

unfoldable pub finalizer_name : Text
unfolding lit
finalizer_name = lit "ai.kernelpanic09.io/finalizer"
