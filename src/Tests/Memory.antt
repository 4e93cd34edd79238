-- ===== src/Tests/Memory.antt =====
-- Deep copies and the report of a ModelEndpoint, in a memory of a few cells.
use k8s_ai_operator.Base.{
  ℕ, ℤ, pos, Text, lit, ◌≡◌, refl, ap, true, false, Option, none, some, List, [], ◌∷◌,
}
use k8s_ai_operator.Api.Meta.{
  ObjectMeta, Condition, condition_true, condition_ready, finalizer_name,
}
use k8s_ai_operator.Api.Endpoint.{ModelEndpoint}
use k8s_ai_operator.Api.Memory.{Copier, plain, elements, pointer, struct}
use k8s_ai_operator.Api.Memory.Laws.{
  IsDeep, plain-IsDeep, elements-IsDeep, pointer-IsDeep, struct-IsDeep,
}
use k8s_ai_operator.Api.Memory.Reads.{map-eq_some}
use k8s_ai_operator.Api.Memory.Isolation.{IsIsolated}
use k8s_ai_operator.Api.Memory.Steady.{
  plain-IsSteady, elements-IsSteady, pointer-IsSteady, struct-IsSteady,
}
use k8s_ai_operator.Api.DeepCopy.Structs.{
  Cell, int_cell, texts_cell, conditions_cell, endpoint_cell, ModelEndpointStruct,
}
use k8s_ai_operator.Api.DeepCopy.Stored.{texts_stored}
use k8s_ai_operator.Api.DeepCopy.Endpoint.{ranged, model_endpoint}
use k8s_ai_operator.Api.DeepCopy.Resource.{endpoint, deep_copy}
use k8s_ai_operator.Api.DeepCopy.Resource.Laws.{deep_copy-IsIsolated}
use k8s_ai_operator.Bedrock.Health.{HealthResult}
use k8s_ai_operator.Controller.Endpoint.{Clock, with_health}
use k8s_ai_operator.Controller.Endpoint.Report.{report}
use k8s_ai_operator.Controller.Endpoint.Report.Laws.{IsObjectMeta, report-IsReport}

-- The metadata with its finalizers in a cell of their own.
record MetaStruct : Type 0 where
  name : Text
  namespace : Text
  generation : ℤ
  finalizers : Option ℕ

abbrev meta : Copier (Cell MetaStruct) MetaStruct ObjectMeta
meta =
    struct (λ s. s.finalizers) (λ s p. record s { finalizers = p })
      (λ s a. record {
        name = s.name;
        namespace = s.namespace;
        generation = s.generation;
        deletion_timestamp = none;
        finalizers = ranged a;
      })
      (pointer texts_stored (elements plain))

meta-IsDeep : IsDeep meta
meta-IsDeep =
    struct-IsDeep _ _ _ _ (λ r p. refl) (λ r p a. refl)
      (pointer-IsDeep texts_stored _ (elements-IsDeep _ plain-IsDeep))

abbrev held : Condition
held = record {
  kind = condition_ready;
  status = condition_true;
  reason = lit "Reachable";
  message = lit "ok";
  last_transition_time = 5;
}

abbrev haiku : ModelEndpointStruct MetaStruct
haiku = record {
  meta = record {
    name = lit "haiku";
    namespace = lit "team";
    generation = pos 2;
    finalizers = some 2;
  };
  spec = record {
    model_id = lit "anthropic.claude-3-haiku-20240307-v1:0";
    region = lit "us-east-1";
    irsa_role_arn = lit "arn:aws:iam::123456789012:role/haiku";
    max_tokens = some 1;
    cost_budget = none;
    rate_limit = none;
    guardrail_policy_ref = none;
  };
  status = record {
    available = true;
    conditions = some 0;
    cost_this_month = [];
    cost_today = [];
    invocations_today = pos 0;
    total_input_tokens = pos 0;
    total_output_tokens = pos 0;
    service_name = [];
    observed_generation = pos 1;
  };
}

abbrev memory : List (Cell MetaStruct)
memory =
    conditions_cell (held ∷ [])
    ∷ int_cell (pos 256)
    ∷ texts_cell (finalizer_name ∷ [])
    ∷ endpoint_cell haiku
    ∷ []

abbrev haiku_value : ModelEndpoint
haiku_value = record {
  meta = record {
    name = lit "haiku";
    namespace = lit "team";
    generation = pos 2;
    deletion_timestamp = none;
    finalizers = finalizer_name ∷ [];
  };
  spec = record {
    model_id = lit "anthropic.claude-3-haiku-20240307-v1:0";
    region = lit "us-east-1";
    irsa_role_arn = lit "arn:aws:iam::123456789012:role/haiku";
    max_tokens = some (pos 256);
    cost_budget = none;
    rate_limit = none;
    guardrail_policy_ref = none;
  };
  status = record {
    available = true;
    conditions = held ∷ [];
    cost_this_month = [];
    cost_today = [];
    invocations_today = pos 0;
    total_input_tokens = pos 0;
    total_output_tokens = pos 0;
    service_name = [];
    observed_generation = pos 1;
  };
}

deep_copy-IsIsolated_example :
    IsIsolated (deep_copy meta endpoint) memory (some 3) (some haiku_value)
deep_copy-IsIsolated_example =
    deep_copy-IsIsolated meta meta-IsDeep endpoint memory (some 3) (some haiku_value) refl

meta-IsObjectMeta : IsObjectMeta meta (λ m. m.generation)
meta-IsObjectMeta = record {
  deep = meta-IsDeep;
  steady = struct-IsSteady _ _ _ _ (
      pointer-IsSteady texts_stored _ (λ d given. rw given.1) (elements-IsSteady _ plain-IsSteady));
  read_generation =
      λ h m v e. let (a, ea, same) = map-eq_some _ _ v e in ap (λ x. x.generation) same;
}

abbrev lost : HealthResult
lost = record { available = false; reason = lit "ModelUnavailable"; message = lit "gone" }

abbrev clock : Clock
clock = record { reachable_at = 100; ready_at = 101 }

-- No room at the first call, and room at the second.
report-IsReport_example :
    (base : Option ℕ) × (ep : ModelEndpointStruct MetaStruct) × (h : List (Cell MetaStruct))
    × (report meta (λ m. m.generation) false true lost (lit "haiku-bedrock") clock haiku memory
        ≡ some ((base, ep), h))
    × ((deep_copy meta endpoint).read h base ≡ some (some haiku_value))
    × ((model_endpoint meta).read h ep
        ≡ some (with_health lost (lit "haiku-bedrock") clock haiku_value))
report-IsReport_example =
    report-IsReport meta (λ m. m.generation) false true lost (lit "haiku-bedrock") clock memory
      haiku haiku_value meta-IsObjectMeta refl
