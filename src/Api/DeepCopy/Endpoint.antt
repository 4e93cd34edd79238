-- ===== src/Api/DeepCopy/Endpoint.antt =====
-- DeepCopyInto of ModelEndpointSpec, ModelEndpointStatus, ModelEndpoint and ModelEndpointList.
use k8s_ai_operator.Base.{ℕ, Option, none, some, List, []}
use k8s_ai_operator.Api.Meta.{ObjectMeta, Condition}
use k8s_ai_operator.Api.Endpoint.{ModelEndpointSpec, ModelEndpointStatus, ModelEndpoint}
use k8s_ai_operator.Api.Memory.{Copier, plain, three, four, elements, pointer, struct}
use k8s_ai_operator.Api.DeepCopy.Structs.{
  ModelEndpointSpecStruct, ModelEndpointStatusStruct, ModelEndpointStruct, ModelEndpointListStruct,
  Cell,
}
use k8s_ai_operator.Api.DeepCopy.Stored.{
  int_stored, text_stored, budget_stored, rate_stored, conditions_stored, endpoints_stored,
}

-- The elements of a slice, none of a nil one.
abbrev pub ranged : {A : Type 0} → Option (List A) → List A
ranged none = []
ranged (some l) = l

module _ {Meta : Type 0} where
  abbrev pub conditions_copier : Copier (Cell Meta) (Option ℕ) (Option (List Condition))
  conditions_copier = pointer conditions_stored (elements plain)

  abbrev pub model_endpoint_spec : Copier (Cell Meta) ModelEndpointSpecStruct ModelEndpointSpec
  model_endpoint_spec =
      struct (λ s. (s.max_tokens, s.cost_budget, s.rate_limit, s.guardrail_policy_ref))
        (λ s p. record s {
          max_tokens = p.0;
          cost_budget = p.1;
          rate_limit = p.2;
          guardrail_policy_ref = p.3;
        })
        (λ s a. record {
          model_id = s.model_id;
          region = s.region;
          irsa_role_arn = s.irsa_role_arn;
          max_tokens = a.0;
          cost_budget = a.1;
          rate_limit = a.2;
          guardrail_policy_ref = a.3;
        })
        (four (pointer int_stored plain) (pointer budget_stored plain) (pointer rate_stored plain)
          (pointer text_stored plain))

  abbrev pub model_endpoint_status :
      Copier (Cell Meta) ModelEndpointStatusStruct ModelEndpointStatus
  model_endpoint_status =
      struct (λ s. s.conditions) (λ s p. record s { conditions = p })
        (λ s a. record {
          available = s.available;
          conditions = ranged a;
          cost_this_month = s.cost_this_month;
          cost_today = s.cost_today;
          invocations_today = s.invocations_today;
          total_input_tokens = s.total_input_tokens;
          total_output_tokens = s.total_output_tokens;
          service_name = s.service_name;
          observed_generation = s.observed_generation;
        })
        conditions_copier

  abbrev pub model_endpoint :
      Copier (Cell Meta) Meta ObjectMeta
      → Copier (Cell Meta) (ModelEndpointStruct Meta) ModelEndpoint
  model_endpoint meta =
      struct (λ s. (s.meta, s.spec, s.status))
        (λ s p. record { meta = p.0; spec = p.1; status = p.2 })
        (λ s a. record { meta = a.0; spec = a.1; status = a.2 })
        (three meta model_endpoint_spec model_endpoint_status)

  abbrev pub model_endpoint_list :
      Copier (Cell Meta) Meta ObjectMeta
      → Copier (Cell Meta) ModelEndpointListStruct (List ModelEndpoint)
  model_endpoint_list meta =
      struct (λ s. s.items) (λ s p. record { items = p }) (λ s a. ranged a)
        (pointer endpoints_stored (elements (model_endpoint meta)))
