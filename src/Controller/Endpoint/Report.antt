-- ===== src/Controller/Endpoint/Report.antt =====
-- The lines of Reconcile in internal/controller/modelendpoint_controller.go that prepare the status
-- patch, on the endpoint as it lies in memory: first the deep copy for the patch's base, then the writes.
pub mod Reads
pub mod Laws
use k8s_ai_operator.Base.{ℕ, ℤ, Text, Bool, Option}
use k8s_ai_operator.Api.Meta.{ObjectMeta, Condition, condition_ready, condition_bedrock_reachable}
use k8s_ai_operator.Api.Memory.{M, pure, ◌>>=◌, alloc, Copier}
use k8s_ai_operator.Api.DeepCopy.Structs.{Cell, ModelEndpointStruct}
use k8s_ai_operator.Api.DeepCopy.Stored.{endpoint_stored}
use k8s_ai_operator.Api.DeepCopy.Endpoint.{model_endpoint}
use k8s_ai_operator.Bedrock.Health.{HealthResult}
use k8s_ai_operator.Controller.Conditions.{condition_status}
use k8s_ai_operator.Controller.Conditions.InPlace.{set_condition_at}
use k8s_ai_operator.Controller.Endpoint.{Clock}

abbrev pub reported : HealthResult → Text → ℕ → Condition
reported health kind now = record {
  kind = kind;
  status = condition_status health.available;
  reason = health.reason;
  message = health.message;
  last_transition_time = now;
}

-- The endpoint with the status fields written, and this slice of conditions.
abbrev pub written :
    {Meta : Type 0}
    → (generation : Meta → ℤ) → HealthResult
    → Text
    → ModelEndpointStruct Meta
    → Option ℕ
    → ModelEndpointStruct Meta
written generation health service ep conditions = record ep {
  status = record ep.status {
    available = health.available;
    service_name = service;
    observed_generation = generation ep.meta;
    conditions = conditions;
  };
}

-- The base and the endpoint, which the patch is made of. `room` and `room'` tell whether the array of
-- the conditions has room at the two calls of setCondition, and `generation` reads the metadata.
abbrev pub report :
    {Meta : Type 0}
    → Copier (Cell Meta) Meta ObjectMeta
    → (generation : Meta → ℤ) → (room room' : Bool) → HealthResult
    → Text
    → Clock
    → ModelEndpointStruct Meta
    → M (Cell Meta) (Option ℕ × ModelEndpointStruct Meta)
report meta generation room room' health service clock ep = do
  copied ← (model_endpoint meta).copy ep
  base ← alloc endpoint_stored copied
  first ←
      set_condition_at room ep.status.conditions
        (reported health condition_bedrock_reachable clock.reachable_at)
  second ← set_condition_at room' first (reported health condition_ready clock.ready_at)
  pure (base, written generation health service ep second)
