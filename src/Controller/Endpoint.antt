-- ===== src/Controller/Endpoint.antt =====
-- internal/controller/modelendpoint_controller.go
pub mod Service
pub mod Synced
pub mod Report
pub mod Laws
use k8s_ai_operator.Base.{
  ℕ, pos, Text, lit, false, not, some, List, [], ◌∷◌, ◌++◌, Result, ok, err, text_eq, if◌then◌else◌,
}
use k8s_ai_operator.Base.Floats.{FloatOps}
use k8s_ai_operator.Api.Meta.{
  ObjectKey, Condition, condition_ready, condition_bedrock_reachable, finalizer_name, is_zero_time,
}
use k8s_ai_operator.Api.Endpoint.{ModelEndpoint}
use k8s_ai_operator.Bedrock.Client.{EndpointKey}
use k8s_ai_operator.Bedrock.Health.{HealthResult}
use k8s_ai_operator.Metrics.{inc, gauge, forget, reconcile_errors_total, endpoint_available}
use k8s_ai_operator.Controller.Conditions.{set_condition, condition_status}
use k8s_ai_operator.Controller.Cluster.{
  Kind, found, not_found, failed, Finalizers, Outcome, finished, requeued, after, failing, World,
  requeue_steady_state, requeue_transient,
}
use Service.{Services, reconcile_service}

-- BedrockHealthChecker
pub record HealthChecker (B : Type 0) : Type 0 where
  pub health_check : EndpointKey → Text → B → HealthResult × B
  pub invalidate_cache : EndpointKey → B → B

-- The reconciler's fields, and what it takes from controller-runtime.
pub record Reconciler (S B Float : Type 0) : Type 0 where
  pub endpoints : Kind S ModelEndpoint
  pub services : Services S
  pub finalizers : Finalizers
  pub bedrock : HealthChecker B
  pub floats : FloatOps Float

-- The times of the two calls of metav1.Now.
pub record Clock : Type 0 where
  pub reachable_at : ℕ
  pub ready_at : ℕ

abbrev pub key_of : ModelEndpoint → EndpointKey
key_of ep = record { role_arn = ep.spec.irsa_role_arn; region = ep.spec.region }

abbrev pub set_finalizers : List Text → ModelEndpoint → ModelEndpoint
set_finalizers l ep = record ep { meta = record ep.meta { finalizers = l } }

-- FormatCost, which nothing calls yet.
unfoldable pub format_cost : {Float : Type 0} → FloatOps Float → Float → Text
format_cost fl v = fl.format v 2

-- The status after a check: `ep.Status` is written before the patch.
unfoldable pub with_health : HealthResult → Text → Clock → ModelEndpoint → ModelEndpoint
with_health health service clock ep =
    let condition : Text → ℕ → Condition = λ kind now. record {
      kind = kind;
      status = condition_status health.available;
      reason = health.reason;
      message = health.message;
      last_transition_time = now;
    } in
    record ep {
      status = record ep.status {
        available = health.available;
        service_name = service;
        observed_generation = ep.meta.generation;
        conditions =
            set_condition
              (set_condition ep.status.conditions
                (condition condition_bedrock_reachable clock.reachable_at))
              (condition condition_ready clock.ready_at);
      };
    }

module _ {S B Float : Type 0} (r : Reconciler S B Float) where
  unfoldable pub handle_deletion : ModelEndpoint → World S B Float → Outcome × World S B Float
  handle_deletion ep w =
      if r.finalizers.contains ep.meta.finalizers finalizer_name
      then (let (result, s) =
            r.endpoints.update
              (set_finalizers (r.finalizers.remove ep.meta.finalizers finalizer_name) ep)
              w.cluster in
          let w' : World S B Float = record {
            cluster = s;
            bedrock = r.bedrock.invalidate_cache (key_of ep) w.bedrock;
            metrics =
                w.metrics
                ++ forget endpoint_available
                    (ep.meta.namespace ∷ ep.meta.name ∷ ep.spec.model_id ∷ [])
                  ∷ [];
          } in
          elim result [
            | err e ↦ (failing (lit "removing finalizer: " ++ e), w')
            | ok _ ↦ (finished, w')
          ])
      else (finished, w)

  unfoldable pub add_finalizer : ModelEndpoint → World S B Float → Outcome × World S B Float
  add_finalizer ep w =
      let (result, s) =
        r.endpoints.update (set_finalizers (r.finalizers.add ep.meta.finalizers finalizer_name) ep)
          w.cluster in
      elim result [
        | err e ↦ (failing (lit "adding finalizer: " ++ e), record w { cluster = s })
        | ok _ ↦ (requeued, record w { cluster = s })
      ]

  -- The health check, the Service and the status.
  unfoldable pub sync : Clock → ModelEndpoint → World S B Float → Outcome × World S B Float
  sync clock ep w =
      let (health, b) = r.bedrock.health_check (key_of ep) ep.spec.model_id w.bedrock in
      let (service, s) = reconcile_service r.services ep w.cluster in
      elim service [
        | err e ↦ (
          record {
            requeue = false;
            requeue_after = requeue_transient;
            error = some (lit "reconciling service: " ++ e);
          },
          record {
            cluster = s;
            bedrock = b;
            metrics =
                w.metrics
                ++ inc reconcile_errors_total (lit "modelendpoint" ∷ lit "service_reconcile" ∷ [])
                  ∷ [];
          },
        )
        | ok name ↦
            let (patched, t) = r.endpoints.patch_status ep (with_health health name clock ep) s in
            let w' : World S B Float = record {
              cluster = t;
              bedrock = b;
              metrics =
                  w.metrics
                  ++ gauge endpoint_available
                      (ep.meta.namespace ∷ ep.meta.name ∷ ep.spec.model_id ∷ [])
                      (r.floats.of_int (if health.available then pos 1 else pos 0))
                    ∷ [];
            } in
            elim patched [
              | err e ↦ (failing (lit "patching status: " ++ e), w')
              | ok _ ↦
                  (after (if health.available then requeue_steady_state else requeue_transient), w')
            ]
      ]

  unfoldable pub reconcile_found :
      Clock → ModelEndpoint → World S B Float → Outcome × World S B Float
  reconcile_found clock ep w =
      if not (is_zero_time ep.meta.deletion_timestamp)
      then handle_deletion ep w
      else if not (r.finalizers.contains ep.meta.finalizers finalizer_name)
      then add_finalizer ep w
      else sync clock ep w

  unfoldable pub reconcile : Clock → ObjectKey → World S B Float → Outcome × World S B Float
  reconcile clock req w = elim (r.endpoints.get req w.cluster) [
    | not_found ↦ (finished, w)
    | failed e ↦ (failing (lit "fetching ModelEndpoint: " ++ e), w)
    | found ep ↦ reconcile_found clock ep w
  ]
