-- ===== src/Controller/Endpoint/Laws/Converge.antt =====
-- The first two reconciles of a new endpoint, in internal/controller/modelendpoint_controller.go.
use k8s_ai_operator.Base.{true, false, none, text_eq, ◌≡◌, inl, inr, arith}
use k8s_ai_operator.Api.Meta.{ObjectKey, finalizer_name}
use k8s_ai_operator.Api.Endpoint.{ModelEndpoint}
use k8s_ai_operator.Controller.Conditions.{status_eq}
use k8s_ai_operator.Controller.Cluster.{found, AreFinalizers, IsKept, World}
use k8s_ai_operator.Controller.Endpoint.{Reconciler, Clock, key_of, set_finalizers, reconcile}
use k8s_ai_operator.Controller.Endpoint.Synced.{IsSynced}
use k8s_ai_operator.Controller.Endpoint.Laws.{
  set_status, is_deleted, KeepsEndpoints, reconcile-unfinalized, reconcile-IsSynced,
}

module _ {S B Float : Type 0} (r : Reconciler S B Float) (t1 t2 : Clock) (key : ObjectKey) where
  -- Two reconciles bring a new endpoint into step: from an endpoint that is not being deleted and lacks
  -- the finalizer, if neither of them reports an error, the endpoint ends with its spec as it was,
  -- the finalizer, and the status that the one health check calls for, which is made with Bedrock as
  -- it was at the start.
  pub reconcile-reconcile :
      (ep : ModelEndpoint) (w : World S B Float)
      → AreFinalizers r.finalizers
      → IsKept r.endpoints set_finalizers set_status is_deleted
      → KeepsEndpoints r
      → r.endpoints.get key w.cluster ≡ found ep
      → is_deleted ep ≡ false
      → r.finalizers.contains ep.meta.finalizers finalizer_name ≡ false
      → (reconcile r t1 key w).0.error ≡ none
      → (reconcile r t2 key (reconcile r t1 key w).1).0.error ≡ none
      → (ep' : ModelEndpoint) × (r.endpoints.get key
            (reconcile r t2 key (reconcile r t1 key w).1).1.cluster
          ≡ found ep')
        × (ep'.spec ≡ ep.spec)
        × (r.finalizers.contains ep'.meta.finalizers finalizer_name ≡ true)
        × IsSynced (r.bedrock.health_check (key_of ep) ep.spec.model_id w.bedrock).0 ep'
  reconcile-reconcile ep w fs kept keeps here live none_yet quiet1 quiet2 =
      let first = reconcile-unfinalized r t1 key ep w fs kept here live none_yet in
      elim first.2 [
        | inl (e, failed1) ↦ absurd (ground arith)
        | inr (_, l, here', has) ↦
            let second =
              reconcile-IsSynced r t2 key (set_finalizers l ep) (reconcile r t1 key w).1 kept keeps
                here' live has quiet2 in
            let (ep', there, meta, spec, synced) = second.0 in
            (ep', there, spec, rw meta has, rw (← first.0) synced)
      ]
