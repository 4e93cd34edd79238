-- ===== src/Controller/Endpoint/Laws.antt =====
-- What a reconcile of internal/controller/modelendpoint_controller.go leaves behind, under the
-- documented behaviour of the API server and of the finalizer helpers.
pub mod Converge
use k8s_ai_operator.Base.{
  Text, lit, Bool, true, false, not, none, List, ◌++◌, ok, text_eq, if◌then◌else◌, ◌≡◌, refl, ◌⊎◌,
  inl, inr, arith, Result-cases, ◌∙◌,
}
use k8s_ai_operator.Api.Meta.{ObjectKey, finalizer_name, is_zero_time}
use k8s_ai_operator.Api.Endpoint.{ModelEndpoint}
use k8s_ai_operator.Controller.Conditions.{status_eq}
use k8s_ai_operator.Controller.Cluster.{
  found, AreFinalizers, IsKept, requeued, after, failing, World, Service, requeue_steady_state,
  requeue_transient,
}
use k8s_ai_operator.Controller.Endpoint.Service.{
  service_name, reconcile_service, bare_service, mutate,
}
use k8s_ai_operator.Controller.Endpoint.{
  Reconciler, Clock, key_of, set_finalizers, with_health, handle_deletion, add_finalizer, sync,
  reconcile_found, reconcile,
}
use k8s_ai_operator.Controller.Endpoint.Synced.{IsSynced, with_health-IsSynced}

abbrev pub set_status : ModelEndpoint → ModelEndpoint → ModelEndpoint
set_status a b = record a { status = b.status }

abbrev pub is_deleted : ModelEndpoint → Bool
is_deleted ep = not (is_zero_time ep.meta.deletion_timestamp)

-- A Service that is written leaves the endpoints as they are.
abbrev pub KeepsEndpoints : {S B Float : Type 0} → Reconciler S B Float → Type 0
KeepsEndpoints {S} r =
    (key : ObjectKey) (desired : Service) (f : Service → Service) (s : S)
    → r.endpoints.get key (r.services.create_or_update desired f s).1 ≡ r.endpoints.get key s

module _ {S B Float : Type 0} (r : Reconciler S B Float) (clock : Clock) (key : ObjectKey) where
  reconcile_service-lem :
      (ep : ModelEndpoint) (name : Text) (s t : S)
      → reconcile_service r.services ep s ≡ (ok name, t)
      → KeepsEndpoints r
      → (name ≡ service_name ep) × (r.endpoints.get key t ≡ r.endpoints.get key s)
  unfolding reconcile_service
  reconcile_service-lem ep name s t h k =
      elim (Result-cases (r.services.set_controller_reference ep (bare_service ep))) [
        | inl (d, p) ↦
            let same = k key d (mutate r.services) s in
            elim (Result-cases (r.services.create_or_update d (mutate r.services) s).0) [
              | inl (_, q) ↦ ground arith
              | inr (e, q) ↦ absurd (ground arith)
            ]
        | inr (e, p) ↦ absurd (ground arith)
      ]

  reconcile-branch :
      (ep : ModelEndpoint) (w : World S B Float)
      → r.endpoints.get key w.cluster ≡ found ep
      → reconcile r clock key w ≡ (
          if is_deleted ep
          then handle_deletion r ep w
          else if not (r.finalizers.contains ep.meta.finalizers finalizer_name)
          then add_finalizer r ep w
          else sync r clock ep w)
  unfolding reconcile reconcile_found
  reconcile-branch ep w here = ground arith

  -- An endpoint that is not being deleted and lacks the finalizer gets it before anything else happens:
  -- Bedrock is not asked and no metric is touched. Either the update fails and the reconcile reports
  -- that, or the endpoint carries the finalizer and is queued again at once.
  pub reconcile-unfinalized :
      (ep : ModelEndpoint) (w : World S B Float)
      → AreFinalizers r.finalizers
      → IsKept r.endpoints set_finalizers set_status is_deleted
      → r.endpoints.get key w.cluster ≡ found ep
      → is_deleted ep ≡ false
      → r.finalizers.contains ep.meta.finalizers finalizer_name ≡ false
      → ((reconcile r clock key w).1.bedrock ≡ w.bedrock)
        × ((reconcile r clock key w).1.metrics ≡ w.metrics)
        × (((e : Text) × ((reconcile r clock key w).0 ≡ failing (lit "adding finalizer: " ++ e)))
            ⊎ (((reconcile r clock key w).0 ≡ requeued)
                × (l : List Text) × (r.endpoints.get key (reconcile r clock key w).1.cluster
                    ≡ found (set_finalizers l ep))
                × (r.finalizers.contains l finalizer_name ≡ true)))
  unfolding add_finalizer
  reconcile-unfinalized ep w fs kept here live none_yet =
      let l = r.finalizers.add ep.meta.finalizers finalizer_name in
      let update = r.endpoints.update (set_finalizers l ep) w.cluster in
      rw (reconcile-branch ep w here, live, none_yet)
        (elim (Result-cases update.0) [
          | inl (_, p) ↦
              rw (add_finalizer, p)
                (
                  refl,
                  refl,
                  inr (
                    refl,
                    l,
                    kept.get-update key ep l w.cluster update.1 here live (ground arith),
                    fs.contains-add ep.meta.finalizers finalizer_name,
                  ),
                )
          | inr (e, p) ↦ rw (add_finalizer, p) (refl, refl, inl (e, refl))
        ])

  -- A reconcile of a live endpoint with the finalizer that reports no error leaves the endpoint with its
  -- own metadata and spec and with the status that the health check calls for: availability, both
  -- conditions, the Service's name and the generation. It comes back after 300 seconds if the model
  -- is available, and after 10 if it is not.
  pub reconcile-IsSynced :
      (ep : ModelEndpoint) (w : World S B Float)
      → IsKept r.endpoints set_finalizers set_status is_deleted
      → KeepsEndpoints r
      → r.endpoints.get key w.cluster ≡ found ep
      → is_deleted ep ≡ false
      → r.finalizers.contains ep.meta.finalizers finalizer_name ≡ true
      → (reconcile r clock key w).0.error ≡ none
      → let health = (r.bedrock.health_check (key_of ep) ep.spec.model_id w.bedrock).0 in
        ((ep' : ModelEndpoint) × (r.endpoints.get key (reconcile r clock key w).1.cluster
            ≡ found ep')
          × (ep'.meta ≡ ep.meta)
          × (ep'.spec ≡ ep.spec)
          × IsSynced health ep')
        × ((reconcile r clock key w).0
            ≡ after (if health.available then requeue_steady_state else requeue_transient))
  unfolding sync with_health
  reconcile-IsSynced ep w kept keeps here live has quiet =
      let health = (r.bedrock.health_check (key_of ep) ep.spec.model_id w.bedrock).0 in
      let service = reconcile_service r.services ep w.cluster in
      elim (Result-cases service.0) [
        | inl (name, p) ↦
            let named = reconcile_service-lem ep name w.cluster service.1 (ground arith) keeps in
            let ep' = with_health health name clock ep in
            let patch = r.endpoints.patch_status ep ep' service.1 in
            elim (Result-cases patch.0) [
              | inl (_, q) ↦
                  let outcome : (reconcile r clock key w).0
                      ≡ after
                          (if health.available then requeue_steady_state else requeue_transient) =
                    ground (arith, reconcile-branch ep w here) in
                  let left : (reconcile r clock key w).1.cluster ≡ patch.1 =
                    ground (arith, reconcile-branch ep w here) in
                  let kept_status =
                    kept.get-patch_status key ep ep' service.1 patch.1 (named.1 ∙ here)
                      (ground arith) in
                  (
                    (
                      ep',
                      rw left kept_status,
                      refl,
                      refl,
                      rw named.0 (with_health-IsSynced health clock ep),
                    ),
                    outcome,
                  )
              | inr (e, q) ↦ absurd (ground (arith, reconcile-branch ep w here))
            ]
        | inr (e, p) ↦ absurd (ground (arith, reconcile-branch ep w here))
      ]
