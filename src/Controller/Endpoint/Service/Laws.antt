-- ===== src/Controller/Endpoint/Service/Laws.antt =====
-- What reconcileService leaves of the Service of an endpoint.
use k8s_ai_operator.Base.{
  Text, ◌≡◌, refl, inl, inr, Option, none, some, ok, arith, Result-cases, Option-cases, sym,
}
use k8s_ai_operator.Api.Meta.{ObjectKey}
use k8s_ai_operator.Api.Endpoint.{ModelEndpoint}
use k8s_ai_operator.Controller.Cluster.{Service}
use k8s_ai_operator.Controller.Endpoint.Service.{
  Services, service_name, desired_labels, bare_service, desired_spec, mutate, reconcile_service,
}

abbrev pub key_of_service : Service → ObjectKey
key_of_service service = record { namespace = service.namespace; name = service.name }

-- The documented behaviour of SetControllerReference, which changes the owners alone, and of
-- CreateOrUpdate where it succeeds: it applies the mutate function to the Service that is found, and
-- only if there is none to the one that it is given.
pub record AreServices {S : Type 0} (services : Services S) (find : ObjectKey → S → Option Service)
    : Type 0 where
  pub referenced :
      (ep : ModelEndpoint) (given owned : Service)
      → services.set_controller_reference ep given ≡ ok owned
      → owned ≡ record given { owners = owned.owners }
  pub created :
      (given : Service) (f : Service → Service) (s t : S)
      → find (key_of_service given) s ≡ none
      → services.create_or_update given f s ≡ (ok tt, t)
      → find (key_of_service given) t ≡ some (f given)
  pub updated :
      (given there : Service) (f : Service → Service) (s t : S)
      → find (key_of_service given) s ≡ some there
      → services.create_or_update given f s ≡ (ok tt, t)
      → find (key_of_service given) t ≡ some (f there)

abbrev pub endpoint_service : ModelEndpoint → ObjectKey
endpoint_service ep = record { namespace = ep.meta.namespace; name = service_name ep }

-- A success has gone through both calls.
reconcile_service-calls :
    {S : Type 0} (services : Services S) (ep : ModelEndpoint) (name : Text) (s t : S)
    → reconcile_service services ep s ≡ (ok name, t)
    → (owned : Service) × (services.set_controller_reference ep (bare_service ep) ≡ ok owned)
      × (services.create_or_update owned (mutate services) s ≡ (ok tt, t))
      × (name ≡ service_name ep)
unfolding reconcile_service
reconcile_service-calls services ep name s t h =
    elim (Result-cases (services.set_controller_reference ep (bare_service ep))) [
      | inl (owned, p) ↦
          elim (Result-cases (services.create_or_update owned (mutate services) s).0) [
            | inl (u, q) ↦ (owned, p, ground arith, ground arith)
            | inr (e, q) ↦ absurd (ground arith)
          ]
      | inr (e, p) ↦ absurd (ground arith)
    ]

module _ {S : Type 0} (services : Services S) (find : ObjectKey → S → Option Service) where
  -- The owner reference moves no other field.
  owned-endpoint_service :
      (ep : ModelEndpoint) (owned : Service)
      → owned ≡ record (bare_service ep) { owners = owned.owners }
      → (key_of_service owned ≡ endpoint_service ep) × (owned.labels ≡ desired_labels ep)
  unfolding bare_service
  owned-endpoint_service ep owned same = (rw same, rw same)

  -- If reconcileService succeeds, the endpoint's namespace has the Service model-<name>, whose spec is
  -- the ExternalName of the operator's proxy with its port, whatever was there. A new Service has the
  -- endpoint's labels; one that was there keeps the labels and the owners that it had.
  pub reconcile_service-IsThere :
      (ep : ModelEndpoint) (name : Text) (s t : S)
      → AreServices services find
      → reconcile_service services ep s ≡ (ok name, t)
      → (name ≡ service_name ep)
        × (service : Service) × (find (endpoint_service ep) t ≡ some service)
        × (service.spec ≡ desired_spec services)
        × (find (endpoint_service ep) s ≡ none → service.labels ≡ desired_labels ep)
        × ((there : Service)
            → find (endpoint_service ep) s ≡ some there
            → (service.labels ≡ there.labels) × (service.owners ≡ there.owners))
  reconcile_service-IsThere ep name s t x h =
      let (owned, p, q, named) = reconcile_service-calls services ep name s t h in
      let (key, labels) =
        owned-endpoint_service ep owned (x.referenced ep (bare_service ep) owned p) in
      elim (Option-cases (find (endpoint_service ep) s)) [
        | inl missing ↦ (
          named,
          mutate services owned,
          rw (sym key, x.created owned (mutate services) s t (rw (key, missing)) q),
          refl,
          λ e. labels,
          λ there e. absurd (ground arith),
        )
        | inr (there, present) ↦ (
          named,
          mutate services there,
          rw (sym key, x.updated owned there (mutate services) s t (rw (key, present)) q),
          refl,
          λ e. absurd (ground arith),
          λ there' e. (ground arith, ground arith),
        )
      ]
