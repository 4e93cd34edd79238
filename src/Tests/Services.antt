-- ===== src/Tests/Services.antt =====
-- The Service of an endpoint, in a cluster with room for one Service.
use k8s_ai_operator.Base.{lit, ◌≡◌, refl, Option, none, some, [], ◌∷◌, Result, ok, arith}
use k8s_ai_operator.Api.Meta.{ObjectKey}
use k8s_ai_operator.Api.Endpoint.{ModelEndpoint}
use k8s_ai_operator.Base.Exec.{Exec}
use k8s_ai_operator.Controller.Cluster.{Service}
use k8s_ai_operator.Controller.Endpoint.Service.{
  Services, service_name, bare_service, desired_labels, desired_spec, reconcile_service,
}
use k8s_ai_operator.Controller.Endpoint.Service.Laws.{
  AreServices, endpoint_service, reconcile_service-IsThere,
}
use k8s_ai_operator.Tests.World.{endpoint}

abbrev own : ModelEndpoint → Service → Result Service
own ep service = ok (record service { owners = ep.meta.name ∷ [] })

abbrev put : Service → (Service → Service) → Exec (Option Service) (Unit {0})
put given f none = (ok tt, some (f given))
put given f (some there) = (ok tt, some (f there))

abbrev services : Services (Option Service)
services = record {
  set_controller_reference = own;
  create_or_update = put;
  proxy_service_name = lit "k8s-ai-operator-proxy";
  proxy_namespace = lit "ai-operator-system";
}

abbrev find : ObjectKey → Option Service → Option Service
find key s = s

put_new :
    (given : Service) (f : Service → Service) (s t : Option Service)
    → s ≡ none
    → put given f s ≡ (ok tt, t)
    → t ≡ some (f given)
put_new given f none t e h = ground arith
put_new given f (some there) t e h = absurd (ground arith)

put_again :
    (given there : Service) (f : Service → Service) (s t : Option Service)
    → s ≡ some there
    → put given f s ≡ (ok tt, t)
    → t ≡ some (f there)
put_again given there f none t e h = absurd (ground arith)
put_again given there f (some there') t e h = ground arith

services-AreServices : AreServices services find
services-AreServices = record {
  referenced = λ ep given owned h. ground arith;
  created = put_new;
  updated = put_again;
}

-- A Service that someone made by hand.
abbrev handmade : Service
handmade = record (bare_service endpoint) { labels = []; owners = [] }

reconcile_service-IsThere_example :
    (service_name endpoint ≡ service_name endpoint)
    × (service : Service) × (find
          (endpoint_service endpoint)
          (reconcile_service services endpoint (some handmade)).1
        ≡ some service)
    × (service.spec ≡ desired_spec services)
    × (find (endpoint_service endpoint) (some handmade) ≡ none
        → service.labels ≡ desired_labels endpoint)
    × ((there : Service)
        → find (endpoint_service endpoint) (some handmade) ≡ some there
        → (service.labels ≡ there.labels) × (service.owners ≡ there.owners))
unfolding reconcile_service
reconcile_service-IsThere_example =
    reconcile_service-IsThere services find endpoint (service_name endpoint) (some handmade)
      (reconcile_service services endpoint (some handmade)).1 services-AreServices refl
