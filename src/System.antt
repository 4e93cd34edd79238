-- ===== src/System.antt =====
-- The controller and the proxy together: what HandleInvoke answers for an endpoint that Reconcile has
-- just brought into step. Handler.fetchEndpoint of internal/proxy/handler.go reads the same cluster.
pub mod Laws
pub mod Policies
pub mod Admission
pub mod Templates
use k8s_ai_operator.Base.{Text, Result, ok, err}
use k8s_ai_operator.Api.Meta.{ObjectKey}
use k8s_ai_operator.Api.Endpoint.{ModelEndpoint}
use k8s_ai_operator.Controller.Cluster.{Kind, found, not_found, failed}

-- `absent` is the text of the error for a key that is not there.
unfoldable pub fetch_endpoint :
    {S : Type 0} → Kind S ModelEndpoint → (absent : Text) → S → ObjectKey → Result ModelEndpoint
fetch_endpoint endpoints absent s key = elim (endpoints.get key s) [
  | found ep ↦ ok ep
  | not_found ↦ err absent
  | failed e ↦ err e
]
