-- ===== src/Controller/Endpoint/Service.antt =====
-- reconcileService of internal/controller/modelendpoint_controller.go. SetControllerReference and
-- CreateOrUpdate of controller-runtime are parameters.
pub mod Laws
use k8s_ai_operator.Base.{ℕ, Text, lit, [], ◌∷◌, ◌++◌, Result, map_err, text_eq}
use k8s_ai_operator.Base.Dict.{Dict}
use k8s_ai_operator.Base.Exec.{Exec, ◌>>=◌, pure, lift, wrapped}
use k8s_ai_operator.Api.Endpoint.{ModelEndpoint}
use k8s_ai_operator.Controller.Labels.{sanitize_label}
use k8s_ai_operator.Controller.Cluster.{Service, ServiceSpec}

pub record Services (S : Type 0) : Type 0 where
  pub set_controller_reference : ModelEndpoint → Service → Result Service
  -- CreateOrUpdate with its mutate function, which cannot fail here
  pub create_or_update : Service → (Service → Service) → Exec S (Unit {0})
  pub proxy_service_name : Text
  pub proxy_namespace : Text

abbrev pub proxy_port : ℕ
proxy_port = 8090

unfoldable pub service_name : ModelEndpoint → Text
service_name ep = lit "model-" ++ ep.meta.name

unfoldable pub desired_labels : ModelEndpoint → Dict Text Text
desired_labels ep =
    (lit "app.kubernetes.io/managed-by", lit "k8s-ai-operator")
    ∷ (lit "ai.kernelpanic09.io/endpoint", ep.meta.name)
    ∷ (lit "ai.kernelpanic09.io/model-id", sanitize_label ep.spec.model_id)
    ∷ []

-- The Service before the mutate function has given it a spec.
unfoldable pub bare_service : ModelEndpoint → Service
bare_service ep = record {
  name = service_name ep;
  namespace = ep.meta.namespace;
  labels = desired_labels ep;
  owners = [];
  spec = record { kind = []; external_name = []; ports = [] };
}

module _ {S : Type 0} (services : Services S) where
  unfoldable pub desired_spec : ServiceSpec
  desired_spec = record {
    kind = lit "ExternalName";
    external_name =
        services.proxy_service_name
        ++ (lit "." ++ (services.proxy_namespace ++ lit ".svc.cluster.local"));
    ports = record { name = lit "proxy"; port = proxy_port; target_port = proxy_port } ∷ [];
  }

  abbrev pub mutate : Service → Service
  mutate service = record service { spec = desired_spec }

  unfoldable pub reconcile_service : ModelEndpoint → Exec S Text
  reconcile_service ep = do
    desired ← lift (
        map_err (λ e. lit "setting owner reference: " ++ e)
          (services.set_controller_reference ep (bare_service ep)))
    _ ←
        wrapped
          (λ e.
            lit "CreateOrUpdate service "
            ++ (ep.meta.namespace ++ (lit "/" ++ (service_name ep ++ (lit ": " ++ e)))))
          (services.create_or_update desired mutate)
    pure (service_name ep)
