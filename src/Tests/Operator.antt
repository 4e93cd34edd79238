-- ===== src/Tests/Operator.antt =====
-- The policy controller that main registers, with an SDK that counts the calls.
use k8s_ai_operator.Base.{ℕ, ◌+◌, lit, ◌≡◌, refl, not, some, [], ok, ◌==◌, text_eq, if◌then◌else◌}
use k8s_ai_operator.Api.Meta.{finalizer_name}
use k8s_ai_operator.Bedrock.Client.{SdkClient, assumed}
use k8s_ai_operator.Bedrock.Guardrail.{GuardrailSdk}
use k8s_ai_operator.Controller.Guardrail.{reconcile}
use k8s_ai_operator.Manager.Laws.{guardrail_client}
use k8s_ai_operator.System.Policies.{operator_policies, reconcile-guardrail_client}
use k8s_ai_operator.Tests.Policies.{policy, policy_store, world}
use k8s_ai_operator.Tests.Serving.{env, cfg}
use k8s_ai_operator.Tests.Status.{finalizers, key}

abbrev sdk : GuardrailSdk ℕ
sdk = record {
  create_guardrail = λ cl input n. (ok (some (lit "g1"), some (lit "DRAFT")), n + 1);
  update_guardrail = λ cl input n. (ok (some (lit "DRAFT")), n + 10);
  delete_guardrail = λ cl id n. (ok tt, n + 100);
}

reconcile-guardrail_client_example :
    (cl : SdkClient) × (guardrail_client env cfg ≡ ok cl)
    × (cl.config.region ≡ (if env.aws_region == [] then lit "us-east-1" else env.aws_region))
    × (cl.config.credentials ≡ (
        if env.operator_role_arn == []
        then cfg.credentials
        else assumed env.operator_role_arn (lit "k8s-ai-operator")))
    × ((reconcile
          (operator_policies policy_store.policies finalizers sdk cl)
          500
          key
          world).1.bedrock
        ≡ (if not (finalizers.contains policy.meta.finalizers finalizer_name) then 0 else 1))
unfolding text_eq
reconcile-guardrail_client_example =
    reconcile-guardrail_client env cfg sdk policy_store.policies finalizers 500 key policy world
      refl
