-- ===== src/System/Policies.antt =====
-- The GuardrailPolicy controller that main registers, with the guardrail client that main makes.
use k8s_ai_operator.Base.{ℕ, lit, ◌≡◌, not, [], ok, ◌==◌, text_eq, if◌then◌else◌}
use k8s_ai_operator.Api.Meta.{ObjectKey, finalizer_name}
use k8s_ai_operator.Api.Guardrail.{GuardrailPolicy}
use k8s_ai_operator.Bedrock.Client.{Config, SdkClient, assumed}
use k8s_ai_operator.Bedrock.Guardrail.{GuardrailSdk, guardrail_calls}
use k8s_ai_operator.Controller.Cluster.{Kind, found, Finalizers, World}
use k8s_ai_operator.Controller.Guardrail.{Reconciler, reconcile}
use k8s_ai_operator.Controller.Guardrail.Inputs.{create_input}
use k8s_ai_operator.Controller.Guardrail.Laws.{is_deleted, for_guardrail, reconcile-bedrock}
use k8s_ai_operator.Manager.{Environment}
use k8s_ai_operator.Manager.Laws.{guardrail_client, guardrail_client_total}

-- The reconciler as main builds it, around its guardrail client.
abbrev pub operator_policies :
    {S B : Type 0}
    → Kind S GuardrailPolicy
    → Finalizers
    → GuardrailSdk B
    → SdkClient
    → Reconciler S B
operator_policies policies finalizers sdk client = record {
  policies = policies;
  finalizers = finalizers;
  bedrock = guardrail_calls sdk client;
}

-- main always has a guardrail client, with the region AWS_REGION, or us-east-1 if that is empty, and the
-- role OPERATOR_ROLE_ARN, assumed under the operator's session name, or the ambient credentials if
-- that is empty. Every call that a reconcile of a policy makes goes out through it, whatever the
-- policy says: one creation, update or deletion of the policy's guardrail, or none.
pub reconcile-guardrail_client :
    {S B Float : Type 0} (env : Environment) (cfg : Config) (sdk : GuardrailSdk B)
    (policies : Kind S GuardrailPolicy) (finalizers : Finalizers) (now : ℕ) (key : ObjectKey)
    (gp : GuardrailPolicy) (w : World S B Float)
    → policies.get key w.cluster ≡ found gp
    → (cl : SdkClient) × (guardrail_client env cfg ≡ ok cl)
      × (cl.config.region ≡ (if env.aws_region == [] then lit "us-east-1" else env.aws_region))
      × (cl.config.credentials ≡ (
          if env.operator_role_arn == []
          then cfg.credentials
          else assumed env.operator_role_arn (lit "k8s-ai-operator")))
      × ((reconcile (operator_policies policies finalizers sdk cl) now key w).1.bedrock ≡ (
          if not (finalizers.contains gp.meta.finalizers finalizer_name)
          then w.bedrock
          else if gp.status.guardrail_id == []
          then if is_deleted gp
            then w.bedrock
            else (sdk.create_guardrail cl (create_input gp) w.bedrock).1
          else if is_deleted gp
          then (sdk.delete_guardrail cl gp.status.guardrail_id w.bedrock).1
          else (sdk.update_guardrail cl
              (for_guardrail gp.status.guardrail_id (create_input gp))
              w.bedrock).1))
unfolding guardrail_calls
reconcile-guardrail_client env cfg sdk policies finalizers now key gp w here =
    let (cl, made, region, credentials) = guardrail_client_total env cfg in
    (
      cl,
      made,
      region,
      credentials,
      reconcile-bedrock (operator_policies policies finalizers sdk cl) now key gp w here,
    )
