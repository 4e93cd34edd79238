-- ===== src/Bedrock/Guardrail.antt =====
-- internal/bedrock/guardrail.go: what the GuardrailClient passes on to the control-plane client that it
-- holds, and DefaultBlockedInput. The calls of the SDK's client are parameters.
use k8s_ai_operator.Base.{
  Text, lit, ◌≡◌, ◌≢◌, Option, none, some, [], ◌==◌, text_eq, if◌then◌else◌, arith,
}
use k8s_ai_operator.Base.Exec.{Exec}
use k8s_ai_operator.Api.Guardrail.{GuardrailPolicy}
use k8s_ai_operator.Bedrock.Client.{SdkClient}
use k8s_ai_operator.Controller.Guardrail.{GuardrailCreator}
use k8s_ai_operator.Controller.Guardrail.Inputs.{
  CreateGuardrailInput, UpdateGuardrailInput, create_input, unless_empty,
}

-- CreateGuardrail, UpdateGuardrail and DeleteGuardrail of the SDK's client.
pub record GuardrailSdk (B : Type 0) : Type 0 where
  pub create_guardrail : SdkClient → CreateGuardrailInput → Exec B (Option Text × Option Text)
  pub update_guardrail : SdkClient → UpdateGuardrailInput → Exec B (Option Text)
  pub delete_guardrail : SdkClient → Text → Exec B (Unit {0})

-- The GuardrailClient as the reconciler's GuardrailCreator.
unfoldable pub guardrail_calls : {B : Type 0} → GuardrailSdk B → SdkClient → GuardrailCreator B
guardrail_calls sdk inner = record {
  create_guardrail = sdk.create_guardrail inner;
  update_guardrail = sdk.update_guardrail inner;
  delete_guardrail = sdk.delete_guardrail inner;
}

unfoldable pub default_guardrail_blocked_message : Text
default_guardrail_blocked_message = lit "Your request was blocked by the content policy."

unfoldable pub default_blocked_input : Text → Option Text
default_blocked_input msg = if msg == [] then some default_guardrail_blocked_message else some msg

-- The message of a call is that of DefaultBlockedInput only if the spec has one: else the call has none.
blocked_input_messaging-create_input :
    (gp : GuardrailPolicy)
    → (gp.spec.blocked_input_message ≢ []
        → (create_input gp).blocked_input_messaging
          ≡ default_blocked_input gp.spec.blocked_input_message)
      × (gp.spec.blocked_input_message ≡ [] → (create_input gp).blocked_input_messaging ≡ none)
unfolding create_input unless_empty default_blocked_input
blocked_input_messaging-create_input gp = ground arith
