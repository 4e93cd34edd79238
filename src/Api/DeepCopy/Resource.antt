-- ===== src/Api/DeepCopy/Resource.antt =====
-- DeepCopy and DeepCopyObject of the six types that have them.
pub mod Laws
use k8s_ai_operator.Base.{ℕ, Option, List}
use k8s_ai_operator.Api.Meta.{ObjectMeta}
use k8s_ai_operator.Api.Endpoint.{ModelEndpoint}
use k8s_ai_operator.Api.Template.{PromptTemplate}
use k8s_ai_operator.Api.Guardrail.{GuardrailPolicy}
use k8s_ai_operator.Api.Memory.{Copier, pointer}
use k8s_ai_operator.Api.DeepCopy.Structs.{Cell}
use k8s_ai_operator.Api.DeepCopy.Stored.{
  endpoint_stored, endpoint_list_stored, template_stored, template_list_stored, policy_stored,
  policy_list_stored,
}
use k8s_ai_operator.Api.DeepCopy.Endpoint.{model_endpoint, model_endpoint_list}
use k8s_ai_operator.Api.DeepCopy.Template.{prompt_template, prompt_template_list}
use k8s_ai_operator.Api.DeepCopy.Policy.{guardrail_policy, guardrail_policy_list}

pub data Resource : Type 0 where
  endpoint endpoint_list template template_list policy policy_list : Resource

abbrev pub Value : Resource → Type 0
Value endpoint = ModelEndpoint
Value endpoint_list = List ModelEndpoint
Value template = PromptTemplate
Value template_list = List PromptTemplate
Value policy = GuardrailPolicy
Value policy_list = List GuardrailPolicy

-- What a pointer to a resource reads, and its copy, nil for nil. DeepCopyObject gives the same pointer
-- as a runtime.Object, nil for nil again.
module _ {Meta : Type 0} (meta : Copier (Cell Meta) Meta ObjectMeta) where
  abbrev pub model_endpoint_pointer : Copier (Cell Meta) (Option ℕ) (Option ModelEndpoint)
  model_endpoint_pointer = pointer endpoint_stored (model_endpoint meta)

  abbrev pub model_endpoint_list_pointer :
      Copier (Cell Meta) (Option ℕ) (Option (List ModelEndpoint))
  model_endpoint_list_pointer = pointer endpoint_list_stored (model_endpoint_list meta)

  abbrev pub prompt_template_pointer : Copier (Cell Meta) (Option ℕ) (Option PromptTemplate)
  prompt_template_pointer = pointer template_stored (prompt_template meta)

  abbrev pub prompt_template_list_pointer :
      Copier (Cell Meta) (Option ℕ) (Option (List PromptTemplate))
  prompt_template_list_pointer = pointer template_list_stored (prompt_template_list meta)

  abbrev pub guardrail_policy_pointer : Copier (Cell Meta) (Option ℕ) (Option GuardrailPolicy)
  guardrail_policy_pointer = pointer policy_stored (guardrail_policy meta)

  abbrev pub guardrail_policy_list_pointer :
      Copier (Cell Meta) (Option ℕ) (Option (List GuardrailPolicy))
  guardrail_policy_list_pointer = pointer policy_list_stored (guardrail_policy_list meta)

  abbrev pub deep_copy : (kind : Resource) → Copier (Cell Meta) (Option ℕ) (Option (Value kind))
  deep_copy endpoint = model_endpoint_pointer
  deep_copy endpoint_list = model_endpoint_list_pointer
  deep_copy template = prompt_template_pointer
  deep_copy template_list = prompt_template_list_pointer
  deep_copy policy = guardrail_policy_pointer
  deep_copy policy_list = guardrail_policy_list_pointer
