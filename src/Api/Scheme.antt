-- ===== src/Api/Scheme.antt =====
-- api/v1alpha1/groupversion_info.go, and the `init` of the three files of types: the group and version
-- of the custom resources, and the kinds that AddToScheme makes known. scheme.Builder of
-- controller-runtime is a parameter.
use k8s_ai_operator.Base.{Text, lit, List, [], ◌∷◌}
use k8s_ai_operator.Base.Exec.{Exec}

pub record GroupVersion : Type 0 where
  pub group : Text
  pub version : Text

pub record ObjectKind : Type 0 where
  pub group_version : GroupVersion
  pub kind : Text

unfoldable pub group_version : GroupVersion
group_version = record { group = lit "ai.kernelpanic09.io"; version = lit "v1alpha1" }

-- `scheme.Builder{GroupVersion: …}`, Register and AddToScheme, on schemes `S`.
pub record Builders (S B : Type 0) : Type 0 where
  pub new_builder : GroupVersion → B
  pub register : List Text → B → B
  pub add_to_scheme : B → Exec S (Unit {0})

module _ {S B : Type 0} (b : Builders S B) where
  unfoldable pub register_guardrail_policy : B → B
  register_guardrail_policy = b.register (lit "GuardrailPolicy" ∷ lit "GuardrailPolicyList" ∷ [])

  unfoldable pub register_model_endpoint : B → B
  register_model_endpoint = b.register (lit "ModelEndpoint" ∷ lit "ModelEndpointList" ∷ [])

  unfoldable pub register_prompt_template : B → B
  register_prompt_template = b.register (lit "PromptTemplate" ∷ lit "PromptTemplateList" ∷ [])

  -- Go runs the `init` functions of a package in the order of its files.
  unfoldable pub scheme_builder : B
  unfolding register_guardrail_policy register_model_endpoint register_prompt_template
  scheme_builder =
      register_prompt_template
        (register_model_endpoint (register_guardrail_policy (b.new_builder group_version)))

  unfoldable pub add_to_scheme : Exec S (Unit {0})
  unfolding scheme_builder
  add_to_scheme = b.add_to_scheme scheme_builder
