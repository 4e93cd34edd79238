-- ===== src/Api/DeepCopy/Structs.antt =====
-- The structs of api/v1alpha1 as they lie in memory: a pointer or a slice is a field of its own, and the
-- cells are what `new` and `make` allocate. ObjectMeta, of apimachinery, is a parameter; the type and the
-- list metadata are left out.
use k8s_ai_operator.Base.{ℕ, Text, ℤ, Option, List, Bool}
use k8s_ai_operator.Api.Meta.{Condition, BudgetSpec, RateLimitSpec, ModelEndpointRef}
use k8s_ai_operator.Api.Template.{TemplateVariable}
use k8s_ai_operator.Api.Guardrail.{ContentFilter, PiiEntityConfig}

pub record ModelEndpointSpecStruct : Type 0 where
  pub model_id : Text
  pub region : Text
  pub irsa_role_arn : Text
  pub max_tokens : Option ℕ
  pub cost_budget : Option ℕ
  pub rate_limit : Option ℕ
  pub guardrail_policy_ref : Option ℕ

pub record ModelEndpointStatusStruct : Type 0 where
  pub available : Bool
  pub conditions : Option ℕ
  pub cost_this_month : Text
  pub cost_today : Text
  pub invocations_today : ℤ
  pub total_input_tokens : ℤ
  pub total_output_tokens : ℤ
  pub service_name : Text
  pub observed_generation : ℤ

pub record ModelEndpointStruct (Meta : Type 0) : Type 0 where
  pub meta : Meta
  pub spec : ModelEndpointSpecStruct
  pub status : ModelEndpointStatusStruct

pub record ModelEndpointListStruct : Type 0 where
  pub items : Option ℕ

pub record PromptTemplateSpecStruct : Type 0 where
  pub template : Text
  pub variables : Option ℕ
  pub model_endpoint_ref : ModelEndpointRef
  pub system_prompt : Text
  pub max_tokens : Option ℕ

pub record PromptTemplateStatusStruct : Type 0 where
  pub conditions : Option ℕ
  pub render_count : ℤ
  pub observed_generation : ℤ

pub record PromptTemplateStruct (Meta : Type 0) : Type 0 where
  pub meta : Meta
  pub spec : PromptTemplateSpecStruct
  pub status : PromptTemplateStatusStruct

pub record PromptTemplateListStruct : Type 0 where
  pub items : Option ℕ

pub record ContentPolicyStruct : Type 0 where
  pub filters : Option ℕ

pub record SensitiveInformationPolicyStruct : Type 0 where
  pub pii_entities : Option ℕ

pub record DeniedTopicStruct : Type 0 where
  pub name : Text
  pub definition : Text
  pub examples : Option ℕ

pub record TopicPolicyStruct : Type 0 where
  pub topics : Option ℕ

pub record WordPolicyStruct : Type 0 where
  pub words : Option ℕ
  pub managed_word_lists : Option ℕ

pub record GuardrailPolicySpecStruct : Type 0 where
  pub description : Text
  pub blocked_input_message : Text
  pub blocked_outputs_message : Text
  pub content_policy : Option ℕ
  pub sensitive_information_policy : Option ℕ
  pub topic_policy : Option ℕ
  pub word_policy : Option ℕ

pub record GuardrailPolicyStatusStruct : Type 0 where
  pub guardrail_id : Text
  pub guardrail_version : Text
  pub conditions : Option ℕ
  pub observed_generation : ℤ

pub record GuardrailPolicyStruct (Meta : Type 0) : Type 0 where
  pub meta : Meta
  pub spec : GuardrailPolicySpecStruct
  pub status : GuardrailPolicyStatusStruct

pub record GuardrailPolicyListStruct : Type 0 where
  pub items : Option ℕ

pub data Cell (Meta : Type 0) : Type 0 where
  int_cell : ℤ → Cell Meta
  text_cell : Text → Cell Meta
  texts_cell : List Text → Cell Meta
  budget_cell : BudgetSpec → Cell Meta
  rate_cell : RateLimitSpec → Cell Meta
  conditions_cell : List Condition → Cell Meta
  variables_cell : List TemplateVariable → Cell Meta
  filters_cell : List ContentFilter → Cell Meta
  entities_cell : List PiiEntityConfig → Cell Meta
  topics_cell : List DeniedTopicStruct → Cell Meta
  content_cell : ContentPolicyStruct → Cell Meta
  sensitive_cell : SensitiveInformationPolicyStruct → Cell Meta
  topic_cell : TopicPolicyStruct → Cell Meta
  word_cell : WordPolicyStruct → Cell Meta
  endpoint_cell : ModelEndpointStruct Meta → Cell Meta
  endpoints_cell : List (ModelEndpointStruct Meta) → Cell Meta
  endpoint_list_cell : ModelEndpointListStruct → Cell Meta
  template_cell : PromptTemplateStruct Meta → Cell Meta
  templates_cell : List (PromptTemplateStruct Meta) → Cell Meta
  template_list_cell : PromptTemplateListStruct → Cell Meta
  policy_cell : GuardrailPolicyStruct Meta → Cell Meta
  policies_cell : List (GuardrailPolicyStruct Meta) → Cell Meta
  policy_list_cell : GuardrailPolicyListStruct → Cell Meta
