-- ===== src/Api/Guardrail.antt =====
-- api/v1alpha1/guardrailpolicy_types.go
use k8s_ai_operator.Base.{Text, ℤ, Option, List}
use k8s_ai_operator.Api.Meta.{ObjectMeta, Condition}

-- `ContentFilterConfig` is embedded: its fields are the filter's.
pub record ContentFilterConfig : Type 0 where
  pub input_strength : Text
  pub output_strength : Text

pub record ContentFilter : Type 0 where
  pub kind : Text
  pub config : ContentFilterConfig
  pub open config use *

pub record ContentPolicyConfig : Type 0 where
  pub filters : List ContentFilter

pub record PiiEntityConfig : Type 0 where
  pub kind : Text
  pub action : Text

pub record SensitiveInformationPolicyConfig : Type 0 where
  pub pii_entities : List PiiEntityConfig

pub record DeniedTopic : Type 0 where
  pub name : Text
  pub definition : Text
  pub examples : List Text

pub record TopicPolicyConfig : Type 0 where
  pub topics : List DeniedTopic

pub record WordPolicyConfig : Type 0 where
  pub words : List Text
  pub managed_word_lists : List Text

pub record GuardrailPolicySpec : Type 0 where
  pub description : Text
  pub blocked_input_message : Text
  pub blocked_outputs_message : Text
  pub content_policy : Option ContentPolicyConfig
  pub sensitive_information_policy : Option SensitiveInformationPolicyConfig
  pub topic_policy : Option TopicPolicyConfig
  pub word_policy : Option WordPolicyConfig

pub record GuardrailPolicyStatus : Type 0 where
  pub guardrail_id : Text
  pub guardrail_version : Text
  pub conditions : List Condition
  pub observed_generation : ℤ

pub record GuardrailPolicy : Type 0 where
  pub meta : ObjectMeta
  pub spec : GuardrailPolicySpec
  pub status : GuardrailPolicyStatus
