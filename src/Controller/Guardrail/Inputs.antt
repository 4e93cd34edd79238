-- ===== src/Controller/Guardrail/Inputs.antt =====
-- The inputs that internal/controller/guardrailpolicy_controller.go builds for Bedrock. The SDK's enums
-- are texts, as the conversions of the source make them; a nil pointer is `none`.
pub mod Laws
use k8s_ai_operator.Base.{
  Text, lit, Option, none, some, List, [], map, ◌==◌, text_eq, if◌then◌else◌,
}
use k8s_ai_operator.Api.Guardrail.{
  ContentPolicyConfig, SensitiveInformationPolicyConfig, TopicPolicyConfig, WordPolicyConfig,
  GuardrailPolicy,
}

pub record GuardrailContentFilterConfig : Type 0 where
  pub kind : Text
  pub input_strength : Text
  pub output_strength : Text

pub record GuardrailTopicConfig : Type 0 where
  pub name : Text
  pub definition : Text
  pub kind : Text
  pub examples : List Text

pub record GuardrailWordPolicyConfig : Type 0 where
  pub words_config : List Text
  pub managed_word_lists_config : List Text

pub record GuardrailPiiEntityConfig : Type 0 where
  pub kind : Text
  pub action : Text

pub record CreateGuardrailInput : Type 0 where
  pub name : Text
  pub description : Text
  pub blocked_input_messaging : Option Text
  pub blocked_outputs_messaging : Option Text
  pub content_policy_config : Option (List GuardrailContentFilterConfig)
  pub topic_policy_config : Option (List GuardrailTopicConfig)
  pub word_policy_config : Option GuardrailWordPolicyConfig
  pub sensitive_information_policy_config : Option (List GuardrailPiiEntityConfig)

pub record UpdateGuardrailInput : Type 0 where
  pub guardrail_identifier : Text
  pub name : Text
  pub description : Text
  pub blocked_input_messaging : Option Text
  pub blocked_outputs_messaging : Option Text
  pub content_policy_config : Option (List GuardrailContentFilterConfig)
  pub topic_policy_config : Option (List GuardrailTopicConfig)
  pub word_policy_config : Option GuardrailWordPolicyConfig
  pub sensitive_information_policy_config : Option (List GuardrailPiiEntityConfig)

-- The loops append one entry for each of the spec's.
unfoldable pub build_content_policy : ContentPolicyConfig → List GuardrailContentFilterConfig
build_content_policy spec =
    map
      (λ f. record {
        kind = f.kind;
        input_strength = f.config.input_strength;
        output_strength = f.config.output_strength;
      })
      spec.filters

unfoldable pub build_topic_policy : TopicPolicyConfig → List GuardrailTopicConfig
build_topic_policy spec =
    map
      (λ t. record {
        name = t.name;
        definition = t.definition;
        kind = lit "DENY";
        examples = t.examples;
      })
      spec.topics

unfoldable pub build_word_policy : WordPolicyConfig → GuardrailWordPolicyConfig
build_word_policy spec = record {
  words_config = spec.words;
  managed_word_lists_config = spec.managed_word_lists;
}

unfoldable pub build_pii_policy : SensitiveInformationPolicyConfig → List GuardrailPiiEntityConfig
build_pii_policy spec = map (λ p. record { kind = p.kind; action = p.action }) spec.pii_entities

-- `if msg != "" { input.Field = aws.String(msg) }`
unfoldable pub unless_empty : Text → Option Text
unless_empty msg = if msg == [] then none else some msg

abbrev pub when_set : {A B : Type 0} → (A → B) → Option A → Option B
when_set f none = none
when_set f (some a) = some (f a)

unfoldable pub create_input : GuardrailPolicy → CreateGuardrailInput
create_input gp = record {
  name = gp.meta.name;
  description = gp.spec.description;
  blocked_input_messaging = unless_empty gp.spec.blocked_input_message;
  blocked_outputs_messaging = unless_empty gp.spec.blocked_outputs_message;
  content_policy_config = when_set build_content_policy gp.spec.content_policy;
  topic_policy_config = when_set build_topic_policy gp.spec.topic_policy;
  word_policy_config = when_set build_word_policy gp.spec.word_policy;
  sensitive_information_policy_config =
      when_set build_pii_policy gp.spec.sensitive_information_policy;
}

unfoldable pub update_input : GuardrailPolicy → UpdateGuardrailInput
update_input gp = record {
  guardrail_identifier = gp.status.guardrail_id;
  name = gp.meta.name;
  description = gp.spec.description;
  blocked_input_messaging = unless_empty gp.spec.blocked_input_message;
  blocked_outputs_messaging = unless_empty gp.spec.blocked_outputs_message;
  content_policy_config = when_set build_content_policy gp.spec.content_policy;
  topic_policy_config = when_set build_topic_policy gp.spec.topic_policy;
  word_policy_config = when_set build_word_policy gp.spec.word_policy;
  sensitive_information_policy_config =
      when_set build_pii_policy gp.spec.sensitive_information_policy;
}
