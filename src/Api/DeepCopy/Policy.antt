-- ===== src/Api/DeepCopy/Policy.antt =====
-- DeepCopyInto of GuardrailPolicySpec with its four policies, GuardrailPolicyStatus, GuardrailPolicy and
-- GuardrailPolicyList.
use k8s_ai_operator.Base.{List}
use k8s_ai_operator.Api.Meta.{ObjectMeta}
use k8s_ai_operator.Api.Guardrail.{
  ContentPolicyConfig, SensitiveInformationPolicyConfig, DeniedTopic, TopicPolicyConfig,
  WordPolicyConfig, GuardrailPolicySpec, GuardrailPolicyStatus, GuardrailPolicy,
}
use k8s_ai_operator.Api.Memory.{Copier, plain, both, three, four, elements, pointer, struct}
use k8s_ai_operator.Api.DeepCopy.Structs.{
  ContentPolicyStruct, SensitiveInformationPolicyStruct, DeniedTopicStruct, TopicPolicyStruct,
  WordPolicyStruct, GuardrailPolicySpecStruct, GuardrailPolicyStatusStruct, GuardrailPolicyStruct,
  GuardrailPolicyListStruct, Cell,
}
use k8s_ai_operator.Api.DeepCopy.Stored.{
  texts_stored, filters_stored, entities_stored, topics_stored, content_stored, sensitive_stored,
  topic_stored, word_stored, policies_stored,
}
use k8s_ai_operator.Api.DeepCopy.Endpoint.{ranged, conditions_copier}

module _ {Meta : Type 0} where
  abbrev pub content_policy_config : Copier (Cell Meta) ContentPolicyStruct ContentPolicyConfig
  content_policy_config =
      struct (λ s. s.filters) (λ s p. record { filters = p }) (λ s a. record { filters = ranged a })
        (pointer filters_stored (elements plain))

  abbrev pub sensitive_information_policy_config :
      Copier (Cell Meta) SensitiveInformationPolicyStruct SensitiveInformationPolicyConfig
  sensitive_information_policy_config =
      struct (λ s. s.pii_entities) (λ s p. record { pii_entities = p })
        (λ s a. record { pii_entities = ranged a }) (pointer entities_stored (elements plain))

  abbrev pub denied_topic : Copier (Cell Meta) DeniedTopicStruct DeniedTopic
  denied_topic =
      struct (λ s. s.examples) (λ s p. record s { examples = p })
        (λ s a. record { name = s.name; definition = s.definition; examples = ranged a })
        (pointer texts_stored (elements plain))

  abbrev pub topic_policy_config : Copier (Cell Meta) TopicPolicyStruct TopicPolicyConfig
  topic_policy_config =
      struct (λ s. s.topics) (λ s p. record { topics = p }) (λ s a. record { topics = ranged a })
        (pointer topics_stored (elements denied_topic))

  abbrev pub word_policy_config : Copier (Cell Meta) WordPolicyStruct WordPolicyConfig
  word_policy_config =
      struct (λ s. (s.words, s.managed_word_lists))
        (λ s p. record { words = p.0; managed_word_lists = p.1 })
        (λ s a. record { words = ranged a.0; managed_word_lists = ranged a.1 })
        (both (pointer texts_stored (elements plain)) (pointer texts_stored (elements plain)))

  abbrev pub guardrail_policy_spec :
      Copier (Cell Meta) GuardrailPolicySpecStruct GuardrailPolicySpec
  guardrail_policy_spec =
      struct
        (λ s. (s.content_policy, s.sensitive_information_policy, s.topic_policy, s.word_policy))
        (λ s p. record s {
          content_policy = p.0;
          sensitive_information_policy = p.1;
          topic_policy = p.2;
          word_policy = p.3;
        })
        (λ s a. record {
          description = s.description;
          blocked_input_message = s.blocked_input_message;
          blocked_outputs_message = s.blocked_outputs_message;
          content_policy = a.0;
          sensitive_information_policy = a.1;
          topic_policy = a.2;
          word_policy = a.3;
        })
        (four (pointer content_stored content_policy_config)
          (pointer sensitive_stored sensitive_information_policy_config)
          (pointer topic_stored topic_policy_config) (pointer word_stored word_policy_config))

  abbrev pub guardrail_policy_status :
      Copier (Cell Meta) GuardrailPolicyStatusStruct GuardrailPolicyStatus
  guardrail_policy_status =
      struct (λ s. s.conditions) (λ s p. record s { conditions = p })
        (λ s a. record {
          guardrail_id = s.guardrail_id;
          guardrail_version = s.guardrail_version;
          conditions = ranged a;
          observed_generation = s.observed_generation;
        })
        conditions_copier

  abbrev pub guardrail_policy :
      Copier (Cell Meta) Meta ObjectMeta
      → Copier (Cell Meta) (GuardrailPolicyStruct Meta) GuardrailPolicy
  guardrail_policy meta =
      struct (λ s. (s.meta, s.spec, s.status))
        (λ s p. record { meta = p.0; spec = p.1; status = p.2 })
        (λ s a. record { meta = a.0; spec = a.1; status = a.2 })
        (three meta guardrail_policy_spec guardrail_policy_status)

  abbrev pub guardrail_policy_list :
      Copier (Cell Meta) Meta ObjectMeta
      → Copier (Cell Meta) GuardrailPolicyListStruct (List GuardrailPolicy)
  guardrail_policy_list meta =
      struct (λ s. s.items) (λ s p. record { items = p }) (λ s a. ranged a)
        (pointer policies_stored (elements (guardrail_policy meta)))
