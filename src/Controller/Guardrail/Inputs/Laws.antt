-- ===== src/Controller/Guardrail/Inputs/Laws.antt =====
-- The inputs of the SDK calls lose nothing of a policy's spec.
use k8s_ai_operator.Base.{
  Text, ◌≡◌, refl, Option, none, some, List, [], ◌∷◌, map, arith, ap, ap₂, text_eq,
}
use k8s_ai_operator.Api.Guardrail.{
  ContentFilter, ContentPolicyConfig, PiiEntityConfig, SensitiveInformationPolicyConfig,
  DeniedTopic, TopicPolicyConfig, WordPolicyConfig, GuardrailPolicySpec, GuardrailPolicy,
}
use k8s_ai_operator.Controller.Guardrail.Inputs.{
  GuardrailContentFilterConfig, GuardrailTopicConfig, GuardrailWordPolicyConfig,
  GuardrailPiiEntityConfig, CreateGuardrailInput, UpdateGuardrailInput, build_content_policy,
  build_topic_policy, build_word_policy, build_pii_policy, unless_empty, when_set, create_input,
  update_input,
}

-- The rules of a call, as a spec has them.
abbrev filter_of : GuardrailContentFilterConfig → ContentFilter
filter_of f = record {
  kind = f.kind;
  config = record { input_strength = f.input_strength; output_strength = f.output_strength };
}

abbrev topic_of : GuardrailTopicConfig → DeniedTopic
topic_of t = record { name = t.name; definition = t.definition; examples = t.examples }

abbrev entity_of : GuardrailPiiEntityConfig → PiiEntityConfig
entity_of p = record { kind = p.kind; action = p.action }

abbrev text_of : Option Text → Text
text_of none = []
text_of (some t) = t

abbrev content_of : Option (List GuardrailContentFilterConfig) → Option ContentPolicyConfig
content_of none = none
content_of (some l) = some (record { filters = map filter_of l })

abbrev topics_of : Option (List GuardrailTopicConfig) → Option TopicPolicyConfig
topics_of none = none
topics_of (some l) = some (record { topics = map topic_of l })

abbrev words_of : Option GuardrailWordPolicyConfig → Option WordPolicyConfig
words_of none = none
words_of (some w) =
    some (record { words = w.words_config; managed_word_lists = w.managed_word_lists_config })

abbrev entities_of :
    Option (List GuardrailPiiEntityConfig) → Option SensitiveInformationPolicyConfig
entities_of none = none
entities_of (some l) = some (record { pii_entities = map entity_of l })

-- The spec that a call of CreateGuardrail tells of.
abbrev pub created_spec : CreateGuardrailInput → GuardrailPolicySpec
created_spec i = record {
  description = i.description;
  blocked_input_message = text_of i.blocked_input_messaging;
  blocked_outputs_message = text_of i.blocked_outputs_messaging;
  content_policy = content_of i.content_policy_config;
  sensitive_information_policy = entities_of i.sensitive_information_policy_config;
  topic_policy = topics_of i.topic_policy_config;
  word_policy = words_of i.word_policy_config;
}

-- The same for UpdateGuardrail.
abbrev pub updated_spec : UpdateGuardrailInput → GuardrailPolicySpec
updated_spec i = record {
  description = i.description;
  blocked_input_message = text_of i.blocked_input_messaging;
  blocked_outputs_message = text_of i.blocked_outputs_messaging;
  content_policy = content_of i.content_policy_config;
  sensitive_information_policy = entities_of i.sensitive_information_policy_config;
  topic_policy = topics_of i.topic_policy_config;
  word_policy = words_of i.word_policy_config;
}

map-map_id :
    {A B : Type 0} (f : A → B) (g : B → A)
    → ((a : A) → g (f a) ≡ a)
    → (l : List A) → map g (map f l) ≡ l
map-map_id f g back [] = refl
map-map_id f g back (a ∷ l) = ap₂ (λ x xs. x ∷ xs) (back a) (map-map_id f g back l)

text_of-unless_empty : (t : Text) → text_of (unless_empty t) ≡ t
unfolding unless_empty
text_of-unless_empty t = ground arith

content_of-when_set :
    (p : Option ContentPolicyConfig) → content_of (when_set build_content_policy p) ≡ p
unfolding build_content_policy
content_of-when_set none = refl
content_of-when_set (some p) =
    ap (λ l. some (record { filters = l })) (map-map_id _ filter_of (λ f. refl) p.filters)

topics_of-when_set : (p : Option TopicPolicyConfig) → topics_of (when_set build_topic_policy p) ≡ p
unfolding build_topic_policy
topics_of-when_set none = refl
topics_of-when_set (some p) =
    ap (λ l. some (record { topics = l })) (map-map_id _ topic_of (λ t. refl) p.topics)

entities_of-when_set :
    (p : Option SensitiveInformationPolicyConfig) → entities_of (when_set build_pii_policy p) ≡ p
unfolding build_pii_policy
entities_of-when_set none = refl
entities_of-when_set (some p) =
    ap (λ l. some (record { pii_entities = l })) (map-map_id _ entity_of (λ e. refl) p.pii_entities)

words_of-when_set : (p : Option WordPolicyConfig) → words_of (when_set build_word_policy p) ≡ p
unfolding build_word_policy
words_of-when_set none = refl
words_of-when_set (some p) = refl

-- Nothing of a spec is lost on the way to Bedrock: every rule, message and text of it can be read back
-- from the input of CreateGuardrail, and as well from that of UpdateGuardrail, which names the
-- guardrail by the id in the status. Both carry the policy's name.
pub created_spec-create_input :
    (gp : GuardrailPolicy)
    → (created_spec (create_input gp) ≡ gp.spec)
      × (updated_spec (update_input gp) ≡ gp.spec)
      × ((create_input gp).name ≡ gp.meta.name)
      × ((update_input gp).name ≡ gp.meta.name)
      × ((update_input gp).guardrail_identifier ≡ gp.status.guardrail_id)
unfolding create_input update_input
created_spec-create_input gp =
    let all : created_spec (create_input gp) ≡ gp.spec = rw (
      text_of-unless_empty gp.spec.blocked_input_message,
      text_of-unless_empty gp.spec.blocked_outputs_message,
      content_of-when_set gp.spec.content_policy,
      entities_of-when_set gp.spec.sensitive_information_policy,
      topics_of-when_set gp.spec.topic_policy,
      words_of-when_set gp.spec.word_policy,
    ) in
    (all, all, refl, refl, refl)
