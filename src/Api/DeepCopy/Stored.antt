-- ===== src/Api/DeepCopy/Stored.antt =====
-- Which cell holds a value of which type.
use k8s_ai_operator.Base.{Text, ℤ, Option, none, some, List, refl}
use k8s_ai_operator.Api.Meta.{Condition, BudgetSpec, RateLimitSpec}
use k8s_ai_operator.Api.Template.{TemplateVariable}
use k8s_ai_operator.Api.Guardrail.{ContentFilter, PiiEntityConfig}
use k8s_ai_operator.Api.Memory.{Stored}
use k8s_ai_operator.Api.DeepCopy.Structs.{
  ContentPolicyStruct, DeniedTopicStruct, GuardrailPolicyListStruct, GuardrailPolicyStruct,
  ModelEndpointListStruct, ModelEndpointStruct, PromptTemplateListStruct, PromptTemplateStruct,
  SensitiveInformationPolicyStruct, TopicPolicyStruct, WordPolicyStruct, Cell, int_cell, text_cell,
  texts_cell, budget_cell, rate_cell, conditions_cell, variables_cell, filters_cell, entities_cell,
  topics_cell, content_cell, sensitive_cell, topic_cell, word_cell, endpoint_cell, endpoints_cell,
  endpoint_list_cell, template_cell, templates_cell, template_list_cell, policy_cell, policies_cell,
  policy_list_cell,
}

module _ {Meta : Type 0} where
  abbrev int_of : Cell Meta → Option (ℤ)
  int_of (int_cell x) = some x
  int_of c = none

  abbrev pub int_stored : Stored (Cell Meta) (ℤ)
  int_stored = record { cell = λ x. int_cell x; content = int_of; content_cell = λ x. refl }

  abbrev text_of : Cell Meta → Option (Text)
  text_of (text_cell x) = some x
  text_of c = none

  abbrev pub text_stored : Stored (Cell Meta) (Text)
  text_stored = record { cell = λ x. text_cell x; content = text_of; content_cell = λ x. refl }

  abbrev texts_of : Cell Meta → Option (List Text)
  texts_of (texts_cell x) = some x
  texts_of c = none

  abbrev pub texts_stored : Stored (Cell Meta) (List Text)
  texts_stored = record { cell = λ x. texts_cell x; content = texts_of; content_cell = λ x. refl }

  abbrev budget_of : Cell Meta → Option (BudgetSpec)
  budget_of (budget_cell x) = some x
  budget_of c = none

  abbrev pub budget_stored : Stored (Cell Meta) (BudgetSpec)
  budget_stored = record {
    cell = λ x. budget_cell x;
    content = budget_of;
    content_cell = λ x. refl;
  }

  abbrev rate_of : Cell Meta → Option (RateLimitSpec)
  rate_of (rate_cell x) = some x
  rate_of c = none

  abbrev pub rate_stored : Stored (Cell Meta) (RateLimitSpec)
  rate_stored = record { cell = λ x. rate_cell x; content = rate_of; content_cell = λ x. refl }

  abbrev conditions_of : Cell Meta → Option (List Condition)
  conditions_of (conditions_cell x) = some x
  conditions_of c = none

  abbrev pub conditions_stored : Stored (Cell Meta) (List Condition)
  conditions_stored = record {
    cell = λ x. conditions_cell x;
    content = conditions_of;
    content_cell = λ x. refl;
  }

  abbrev variables_of : Cell Meta → Option (List TemplateVariable)
  variables_of (variables_cell x) = some x
  variables_of c = none

  abbrev pub variables_stored : Stored (Cell Meta) (List TemplateVariable)
  variables_stored = record {
    cell = λ x. variables_cell x;
    content = variables_of;
    content_cell = λ x. refl;
  }

  abbrev filters_of : Cell Meta → Option (List ContentFilter)
  filters_of (filters_cell x) = some x
  filters_of c = none

  abbrev pub filters_stored : Stored (Cell Meta) (List ContentFilter)
  filters_stored = record {
    cell = λ x. filters_cell x;
    content = filters_of;
    content_cell = λ x. refl;
  }

  abbrev entities_of : Cell Meta → Option (List PiiEntityConfig)
  entities_of (entities_cell x) = some x
  entities_of c = none

  abbrev pub entities_stored : Stored (Cell Meta) (List PiiEntityConfig)
  entities_stored = record {
    cell = λ x. entities_cell x;
    content = entities_of;
    content_cell = λ x. refl;
  }

  abbrev topics_of : Cell Meta → Option (List DeniedTopicStruct)
  topics_of (topics_cell x) = some x
  topics_of c = none

  abbrev pub topics_stored : Stored (Cell Meta) (List DeniedTopicStruct)
  topics_stored = record {
    cell = λ x. topics_cell x;
    content = topics_of;
    content_cell = λ x. refl;
  }

  abbrev content_of : Cell Meta → Option (ContentPolicyStruct)
  content_of (content_cell x) = some x
  content_of c = none

  abbrev pub content_stored : Stored (Cell Meta) (ContentPolicyStruct)
  content_stored = record {
    cell = λ x. content_cell x;
    content = content_of;
    content_cell = λ x. refl;
  }

  abbrev sensitive_of : Cell Meta → Option (SensitiveInformationPolicyStruct)
  sensitive_of (sensitive_cell x) = some x
  sensitive_of c = none

  abbrev pub sensitive_stored : Stored (Cell Meta) (SensitiveInformationPolicyStruct)
  sensitive_stored = record {
    cell = λ x. sensitive_cell x;
    content = sensitive_of;
    content_cell = λ x. refl;
  }

  abbrev topic_of : Cell Meta → Option (TopicPolicyStruct)
  topic_of (topic_cell x) = some x
  topic_of c = none

  abbrev pub topic_stored : Stored (Cell Meta) (TopicPolicyStruct)
  topic_stored = record { cell = λ x. topic_cell x; content = topic_of; content_cell = λ x. refl }

  abbrev word_of : Cell Meta → Option (WordPolicyStruct)
  word_of (word_cell x) = some x
  word_of c = none

  abbrev pub word_stored : Stored (Cell Meta) (WordPolicyStruct)
  word_stored = record { cell = λ x. word_cell x; content = word_of; content_cell = λ x. refl }

  abbrev endpoint_of : Cell Meta → Option (ModelEndpointStruct Meta)
  endpoint_of (endpoint_cell x) = some x
  endpoint_of c = none

  abbrev pub endpoint_stored : Stored (Cell Meta) (ModelEndpointStruct Meta)
  endpoint_stored = record {
    cell = λ x. endpoint_cell x;
    content = endpoint_of;
    content_cell = λ x. refl;
  }

  abbrev endpoints_of : Cell Meta → Option (List (ModelEndpointStruct Meta))
  endpoints_of (endpoints_cell x) = some x
  endpoints_of c = none

  abbrev pub endpoints_stored : Stored (Cell Meta) (List (ModelEndpointStruct Meta))
  endpoints_stored = record {
    cell = λ x. endpoints_cell x;
    content = endpoints_of;
    content_cell = λ x. refl;
  }

  abbrev endpoint_list_of : Cell Meta → Option (ModelEndpointListStruct)
  endpoint_list_of (endpoint_list_cell x) = some x
  endpoint_list_of c = none

  abbrev pub endpoint_list_stored : Stored (Cell Meta) (ModelEndpointListStruct)
  endpoint_list_stored = record {
    cell = λ x. endpoint_list_cell x;
    content = endpoint_list_of;
    content_cell = λ x. refl;
  }

  abbrev template_of : Cell Meta → Option (PromptTemplateStruct Meta)
  template_of (template_cell x) = some x
  template_of c = none

  abbrev pub template_stored : Stored (Cell Meta) (PromptTemplateStruct Meta)
  template_stored = record {
    cell = λ x. template_cell x;
    content = template_of;
    content_cell = λ x. refl;
  }

  abbrev templates_of : Cell Meta → Option (List (PromptTemplateStruct Meta))
  templates_of (templates_cell x) = some x
  templates_of c = none

  abbrev pub templates_stored : Stored (Cell Meta) (List (PromptTemplateStruct Meta))
  templates_stored = record {
    cell = λ x. templates_cell x;
    content = templates_of;
    content_cell = λ x. refl;
  }

  abbrev template_list_of : Cell Meta → Option (PromptTemplateListStruct)
  template_list_of (template_list_cell x) = some x
  template_list_of c = none

  abbrev pub template_list_stored : Stored (Cell Meta) (PromptTemplateListStruct)
  template_list_stored = record {
    cell = λ x. template_list_cell x;
    content = template_list_of;
    content_cell = λ x. refl;
  }

  abbrev policy_of : Cell Meta → Option (GuardrailPolicyStruct Meta)
  policy_of (policy_cell x) = some x
  policy_of c = none

  abbrev pub policy_stored : Stored (Cell Meta) (GuardrailPolicyStruct Meta)
  policy_stored = record {
    cell = λ x. policy_cell x;
    content = policy_of;
    content_cell = λ x. refl;
  }

  abbrev policies_of : Cell Meta → Option (List (GuardrailPolicyStruct Meta))
  policies_of (policies_cell x) = some x
  policies_of c = none

  abbrev pub policies_stored : Stored (Cell Meta) (List (GuardrailPolicyStruct Meta))
  policies_stored = record {
    cell = λ x. policies_cell x;
    content = policies_of;
    content_cell = λ x. refl;
  }

  abbrev policy_list_of : Cell Meta → Option (GuardrailPolicyListStruct)
  policy_list_of (policy_list_cell x) = some x
  policy_list_of c = none

  abbrev pub policy_list_stored : Stored (Cell Meta) (GuardrailPolicyListStruct)
  policy_list_stored = record {
    cell = λ x. policy_list_cell x;
    content = policy_list_of;
    content_cell = λ x. refl;
  }
