-- ===== src/Api/DeepCopy/Resource/Laws.antt =====
-- Deep copies share nothing with what they copy.
use k8s_ai_operator.Base.{ℕ, ◌≡◌, refl, Option, some, List}
use k8s_ai_operator.Api.Meta.{ObjectMeta}
use k8s_ai_operator.Api.Memory.{Copier}
use k8s_ai_operator.Api.Memory.Laws.{
  IsDeep, plain-IsDeep, both-IsDeep, elements-IsDeep, pointer-IsDeep, struct-IsDeep, three-IsDeep,
  four-IsDeep,
}
use k8s_ai_operator.Api.Memory.Isolation.{IsIsolated, IsDeep-IsIsolated}
use k8s_ai_operator.Api.DeepCopy.Structs.{Cell}
use k8s_ai_operator.Api.DeepCopy.Stored.{
  budget_stored, conditions_stored, content_stored, endpoint_list_stored, endpoint_stored,
  endpoints_stored, entities_stored, filters_stored, int_stored, policies_stored,
  policy_list_stored, policy_stored, rate_stored, sensitive_stored, template_list_stored,
  template_stored, templates_stored, text_stored, texts_stored, topic_stored, topics_stored,
  variables_stored, word_stored,
}
use k8s_ai_operator.Api.DeepCopy.Endpoint.{
  ranged, conditions_copier, model_endpoint_spec, model_endpoint_status, model_endpoint,
}
use k8s_ai_operator.Api.DeepCopy.Template.{
  prompt_template_spec, prompt_template_status, prompt_template,
}
use k8s_ai_operator.Api.DeepCopy.Policy.{
  content_policy_config, sensitive_information_policy_config, denied_topic, topic_policy_config,
  word_policy_config, guardrail_policy_spec, guardrail_policy_status, guardrail_policy,
}
use k8s_ai_operator.Api.DeepCopy.Resource.{
  Resource, endpoint, endpoint_list, template, template_list, policy, policy_list, Value, deep_copy,
}

pub conditions_copier-IsDeep : {Meta : Type 0} → IsDeep (conditions_copier {Meta = Meta})
conditions_copier-IsDeep = pointer-IsDeep conditions_stored _ (elements-IsDeep _ plain-IsDeep)

pub model_endpoint_spec-IsDeep : {Meta : Type 0} → IsDeep (model_endpoint_spec {Meta = Meta})
model_endpoint_spec-IsDeep =
    struct-IsDeep _ _ _ _ (λ r p. refl) (λ r p a. refl)
      (four-IsDeep _ _ _ _ (pointer-IsDeep int_stored _ plain-IsDeep)
        (pointer-IsDeep budget_stored _ plain-IsDeep) (pointer-IsDeep rate_stored _ plain-IsDeep)
        (pointer-IsDeep text_stored _ plain-IsDeep))

model_endpoint_status-IsDeep : {Meta : Type 0} → IsDeep (model_endpoint_status {Meta = Meta})
model_endpoint_status-IsDeep =
    struct-IsDeep _ _ _ _ (λ r p. refl) (λ r p a. refl) conditions_copier-IsDeep

prompt_template_spec-IsDeep : {Meta : Type 0} → IsDeep (prompt_template_spec {Meta = Meta})
prompt_template_spec-IsDeep =
    struct-IsDeep _ _ _ _ (λ r p. refl) (λ r p a. refl)
      (both-IsDeep _ _ (pointer-IsDeep variables_stored _ (elements-IsDeep _ plain-IsDeep))
        (pointer-IsDeep int_stored _ plain-IsDeep))

prompt_template_status-IsDeep : {Meta : Type 0} → IsDeep (prompt_template_status {Meta = Meta})
prompt_template_status-IsDeep =
    struct-IsDeep _ _ _ _ (λ r p. refl) (λ r p a. refl) conditions_copier-IsDeep

content_policy_config-IsDeep : {Meta : Type 0} → IsDeep (content_policy_config {Meta = Meta})
content_policy_config-IsDeep =
    struct-IsDeep _ _ _ _ (λ r p. refl) (λ r p a. refl)
      (pointer-IsDeep filters_stored _ (elements-IsDeep _ plain-IsDeep))

sensitive_information_policy_config-IsDeep :
    {Meta : Type 0} → IsDeep (sensitive_information_policy_config {Meta = Meta})
sensitive_information_policy_config-IsDeep =
    struct-IsDeep _ _ _ _ (λ r p. refl) (λ r p a. refl)
      (pointer-IsDeep entities_stored _ (elements-IsDeep _ plain-IsDeep))

denied_topic-IsDeep : {Meta : Type 0} → IsDeep (denied_topic {Meta = Meta})
denied_topic-IsDeep =
    struct-IsDeep _ _ _ _ (λ r p. refl) (λ r p a. refl)
      (pointer-IsDeep texts_stored _ (elements-IsDeep _ plain-IsDeep))

topic_policy_config-IsDeep : {Meta : Type 0} → IsDeep (topic_policy_config {Meta = Meta})
topic_policy_config-IsDeep =
    struct-IsDeep _ _ _ _ (λ r p. refl) (λ r p a. refl)
      (pointer-IsDeep topics_stored _ (elements-IsDeep _ denied_topic-IsDeep))

word_policy_config-IsDeep : {Meta : Type 0} → IsDeep (word_policy_config {Meta = Meta})
word_policy_config-IsDeep =
    struct-IsDeep _ _ _ _ (λ r p. refl) (λ r p a. refl)
      (both-IsDeep _ _ (pointer-IsDeep texts_stored _ (elements-IsDeep _ plain-IsDeep))
        (pointer-IsDeep texts_stored _ (elements-IsDeep _ plain-IsDeep)))

guardrail_policy_spec-IsDeep : {Meta : Type 0} → IsDeep (guardrail_policy_spec {Meta = Meta})
guardrail_policy_spec-IsDeep =
    struct-IsDeep _ _ _ _ (λ r p. refl) (λ r p a. refl)
      (four-IsDeep _ _ _ _ (pointer-IsDeep content_stored _ content_policy_config-IsDeep)
        (pointer-IsDeep sensitive_stored _ sensitive_information_policy_config-IsDeep)
        (pointer-IsDeep topic_stored _ topic_policy_config-IsDeep)
        (pointer-IsDeep word_stored _ word_policy_config-IsDeep))

guardrail_policy_status-IsDeep : {Meta : Type 0} → IsDeep (guardrail_policy_status {Meta = Meta})
guardrail_policy_status-IsDeep =
    struct-IsDeep _ _ _ _ (λ r p. refl) (λ r p a. refl) conditions_copier-IsDeep

module _ {Meta : Type 0} (meta : Copier (Cell Meta) Meta ObjectMeta) (x : IsDeep meta) where
  pub model_endpoint-IsDeep : IsDeep (model_endpoint meta)
  model_endpoint-IsDeep =
      struct-IsDeep (λ s. (s.meta, s.spec, s.status))
        (λ s p. record { meta = p.0; spec = p.1; status = p.2 })
        (λ s a. record { meta = a.0; spec = a.1; status = a.2 }) _ (λ r p. refl) (λ r p a. refl)
        (three-IsDeep _ _ _ x model_endpoint_spec-IsDeep model_endpoint_status-IsDeep)

  prompt_template-IsDeep : IsDeep (prompt_template meta)
  prompt_template-IsDeep =
      struct-IsDeep (λ s. (s.meta, s.spec, s.status))
        (λ s p. record { meta = p.0; spec = p.1; status = p.2 })
        (λ s a. record { meta = a.0; spec = a.1; status = a.2 }) _ (λ r p. refl) (λ r p a. refl)
        (three-IsDeep _ _ _ x prompt_template_spec-IsDeep prompt_template_status-IsDeep)

  guardrail_policy-IsDeep : IsDeep (guardrail_policy meta)
  guardrail_policy-IsDeep =
      struct-IsDeep (λ s. (s.meta, s.spec, s.status))
        (λ s p. record { meta = p.0; spec = p.1; status = p.2 })
        (λ s a. record { meta = a.0; spec = a.1; status = a.2 }) _ (λ r p. refl) (λ r p a. refl)
        (three-IsDeep _ _ _ x guardrail_policy_spec-IsDeep guardrail_policy_status-IsDeep)

  pub deep_copy-IsDeep : (kind : Resource) → IsDeep (deep_copy meta kind)
  deep_copy-IsDeep endpoint = pointer-IsDeep endpoint_stored _ model_endpoint-IsDeep
  deep_copy-IsDeep endpoint_list = pointer-IsDeep endpoint_list_stored _ (
      struct-IsDeep (λ s. s.items) (λ s p. record { items = p }) (λ s a. ranged a) _ (λ r p. refl)
        (λ r p a. refl)
        (pointer-IsDeep endpoints_stored _ (elements-IsDeep _ model_endpoint-IsDeep)))
  deep_copy-IsDeep template = pointer-IsDeep template_stored _ prompt_template-IsDeep
  deep_copy-IsDeep template_list = pointer-IsDeep template_list_stored _ (
      struct-IsDeep (λ s. s.items) (λ s p. record { items = p }) (λ s a. ranged a) _ (λ r p. refl)
        (λ r p a. refl)
        (pointer-IsDeep templates_stored _ (elements-IsDeep _ prompt_template-IsDeep)))
  deep_copy-IsDeep policy = pointer-IsDeep policy_stored _ guardrail_policy-IsDeep
  deep_copy-IsDeep policy_list = pointer-IsDeep policy_list_stored _ (
      struct-IsDeep (λ s. s.items) (λ s p. record { items = p }) (λ s a. ranged a) _ (λ r p. refl)
        (λ r p a. refl)
        (pointer-IsDeep policies_stored _ (elements-IsDeep _ guardrail_policy-IsDeep)))

  -- DeepCopy of each of the three resources and of their lists returns if what it is given can be
  -- read. It only adds cells; from then on the copy reads as the value that was copied, whatever is
  -- written to the cells that were there before and however memory grows, and the original does
  -- whatever is written to the other cells. This takes for granted that ObjectMeta's copy is deep.
  pub deep_copy-IsIsolated :
      (kind : Resource) (h : List (Cell Meta)) (p : Option ℕ) (v : Option (Value kind))
      → (deep_copy meta kind).read h p ≡ some v
      → IsIsolated (deep_copy meta kind) h p v
  deep_copy-IsIsolated kind h p v e =
      IsDeep-IsIsolated (deep_copy meta kind) (deep_copy-IsDeep kind) h p v e
