-- ===== src/Api/DeepCopy/Template.antt =====
-- DeepCopyInto of PromptTemplateSpec, PromptTemplateStatus, PromptTemplate and PromptTemplateList.
use k8s_ai_operator.Base.{List}
use k8s_ai_operator.Api.Meta.{ObjectMeta}
use k8s_ai_operator.Api.Template.{PromptTemplateSpec, PromptTemplateStatus, PromptTemplate}
use k8s_ai_operator.Api.Memory.{Copier, plain, both, three, elements, pointer, struct}
use k8s_ai_operator.Api.DeepCopy.Structs.{
  PromptTemplateSpecStruct, PromptTemplateStatusStruct, PromptTemplateStruct,
  PromptTemplateListStruct, Cell,
}
use k8s_ai_operator.Api.DeepCopy.Stored.{int_stored, variables_stored, templates_stored}
use k8s_ai_operator.Api.DeepCopy.Endpoint.{ranged, conditions_copier}

module _ {Meta : Type 0} where
  abbrev pub prompt_template_spec : Copier (Cell Meta) PromptTemplateSpecStruct PromptTemplateSpec
  prompt_template_spec =
      struct (λ s. (s.variables, s.max_tokens))
        (λ s p. record s { variables = p.0; max_tokens = p.1 })
        (λ s a. record {
          template = s.template;
          variables = ranged a.0;
          model_endpoint_ref = s.model_endpoint_ref;
          system_prompt = s.system_prompt;
          max_tokens = a.1;
        })
        (both (pointer variables_stored (elements plain)) (pointer int_stored plain))

  abbrev pub prompt_template_status :
      Copier (Cell Meta) PromptTemplateStatusStruct PromptTemplateStatus
  prompt_template_status =
      struct (λ s. s.conditions) (λ s p. record s { conditions = p })
        (λ s a. record {
          conditions = ranged a;
          render_count = s.render_count;
          observed_generation = s.observed_generation;
        })
        conditions_copier

  abbrev pub prompt_template :
      Copier (Cell Meta) Meta ObjectMeta
      → Copier (Cell Meta) (PromptTemplateStruct Meta) PromptTemplate
  prompt_template meta =
      struct (λ s. (s.meta, s.spec, s.status))
        (λ s p. record { meta = p.0; spec = p.1; status = p.2 })
        (λ s a. record { meta = a.0; spec = a.1; status = a.2 })
        (three meta prompt_template_spec prompt_template_status)

  abbrev pub prompt_template_list :
      Copier (Cell Meta) Meta ObjectMeta
      → Copier (Cell Meta) PromptTemplateListStruct (List PromptTemplate)
  prompt_template_list meta =
      struct (λ s. s.items) (λ s p. record { items = p }) (λ s a. ranged a)
        (pointer templates_stored (elements (prompt_template meta)))
