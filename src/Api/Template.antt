-- ===== src/Api/Template.antt =====
-- api/v1alpha1/prompttemplate_types.go
use k8s_ai_operator.Base.{Text, ℤ, Option, List, Bool}
use k8s_ai_operator.Api.Meta.{ObjectMeta, Condition, ModelEndpointRef}

-- `default` and `type` of the source are `fallback` and `kind`.
pub record TemplateVariable : Type 0 where
  pub name : Text
  pub kind : Text
  pub required : Bool
  pub fallback : Text
  pub description : Text

pub record PromptTemplateSpec : Type 0 where
  pub template : Text
  pub variables : List TemplateVariable
  pub model_endpoint_ref : ModelEndpointRef
  pub system_prompt : Text
  pub max_tokens : Option ℤ

pub record PromptTemplateStatus : Type 0 where
  pub conditions : List Condition
  pub render_count : ℤ
  pub observed_generation : ℤ

pub record PromptTemplate : Type 0 where
  pub meta : ObjectMeta
  pub spec : PromptTemplateSpec
  pub status : PromptTemplateStatus
