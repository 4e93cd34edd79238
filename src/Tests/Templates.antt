-- ===== src/Tests/Templates.antt =====
-- A template that a reconcile has found valid, and a request to render it.
use k8s_ai_operator.Base.{
  ℕ, Text, lit, Result, none, some, false, [], ◌∷◌, ok, ◌≡◌, refl, text_eq, nat_eq, cut_prefix,
}
use k8s_ai_operator.Base.Dict
use k8s_ai_operator.Api.Meta.{condition_ready, finalizer_name, ObjectKey}
use k8s_ai_operator.Api.Template.{PromptTemplate}
use k8s_ai_operator.Controller.Conditions.{set_condition, condition_status}
use k8s_ai_operator.Controller.Conditions.Laws.{find_condition}
use k8s_ai_operator.Controller.Template.{
  template_verdict, endpoint_verdict, condition_of, with_verdicts, validate,
  condition_template_valid,
}
use k8s_ai_operator.Controller.Template
use k8s_ai_operator.Proxy.Http.{Outside, Scene}
use k8s_ai_operator.Proxy.Render.{
  Variables, filled, supplied, fill_one, fill_variables, route, handle_render,
}
use k8s_ai_operator.System.Templates.{IsReportedValid, defines_templates, handle_render-reconcile}
use k8s_ai_operator.Tests.World.{outside, scene, handler, post}
use k8s_ai_operator.Tests.Requests.{render_path}
use k8s_ai_operator.Tests.Policies.{
  template_store, template_store-IsKept, finalized, finalized_finalizer,
}

abbrev key : ObjectKey
key = record { namespace = lit "team"; name = lit "review" }

abbrev given : Variables
given = some ((lit "Tone", lit "dry") ∷ [])

abbrev rendering : Outside ℕ ℕ ℕ Text
rendering = record outside { decode_render = λ b. ok (record { variables = given }) }

abbrev reported : PromptTemplate
reported = (Template.reconcile template_store 500 501 key finalized).1

abbrev now : Scene ℕ
now = record scene { template = λ k. ok reported }

given_filled : fill_variables finalized.spec.variables given ≡ filled given
unfolding fill_variables fill_one supplied Dict.get text_eq lit
given_filled = refl

reported_quiet : (Template.reconcile template_store 500 501 key finalized).0.error ≡ none
unfolding Template.reconcile validate endpoint_verdict finalizer_name lit text_eq
reported_quiet = refl

reported_spec : reported.spec ≡ finalized.spec
unfolding Template.reconcile validate endpoint_verdict finalizer_name lit text_eq with_verdicts
reported_spec = refl

reported_valid : IsReportedValid reported
unfolding Template.reconcile validate endpoint_verdict template_verdict finalizer_name lit text_eq
    with_verdicts condition_of set_condition condition_template_valid condition_ready find_condition
    condition_status
reported_valid = (_, refl, refl)

finalized_plain : defines_templates finalized.spec.template ≡ false
unfolding lit text_eq nat_eq cut_prefix
finalized_plain = refl

handle_render-reconcile_example :
    (tmpl : Text) × (◌≡◌ {A = Result Text} (ok reported.spec.template) (ok tmpl))
    × (handle_render rendering (post (lit "/render/team/review")) now handler
        ≡ route rendering (lit "team") reported tmpl now handler)
handle_render-reconcile_example =
    handle_render-reconcile template_store rendering 500 501 key (post (lit "/render/team/review"))
      now handler (record { variables = given }) given finalized reported finalized
      (λ a b t plain. refl) finalized_plain template_store-IsKept refl refl finalized_finalizer
      reported_quiet refl reported_valid refl refl render_path refl (rw reported_spec given_filled)
