-- ===== src/System/Templates.antt =====
-- The PromptTemplate controller and HandleRender together: what a template's reported condition promises
-- to those who render it. HandleRender of internal/proxy/handler.go reads the same cluster.
use k8s_ai_operator.Base.{
  ℕ, Text, lit, Bool, true, false, none, some, Result, ok, err, ◌++◌, ◌≡◌, refl, inl, inr, arith,
  Result-cases, text_eq, nat_eq, [], ◌∷◌, ◌||◌, ◌==◌, is_some, cut_prefix,
}
use k8s_ai_operator.Api.Meta.{ObjectKey, condition_true, finalizer_name, Condition}
use k8s_ai_operator.Api.Template.{PromptTemplate}
use k8s_ai_operator.Controller.Cluster.{found, IsKept}
use k8s_ai_operator.Controller.Conditions.{condition_status}
use k8s_ai_operator.Controller.Conditions.Laws.{find_condition}
use k8s_ai_operator.Controller.Template.{
  Reconciler, set_finalizers, condition_template_valid, reconcile,
}
use k8s_ai_operator.Controller.Template.Laws.{
  set_status, is_deleted, parses, Marks, reconcile-Marks,
}
use k8s_ai_operator.Proxy.Http.{
  HttpRequest, RenderRequest, replied, http_error, Handler, Scene, Outside,
}
use k8s_ai_operator.Proxy.Path.{parse_path_segments}
use k8s_ai_operator.Proxy.Render.{
  Variables, filled, fill_variables, render_template, route, serve_template, handle_render,
}

parses-ok : {Tmpl : Type 0} (o : Result Tmpl) → parses o ≡ true → (t : Tmpl) × (o ≡ ok t)
parses-ok (ok t) e = (t, refl)
parses-ok (err m) e = absurd (ground arith)

condition_status-true : (b : Bool) → condition_status b ≡ condition_true → b ≡ true
unfolding condition_status
condition_status-true true e = refl
condition_status-true false e = absurd (ground arith)

-- `strings.Contains`
abbrev pub contains : Text → Text → Bool
contains word [] = word == []
contains word (c ∷ s) = is_some (cut_prefix word (c ∷ s)) || contains word s

-- The text may define templates of its own, with names.
abbrev pub defines_templates : Text → Bool
defines_templates text = contains (lit "define") text || contains (lit "block") text

-- The documented behaviour of text/template that the two parsers share: the name of a template makes
-- no difference to whether a text parses, unless the text defines templates.
abbrev pub ParseAlike :
    {S Float Bucket Remote Tmpl : Type 0}
    → Reconciler S Tmpl
    → Outside Float Bucket Remote Tmpl
    → Type 0
ParseAlike r o =
    (a b t : Text)
    → defines_templates t ≡ false
    → parses (r.parse a t) ≡ parses (o.parse_template b t)

-- The condition TemplateValid of a template is True.
abbrev pub IsReportedValid : PromptTemplate → Type 0
IsReportedValid pt =
    (c : Condition) × (find_condition condition_template_valid pt.status.conditions ≡ some c)
    × (c.status ≡ condition_true)

Marks-IsReportedValid :
    (b : Bool) (pt : PromptTemplate)
    → Marks condition_template_valid b pt
    → IsReportedValid pt
    → b ≡ true
Marks-IsReportedValid b pt (c, there, status) (d, seen, valid) =
    condition_status-true b (ground arith)

module _ {Float Bucket Remote Tmpl : Type 0} (o : Outside Float Bucket Remote Tmpl)
    (request : HttpRequest) (scene : Scene Float) (h : Handler Float Bucket Remote)
    (key : ObjectKey) (req : RenderRequest) (pt : PromptTemplate) (vars : Variables) where
  -- Rendering of a text that parses.
  handle_render_parsed :
      (tmpl : Tmpl)
      → request.method ≡ lit "POST"
      → parse_path_segments request.path (lit "/render/") ≡ some (key.namespace, key.name)
      → o.decode_render request.body ≡ ok req
      → scene.template key ≡ ok pt
      → fill_variables pt.spec.variables req.variables ≡ filled vars
      → o.parse_template (lit "prompt") pt.spec.template ≡ ok tmpl
      → handle_render o request scene h ≡ elim (o.execute_template tmpl vars) [
        | ok text ↦ route o key.namespace pt text scene h
        | err e ↦ (
          replied (
              http_error
                (lit "template rendering failed: " ++ (lit "executing template: " ++ e))
                400),
          h,
        )
      ]
  unfolding handle_render serve_template render_template
  handle_render_parsed tmpl post path body there full parsed =
      elim (Result-cases (o.execute_template tmpl vars)) [
        | inl (text, e) ↦ ground arith
        | inr (m, e) ↦ ground arith
      ]

module _ {S Float Bucket Remote Tmpl : Type 0} (r : Reconciler S Tmpl)
    (o : Outside Float Bucket Remote Tmpl) (valid_at ready_at : ℕ) (key : ObjectKey)
    (request : HttpRequest) (scene : Scene Float) (h : Handler Float Bucket Remote) where
  -- After a reconcile of a live template that reports no error and says that the template is valid, a
  -- HandleRender that reads the template so does not refuse it for its syntax, provided that its text has neither of
  -- the words "define" and "block", so that the two names under which it is parsed make no difference.
  -- With its variables filled in, it fails only where the execution of the template does, and goes on
  -- with the rendered text otherwise.
  pub handle_render-reconcile :
      (req : RenderRequest) (vars : Variables) (pt pt' : PromptTemplate) (s : S)
      → ParseAlike r o
      → defines_templates pt.spec.template ≡ false
      → IsKept r.templates set_finalizers set_status is_deleted
      → r.templates.get key s ≡ found pt
      → is_deleted pt ≡ false
      → r.finalizers.contains pt.meta.finalizers finalizer_name ≡ true
      → (reconcile r valid_at ready_at key s).0.error ≡ none
      → r.templates.get key (reconcile r valid_at ready_at key s).1 ≡ found pt'
      → IsReportedValid pt'
      → scene.template key ≡ ok pt'
      → request.method ≡ lit "POST"
      → parse_path_segments request.path (lit "/render/") ≡ some (key.namespace, key.name)
      → o.decode_render request.body ≡ ok req
      → fill_variables pt'.spec.variables req.variables ≡ filled vars
      → (tmpl : Tmpl) × (o.parse_template (lit "prompt") pt'.spec.template ≡ ok tmpl)
        × (handle_render o request scene h ≡ elim (o.execute_template tmpl vars) [
          | ok text ↦ route o key.namespace pt' text scene h
          | err e ↦ (
            replied (
                http_error
                  (lit "template rendering failed: " ++ (lit "executing template: " ++ e))
                  400),
            h,
          )
        ])
  handle_render-reconcile req vars pt pt' s same plain kept here live has quiet after valid there
        post path body full =
      let ((pt2, stored, meta, spec, generation, marks, ready), outcome) =
        reconcile-Marks r valid_at ready_at key pt s kept here live has quiet in
      let own : pt2 ≡ pt' = ground arith in
      let good : parses (r.parse (lit "validate") pt.spec.template) ≡ true =
        Marks-IsReportedValid (parses (r.parse (lit "validate") pt.spec.template)) pt2 marks
          (rw own valid) in
      let parsed : parses (o.parse_template (lit "prompt") pt'.spec.template) ≡ true =
        ground (arith, same (lit "validate") (lit "prompt") pt.spec.template plain) in
      let (tmpl, e) = parses-ok (o.parse_template (lit "prompt") pt'.spec.template) parsed in
      (
        tmpl,
        e,
        handle_render_parsed o request scene h key req pt' vars tmpl post path body there full e,
      )
