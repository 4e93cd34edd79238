-- ===== src/Proxy/Render/Laws/Gate.antt =====
-- HandleRender: when it calls Bedrock, that it takes no part in rate limiting, and its panic.
use k8s_ai_operator.Base.{
  Text, lit, ◌≡◌, refl, ◌≢◌, ◌⊎◌, true, false, Bool-cases, inl, inr, Option-cases, none, some, [],
  ◌∷◌, All, Any, All-append, Result-cases, ok, arith, text_eq, ==_true, ==_false,
}
use k8s_ai_operator.Api.Meta.{ObjectKey}
use k8s_ai_operator.Api.Endpoint.{ModelEndpoint}
use k8s_ai_operator.Api.Template.{PromptTemplate}
use k8s_ai_operator.Bedrock.Cost.{CostResult}
use k8s_ai_operator.Bedrock.Converse.{InvokeOutput, invoke}
use k8s_ai_operator.Metrics.{HasLabels, label_names}
use k8s_ai_operator.Proxy.Path.{parse_path_segments}
use k8s_ai_operator.Proxy.Http.{
  HttpRequest, RenderRequest, Reply, panicked, http_error, Handler, Scene, Outside,
}
use k8s_ai_operator.Proxy.Invoke.{endpoint_key}
use k8s_ai_operator.Proxy.Invoke.Outcome.{status_of}
use k8s_ai_operator.Proxy.Invoke.Labels.{AreLabelled, made-AreLabelled, cost_ops-AreLabelled}
use k8s_ai_operator.Proxy.Render.{
  Variables, Filled, filled, missing, nil_write, fill_variables, render_template, render_input,
  render_ops, send, route, serve_template, handle_render,
}
use k8s_ai_operator.Proxy.Render.Laws.{fill_variables-nil_write}

pub Filled-cases :
    (f : Filled)
    → ((vars : Variables) × (f ≡ filled vars))
      ⊎ (((name : Text) × (f ≡ missing name)) ⊎ (f ≡ nil_write))
Filled-cases (filled vars) = inl (vars, refl)
Filled-cases (missing name) = inr (inl (name, refl))
Filled-cases nil_write = inr (inr refl)

module _ {Float Bucket Remote Tmpl : Type 0} (o : Outside Float Bucket Remote Tmpl) where
  render_ops-AreLabelled :
      (a b m : Text) (out : InvokeOutput) (c : CostResult Float)
      → AreLabelled (render_ops o (a ∷ b ∷ m ∷ []) out c)
  unfolding render_ops label_names
  render_ops-AreLabelled a b m out c = (refl, (refl, (refl, cost_ops-AreLabelled a b m c)))

  -- The template was rendered, and its endpoint was called once.
  pub record IsRenderCall (r : HttpRequest) (scene : Scene Float)
      (h t : Handler Float Bucket Remote) : Type 0 where
    pub at : ObjectKey
    pub req : RenderRequest
    pub pt : PromptTemplate
    pub vars : Variables
    pub rendered : Text
    pub ep : ModelEndpoint
    pub method : r.method ≡ lit "POST"
    pub path : parse_path_segments r.path (lit "/render/") ≡ some (at.namespace, at.name)
    pub body : o.decode_render r.body ≡ ok req
    pub template : scene.template at ≡ ok pt
    pub variables : fill_variables pt.spec.variables req.variables ≡ filled vars
    pub text : render_template o pt.spec.template vars ≡ ok rendered
    pub endpoint :
        scene.endpoint (record { namespace = at.namespace; name = pt.spec.model_endpoint_ref.name })
        ≡ ok ep
    pub available : ep.status.available ≡ true
    pub called :
        t.link ≡ (invoke o.floats o.sdk (endpoint_key ep) (render_input o pt ep rendered) h.link).1

  -- A step that draws on no bucket and is no refusal by one, whose metric calls are well labelled,
  -- and that leaves Bedrock alone or is one call.
  pub record IsRender (r : HttpRequest) (scene : Scene Float) (h : Handler Float Bucket Remote)
      (t : Reply × Handler Float Bucket Remote) : Type 0 where
    pub limiters : t.1.rate_limiters ≡ h.rate_limiters
    pub status : status_of t.0 ≢ some 429
    pub labels : AreLabelled h.metrics → AreLabelled t.1.metrics
    pub link : (t.1.link ≡ h.link) ⊎ IsRenderCall r scene h t.1

  -- A reply that changes nothing.
  IsRender-idle :
      (r : HttpRequest) (scene : Scene Float) (h : Handler Float Bucket Remote) (reply : Reply)
      → status_of reply ≢ some 429
      → IsRender r scene h (reply, h)
  IsRender-idle r scene h reply other = record {
    limiters = refl;
    status = other;
    labels = λ good. good;
    link = inl refl;
  }

  module _ (scene : Scene Float) (h : Handler Float Bucket Remote) (at : ObjectKey) where
    send-AreLabelled :
        (pt : PromptTemplate) (ep : ModelEndpoint) (rendered : Text)
        → AreLabelled h.metrics
        → AreLabelled (send o at pt ep rendered h).1.metrics
    unfolding send
    send-AreLabelled pt ep rendered good =
        elim (Result-cases
          (invoke o.floats o.sdk (endpoint_key ep) (render_input o pt ep rendered) h.link).0) [
            | inl (out, e) ↦
                rw (e, send)
                  (All-append HasLabels h.metrics _ good
                    (made-AreLabelled o.floats.is_negative _ (render_ops-AreLabelled _ _ _ out _)))
            | inr (m, e) ↦ rw (e, send) good
          ]

    send_rest :
        (pt : PromptTemplate) (ep : ModelEndpoint) (rendered : Text)
        → ((send o at pt ep rendered h).1.rate_limiters ≡ h.rate_limiters)
          × (status_of (send o at pt ep rendered h).0 ≢ some 429)
          × ((send o at pt ep rendered h).1.link
              ≡ (invoke o.floats o.sdk (endpoint_key ep) (render_input o pt ep rendered) h.link).1)
    unfolding send http_error
    send_rest pt ep rendered = (ground arith, ground arith, ground arith)

  module _ (r : HttpRequest) (scene : Scene Float) (h : Handler Float Bucket Remote)
      (at : ObjectKey) (req : RenderRequest) (method : r.method ≡ lit "POST")
      (path : parse_path_segments r.path (lit "/render/") ≡ some (at.namespace, at.name))
      (body : o.decode_render r.body ≡ ok req) where
    route-IsRender :
        (pt : PromptTemplate) (vars : Variables) (rendered : Text)
        → scene.template at ≡ ok pt
        → fill_variables pt.spec.variables req.variables ≡ filled vars
        → render_template o pt.spec.template vars ≡ ok rendered
        → IsRender r scene h (route o at.namespace pt rendered scene h)
    unfolding route http_error
    route-IsRender pt vars rendered template variables text =
        let to : ObjectKey = record {
          namespace = at.namespace;
          name = pt.spec.model_endpoint_ref.name;
        } in
        elim (Result-cases (scene.endpoint to)) [
          | inr (m, absent) ↦ rw (absent, route) (IsRender-idle r scene h _ (λ e. ground arith))
          | inl (ep, found) ↦ elim (Bool-cases ep.status.available) [
            | inr off ↦ rw (found, route) (rw off (IsRender-idle r scene h _ (λ e. ground arith)))
            | inl on ↦
                let (limiters, status, called) = send_rest scene h to pt ep rendered in
                let same : route o at.namespace pt rendered scene h ≡ send o to pt ep rendered h =
                  ground arith in
                rw same (record {
                  limiters = limiters;
                  status = status;
                  labels = send-AreLabelled scene h to pt ep rendered;
                  link = inr (record {
                    at = at;
                    req = req;
                    pt = pt;
                    vars = vars;
                    rendered = rendered;
                    ep = ep;
                    method = method;
                    path = path;
                    body = body;
                    template = template;
                    variables = variables;
                    text = text;
                    endpoint = found;
                    available = on;
                    called = called;
                  });
                })
          ]
        ]

    serve_template-IsRender : IsRender r scene h (serve_template o at req scene h)
    unfolding serve_template http_error
    serve_template-IsRender = elim (Result-cases (scene.template at)) [
      | inr (m, absent) ↦
          rw (absent, serve_template) (IsRender-idle r scene h _ (λ e. ground arith))
      | inl (pt, found) ↦ elim (Filled-cases (fill_variables pt.spec.variables req.variables)) [
        | inr (inl (name, e)) ↦
            rw (found, serve_template) (rw e (IsRender-idle r scene h _ (λ e. ground arith)))
        | inr (inr e) ↦
            rw (found, serve_template) (rw e (IsRender-idle r scene h _ (λ e. ground arith)))
        | inl (vars, e) ↦ elim (Result-cases (render_template o pt.spec.template vars)) [
          | inr (m, bad) ↦
              rw (found, serve_template)
                (rw e (rw bad (IsRender-idle r scene h _ (λ e. ground arith))))
          | inl (rendered, good) ↦
              rw (found, serve_template)
                (rw e (rw good (route-IsRender pt vars rendered found e good)))
        ]
      ]
    ]

  -- HandleRender takes no part in rate limiting: it leaves every bucket as it was and never answers
  -- 429. It calls Bedrock at most once, and only for a POST whose template exists and renders with its
  -- variables filled in and whose endpoint exists and is available; its metric calls name every label.
  pub handle_render-IsRender :
      (r : HttpRequest) (scene : Scene Float) (h : Handler Float Bucket Remote)
      → IsRender r scene h (handle_render o r scene h)
  unfolding handle_render http_error
  handle_render-IsRender r scene h = elim (text_eq.dec r.method (lit "POST")) [
    | no other ↦ rw (==_false other) (IsRender-idle r scene h _ (λ e. ground arith))
    | yes post ↦ elim (Option-cases (parse_path_segments r.path (lit "/render/"))) [
      | inl bad ↦
          rw (==_true post)
            (rw (bad, handle_render) (IsRender-idle r scene h _ (λ e. ground arith)))
      | inr ((namespace, name), e) ↦ elim (Result-cases (o.decode_render r.body)) [
        | inr (m, bad) ↦
            rw (==_true post) (rw e (rw bad (IsRender-idle r scene h _ (λ e. ground arith))))
        | inl (req, read) ↦ rw (==_true post) (
            rw e (
              rw read (
                serve_template-IsRender r scene h (record { namespace = namespace; name = name })
                  req post e read)))
      ]
    ]
  ]

  -- A POST with no variables to a template that requires none, but has a variable with a default,
  -- panics: the default is written to a nil map.
  pub handle_render-panicked :
      (r : HttpRequest) (scene : Scene Float) (h : Handler Float Bucket Remote) (at : ObjectKey)
      (req : RenderRequest) (pt : PromptTemplate)
      → r.method ≡ lit "POST"
      → parse_path_segments r.path (lit "/render/") ≡ some (at.namespace, at.name)
      → o.decode_render r.body ≡ ok req
      → req.variables ≡ none
      → scene.template at ≡ ok pt
      → All (λ v. v.required ≡ false) pt.spec.variables
      → Any (λ v. v.fallback ≢ []) pt.spec.variables
      → handle_render o r scene h ≡ (panicked, h)
  unfolding handle_render serve_template
  handle_render-panicked r scene h at req pt method path body empty template free given =
      let broken : fill_variables pt.spec.variables req.variables ≡ nil_write =
        rw empty (fill_variables-nil_write pt.spec.variables free given) in
      ground arith
