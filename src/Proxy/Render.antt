-- ===== src/Proxy/Render.antt =====
-- HandleRender and renderTemplate of internal/proxy/handler.go.
pub mod Laws
use k8s_ai_operator.Base.{
  ℤ, pos, Text, lit, Bool, false, not, ◌&&◌, Option, none, some, is_some, List, [], ◌∷◌, ◌++◌,
  Result, map_err, ok, err, ◌>>=◌, ◌==◌, text_eq, if◌then◌else◌,
}
use k8s_ai_operator.Base.Dict
use k8s_ai_operator.Base.Dict.{Dict}
use k8s_ai_operator.Api.Meta.{ObjectKey}
use k8s_ai_operator.Api.Endpoint.{ModelEndpoint}
use k8s_ai_operator.Api.Template.{TemplateVariable, PromptTemplate}
use k8s_ai_operator.Bedrock.Cost.{CostResult, calculate_cost}
use k8s_ai_operator.Bedrock.Converse.{InvokeInput, InvokeOutput, invoke}
use k8s_ai_operator.Metrics.{
  MetricOp, inc, add, panics, made, invocation_total, input_tokens_total, output_tokens_total,
}
use k8s_ai_operator.Proxy.Path.{parse_path_segments}
use k8s_ai_operator.Proxy.Http.{
  HttpRequest, RenderRequest, json, Reply, replied, panicked, http_error, Handler, Scene, Outside,
  capped,
}
use k8s_ai_operator.Proxy.Invoke.{endpoint_key, cost_text, cost_ops, response_of}

abbrev pub Variables : Type 0
Variables = Option (Dict Text Text)

-- `_, ok := vars[name]`
unfoldable pub supplied : Text → Variables → Bool
supplied name none = false
supplied name (some d) = is_some (Dict.get name d)

-- The outcome of the loop over the template's variables.
pub data Filled : Type 0 where
  filled : Variables → Filled
  missing : Text → Filled
  nil_write : Filled

-- `vars[name] = value`
unfoldable pub assign : Text → Text → Variables → Filled
assign name value none = nil_write
assign name value (some d) = filled (some (Dict.put name value d))

-- One round of the loop.
unfoldable pub fill_one : TemplateVariable → Variables → Filled
unfolding assign
fill_one v vars =
    if v.required && not (supplied v.name vars)
    then missing v.name
    else if not (supplied v.name vars) && not (v.fallback == [])
    then assign v.name v.fallback vars
    else filled vars

unfoldable pub fill_variables : List TemplateVariable → Variables → Filled
fill_variables [] vars = filled vars
fill_variables (v ∷ vs) vars = elim (fill_one v vars) [
  | filled vars' ↦ fill_variables vs vars'
  | missing name ↦ missing name
  | nil_write ↦ nil_write
]

module _ {Float Bucket Remote Tmpl : Type 0} (o : Outside Float Bucket Remote Tmpl) where
  unfoldable pub render_template : Text → Variables → Result Text
  render_template text vars = do
    tmpl ← map_err (λ e. lit "parsing template: " ++ e) (o.parse_template (lit "prompt") text)
    map_err (λ e. lit "executing template: " ++ e) (o.execute_template tmpl vars)

  -- The template's own limit, 0 if it has none, under the endpoint's cap.
  unfoldable pub render_tokens : Option ℤ → Option ℤ → ℤ
  render_tokens none cap = capped (pos 0) cap
  render_tokens (some n) cap = capped n cap

  unfoldable pub render_input : PromptTemplate → ModelEndpoint → Text → InvokeInput Float
  render_input pt ep rendered = record {
    model_id = ep.spec.model_id;
    system_prompt = pt.spec.system_prompt;
    messages = record { role = lit "user"; content = rendered } ∷ [];
    max_tokens = render_tokens pt.spec.max_tokens ep.spec.max_tokens;
    temperature = o.floats.of_int (pos 0);
  }

  unfoldable pub render_ops : List Text → InvokeOutput → CostResult Float → List (MetricOp Float)
  unfolding cost_ops
  render_ops labels out c =
      inc invocation_total (labels ++ lit "success" ∷ [])
      ∷ add input_tokens_total labels (o.floats.of_int out.input_tokens)
      ∷ add output_tokens_total labels (o.floats.of_int out.output_tokens)
      ∷ cost_ops labels c

  unfoldable pub send :
      ObjectKey
      → PromptTemplate
      → ModelEndpoint
      → Text
      → Handler Float Bucket Remote
      → Reply × Handler Float Bucket Remote
  send at pt ep rendered h =
      let labels = at.namespace ∷ at.name ∷ ep.spec.model_id ∷ [] in
      let (result, link) =
        invoke o.floats o.sdk (endpoint_key ep) (render_input pt ep rendered) h.link in
      elim result [
        | err e ↦ (replied (http_error (lit "bedrock error: " ++ e) 502), record h { link = link })
        | ok out ↦
            let c = calculate_cost o.floats ep.spec.model_id out.input_tokens out.output_tokens in
            let ops = render_ops labels out c in
            (
              if panics o.floats.is_negative ops
                  then panicked
                  else replied (record {
                    status = 200;
                    headers = (lit "Content-Type", lit "application/json") ∷ [];
                    body = json (response_of out (cost_text o.floats.format c));
                  }),
              record h { link = link; metrics = h.metrics ++ made o.floats.is_negative ops },
            )
      ]

  -- From the look-up of the template's endpoint on.
  unfoldable pub route :
      Text
      → PromptTemplate
      → Text
      → Scene Float
      → Handler Float Bucket Remote
      → Reply × Handler Float Bucket Remote
  route namespace pt rendered scene h =
      let at : ObjectKey = record {
        namespace = namespace;
        name = pt.spec.model_endpoint_ref.name;
      } in
      elim (scene.endpoint at) [
        | err _ ↦ (replied (http_error (lit "referenced endpoint not found") 404), h)
        | ok ep ↦
            if ep.status.available
            then send at pt ep rendered h
            else (replied (http_error (lit "endpoint not available") 503), h)
      ]

  unfoldable pub serve_template :
      ObjectKey
      → RenderRequest
      → Scene Float
      → Handler Float Bucket Remote
      → Reply × Handler Float Bucket Remote
  serve_template at req scene h = elim (scene.template at) [
    | err _ ↦ (replied (http_error (lit "template not found") 404), h)
    | ok pt ↦ elim (fill_variables pt.spec.variables req.variables) [
      | missing name ↦ (replied (http_error (lit "missing required variable: " ++ name) 400), h)
      | nil_write ↦ (panicked, h)
      | filled vars ↦ elim (render_template pt.spec.template vars) [
        | err e ↦ (replied (http_error (lit "template rendering failed: " ++ e) 400), h)
        | ok rendered ↦ route at.namespace pt rendered scene h
      ]
    ]
  ]

  unfoldable pub handle_render :
      HttpRequest → Scene Float → Handler Float Bucket Remote → Reply × Handler Float Bucket Remote
  handle_render r scene h =
      if r.method == lit "POST"
      then elim (parse_path_segments r.path (lit "/render/")) [
        | none ↦ (replied (http_error (lit "path must be /render/{namespace}/{name}") 400), h)
        | some (namespace, name) ↦ elim (o.decode_render r.body) [
          | err e ↦ (replied (http_error (lit "invalid request body: " ++ e) 400), h)
          | ok req ↦ serve_template (record { namespace = namespace; name = name }) req scene h
        ]
      ]
      else (replied (http_error (lit "method not allowed") 405), h)
