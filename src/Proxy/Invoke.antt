-- ===== src/Proxy/Invoke.antt =====
-- HandleInvoke of internal/proxy/handler.go.
pub mod Outcome
pub mod Labels
pub mod Laws
use k8s_ai_operator.Base.{
  ℕ, Text, lit, true, false, none, some, List, [], ◌∷◌, ◌++◌, Result, ok, err, ◌==◌, text_eq,
  if◌then◌else◌,
}
use k8s_ai_operator.Api.Meta.{ObjectKey}
use k8s_ai_operator.Api.Endpoint.{ModelEndpoint}
use k8s_ai_operator.Bedrock.Cost.{CostResult, cost, unknown_model, calculate_cost}
use k8s_ai_operator.Bedrock.Client.{EndpointKey}
use k8s_ai_operator.Bedrock.Converse.{InvokeInput, InvokeOutput, invoke}
use k8s_ai_operator.Metrics.{
  MetricOp, inc, add, observe, panics, made, invocation_total, input_tokens_total,
  output_tokens_total, invocation_cost_dollars, invocation_duration_seconds, rate_limited_total,
  reconcile_errors_total,
}
use k8s_ai_operator.Proxy.Path.{parse_path_segments}
use k8s_ai_operator.Proxy.Limiter.{admit}
use k8s_ai_operator.Proxy.Http.{
  InvokeRequest, InvokeResponse, HttpRequest, plain, json, Reply, replied, panicked, http_error,
  Handler, Scene, Outside, capped,
}

abbrev pub endpoint_key : ModelEndpoint → EndpointKey
endpoint_key ep = record { role_arn = ep.spec.irsa_role_arn; region = ep.spec.region }

-- `costStr`
unfoldable pub cost_text : {Float : Type 0} → (Float → ℕ → Text) → CostResult Float → Text
cost_text format (cost c) = format c 6
cost_text format (unknown_model m) = lit "unknown"

unfoldable pub cost_ops : {Float : Type 0} → List Text → CostResult Float → List (MetricOp Float)
cost_ops labels (cost c) = add invocation_cost_dollars labels c ∷ []
cost_ops labels (unknown_model m) = []

abbrev pub response_of : InvokeOutput → Text → InvokeResponse
response_of out cost_usd = record {
  content = out.content;
  input_tokens = out.input_tokens;
  output_tokens = out.output_tokens;
  stop_reason = out.stop_reason;
  cost_usd = cost_usd;
}

module _ {Float Bucket Remote Tmpl : Type 0} (o : Outside Float Bucket Remote Tmpl) where
  unfoldable pub invoke_input : ModelEndpoint → InvokeRequest Float → InvokeInput Float
  invoke_input ep req = record {
    model_id = ep.spec.model_id;
    system_prompt = req.system_prompt;
    messages = req.messages;
    max_tokens = capped req.max_tokens ep.spec.max_tokens;
    temperature = req.temperature;
  }

  unfoldable pub success_ops :
      List Text → InvokeOutput → CostResult Float → Float → List (MetricOp Float)
  unfolding cost_ops
  success_ops labels out c duration =
      inc invocation_total (labels ++ lit "success" ∷ [])
      ∷ add input_tokens_total labels (o.floats.of_int out.input_tokens)
      ∷ add output_tokens_total labels (o.floats.of_int out.output_tokens)
      ∷ observe invocation_duration_seconds labels duration
      ∷ cost_ops labels c

  unfoldable pub failure_ops : List Text → List (MetricOp Float)
  failure_ops labels =
      inc invocation_total (labels ++ lit "error" ∷ [])
      ∷ inc reconcile_errors_total (lit "proxy" ∷ lit "invocation_error" ∷ [])
      ∷ []

  -- From the call of Bedrock on.
  unfoldable pub forward :
      ObjectKey
      → ModelEndpoint
      → InvokeRequest Float
      → Scene Float
      → Handler Float Bucket Remote
      → Reply × Handler Float Bucket Remote
  forward at ep req scene h =
      let labels = at.namespace ∷ at.name ∷ ep.spec.model_id ∷ [] in
      let (result, link) = invoke o.floats o.sdk (endpoint_key ep) (invoke_input ep req) h.link in
      elim result [
        | err e ↦ (
          replied (http_error (lit "bedrock error: " ++ e) 502),
          record h { link = link; metrics = h.metrics ++ failure_ops labels },
        )
        | ok out ↦
            let c = calculate_cost o.floats ep.spec.model_id out.input_tokens out.output_tokens in
            let ops = success_ops labels out c scene.elapsed in
            (
              if panics o.floats.is_negative ops
                  then panicked
                  else replied (record {
                    status = 200;
                    headers = (lit "Content-Type", lit "application/json") ∷ [];
                    body = json (response_of out (cost_text o.floats.format c));
                  }),
              record h { link = link; metrics = h.metrics ++ made o.floats.is_negative ops },
            )
      ]

  -- The rate limit, if there is one.
  unfoldable pub throttle :
      ObjectKey
      → ModelEndpoint
      → InvokeRequest Float
      → Scene Float
      → Handler Float Bucket Remote
      → Reply × Handler Float Bucket Remote
  throttle at ep req scene h = elim ep.spec.rate_limit [
    | none ↦ forward at ep req scene h
    | some limit ↦
        let (passes, m) =
          admit o.floats o.buckets at.namespace at.name limit.requests_per_minute scene.now
            h.rate_limiters in
        let h' : Handler Float Bucket Remote = record h { rate_limiters = m } in
        elim passes [
          | true ↦ forward at ep req scene h'
          | false ↦ (
            replied (record {
              status = 429;
              headers = (lit "Retry-After", lit "10") ∷ [];
              body = plain (lit "rate limit exceeded");
            }),
            record h' {
              metrics = h.metrics ++ inc rate_limited_total (at.namespace ∷ at.name ∷ []) ∷ [];
            },
          )
        ]
  ]

  unfoldable pub serve_endpoint :
      ObjectKey
      → InvokeRequest Float
      → Scene Float
      → Handler Float Bucket Remote
      → Reply × Handler Float Bucket Remote
  serve_endpoint at req scene h = elim (scene.endpoint at) [
    | err _ ↦ (replied (http_error (lit "endpoint not found") 404), h)
    | ok ep ↦
        if ep.status.available
        then throttle at ep req scene h
        else (replied (http_error (lit "endpoint not available") 503), h)
  ]

  unfoldable pub handle_invoke :
      HttpRequest → Scene Float → Handler Float Bucket Remote → Reply × Handler Float Bucket Remote
  handle_invoke r scene h =
      if r.method == lit "POST"
      then elim (parse_path_segments r.path (lit "/invoke/")) [
        | none ↦ (replied (http_error (lit "path must be /invoke/{namespace}/{name}") 400), h)
        | some (namespace, name) ↦ elim (o.decode_invoke r.body) [
          | err e ↦ (replied (http_error (lit "invalid request body: " ++ e) 400), h)
          | ok req ↦ serve_endpoint (record { namespace = namespace; name = name }) req scene h
        ]
      ]
      else (replied (http_error (lit "method not allowed") 405), h)
