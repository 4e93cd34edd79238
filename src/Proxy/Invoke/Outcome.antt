-- ===== src/Proxy/Invoke/Outcome.antt =====
-- The outcomes of HandleInvoke with their reasons.
use k8s_ai_operator.Base.{
  ℕ, Text, lit, ◌≡◌, refl, ◌≢◌, Bool, true, false, inl, inr, Option, none, some, ok, err, arith,
  text_eq, List, ◌||◌, ◌⊎◌,
}
use k8s_ai_operator.Base.Dict.{Dict}
use k8s_ai_operator.Api.Meta.{ObjectKey, RateLimitSpec}
use k8s_ai_operator.Api.Endpoint.{ModelEndpoint}
use k8s_ai_operator.Bedrock.Cost.{CostResult, cost, unknown_model, calculate_cost}
use k8s_ai_operator.Bedrock.Converse.{InvokeOutput, invoke}
use k8s_ai_operator.Metrics.{panics, is_refused}
use k8s_ai_operator.Proxy.Path.{parse_path_segments}
use k8s_ai_operator.Proxy.Limiter.{admit}
use k8s_ai_operator.Proxy.Http.{
  InvokeRequest, HttpRequest, Reply, replied, panicked, Handler, Scene, Outside,
}
use k8s_ai_operator.Proxy.Invoke.{endpoint_key, invoke_input, cost_ops, success_ops}

CostResult-cases :
    {Float : Type 0} (r : CostResult Float)
    → ((c : Float) × (r ≡ cost c)) ⊎ ((m : Text) × (r ≡ unknown_model m))
CostResult-cases (cost c) = inl (c, refl)
CostResult-cases (unknown_model m) = inr (m, refl)

abbrev pub status_of : Reply → Option ℕ
status_of (replied r) = some r.status
status_of panicked = none

module _ {Float Bucket Remote Tmpl : Type 0} (o : Outside Float Bucket Remote Tmpl) where
  -- What the endpoint's bucket says of the request, and the buckets that are left.
  abbrev pub draw :
      ObjectKey
      → RateLimitSpec
      → Scene Float
      → Handler Float Bucket Remote
      → Bool × Dict Text Bucket
  draw at l scene h =
      admit o.floats o.buckets at.namespace at.name l.requests_per_minute scene.now h.rate_limiters

  -- The endpoint has no rate limit, or its bucket lets the request pass.
  abbrev pub Passes :
      ObjectKey → Option RateLimitSpec → Scene Float → Handler Float Bucket Remote → Type 0
  Passes at none scene h = Unit
  Passes at (some l) scene h = (draw at l scene h).0 ≡ true

  -- The request names an endpoint and has a readable body.
  pub record IsRead (r : HttpRequest) (at : ObjectKey) (req : InvokeRequest Float) : Type 0 where
    pub method : r.method ≡ lit "POST"
    pub path : parse_path_segments r.path (lit "/invoke/") ≡ some (at.namespace, at.name)
    pub body : o.decode_invoke r.body ≡ ok req

  pub record IsServed (at : ObjectKey) (ep : ModelEndpoint) (scene : Scene Float) : Type 0 where
    pub found : scene.endpoint at ≡ ok ep
    pub available : ep.status.available ≡ true

  module _ (r : HttpRequest) (at : ObjectKey) (req : InvokeRequest Float) (read : IsRead r at req)
      (at' : ObjectKey) (req' : InvokeRequest Float) (other : IsRead r at' req') where
    -- A request is read in one way.
    pub IsRead-unique : (at' ≡ at) × (req' ≡ req)
    IsRead-unique =
        let ours = read.path in
        let theirs = other.path in
        let our_body = read.body in let their_body = other.body in (ground arith, ground arith)

    pub IsRead-same_endpoint :
        (scene : Scene Float) (ep ep' : ModelEndpoint)
        → scene.endpoint at ≡ ok ep
        → scene.endpoint at' ≡ ok ep'
        → ep' ≡ ep
    IsRead-same_endpoint scene ep ep' found found' = let key = IsRead-unique.0 in ground arith

  -- What is added to a counter for the answer has a negative number: one of the token counts, or the
  -- cost that is computed from them.
  abbrev pub reports_negative : Text → InvokeOutput → Bool
  reports_negative model_id out =
      o.floats.is_negative (o.floats.of_int out.input_tokens)
      || o.floats.is_negative (o.floats.of_int out.output_tokens)
      || elim (calculate_cost o.floats model_id out.input_tokens out.output_tokens) [
        | cost c ↦ o.floats.is_negative c
        | unknown_model m ↦ false
      ]

  -- The status codes with their reasons, and the reason of a panic, which has none.
  pub data Explains (r : HttpRequest) (scene : Scene Float) (h : Handler Float Bucket Remote)
      : Option ℕ → Type 0 where
    not_post : r.method ≢ lit "POST" → Explains r scene h (some 405)
    bad_path :
        r.method ≡ lit "POST"
        → parse_path_segments r.path (lit "/invoke/") ≡ none
        → Explains r scene h (some 400)
    bad_body :
        (e : Text)
        → r.method ≡ lit "POST"
        → o.decode_invoke r.body ≡ err e
        → Explains r scene h (some 400)
    no_endpoint :
        (at : ObjectKey) (req : InvokeRequest Float) (e : Text)
        → IsRead r at req
        → scene.endpoint at ≡ err e
        → Explains r scene h (some 404)
    unavailable :
        (at : ObjectKey) (req : InvokeRequest Float) (ep : ModelEndpoint)
        → IsRead r at req
        → scene.endpoint at ≡ ok ep
        → ep.status.available ≡ false
        → Explains r scene h (some 503)
    limited :
        (at : ObjectKey) (req : InvokeRequest Float) (ep : ModelEndpoint) (l : RateLimitSpec)
        → IsRead r at req
        → IsServed at ep scene
        → ep.spec.rate_limit ≡ some l
        → (draw at l scene h).0 ≡ false
        → Explains r scene h (some 429)
    failed :
        (at : ObjectKey) (req : InvokeRequest Float) (ep : ModelEndpoint) (e : Text)
        → IsRead r at req
        → IsServed at ep scene
        → Passes at ep.spec.rate_limit scene h
        → (invoke o.floats o.sdk (endpoint_key ep) (invoke_input o ep req) h.link).0 ≡ err e
        → Explains r scene h (some 502)
    done :
        (at : ObjectKey) (req : InvokeRequest Float) (ep : ModelEndpoint) (out : InvokeOutput)
        → IsRead r at req
        → IsServed at ep scene
        → Passes at ep.spec.rate_limit scene h
        → (invoke o.floats o.sdk (endpoint_key ep) (invoke_input o ep req) h.link).0 ≡ ok out
        → reports_negative ep.spec.model_id out ≡ false
        → Explains r scene h (some 200)
    broken :
        (at : ObjectKey) (req : InvokeRequest Float) (ep : ModelEndpoint) (out : InvokeOutput)
        → IsRead r at req
        → IsServed at ep scene
        → Passes at ep.spec.rate_limit scene h
        → (invoke o.floats o.sdk (endpoint_key ep) (invoke_input o ep req) h.link).0 ≡ ok out
        → reports_negative ep.spec.model_id out ≡ true
        → Explains r scene h none

  -- The reply has a status with its reason, or it is a panic with its reason.
  abbrev pub IsExplained : HttpRequest → Scene Float → Handler Float Bucket Remote → Reply → Type 0
  IsExplained r scene h reply =
      (status : Option ℕ) × (status_of reply ≡ status) × Explains r scene h status

  pub success_ops-panics :
      (model_id : Text) (out : InvokeOutput) (labels : List Text) (duration : Float)
      → panics o.floats.is_negative (
          success_ops o labels out
            (calculate_cost o.floats model_id out.input_tokens out.output_tokens)
            duration)
        ≡ reports_negative model_id out
  unfolding success_ops panics is_refused cost_ops
  success_ops-panics model_id out labels duration =
      elim (CostResult-cases
        (calculate_cost o.floats model_id out.input_tokens out.output_tokens)) [
          | inl (c, e) ↦ ground arith
          | inr (m, e) ↦ ground arith
        ]
