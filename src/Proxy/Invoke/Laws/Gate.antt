-- ===== src/Proxy/Invoke/Laws/Gate.antt =====
-- When HandleInvoke calls Bedrock, and that its metric calls name every label.
use k8s_ai_operator.Base.{
  Text, lit, ◌≡◌, refl, ◌⊎◌, subst, sym, true, false, Bool-cases, inl, inr, Option-cases, some, [],
  ◌∷◌, ◌++◌, All-append, Result-cases, ok, err, arith, text_eq,
}
use k8s_ai_operator.Api.Meta.{ObjectKey, RateLimitSpec}
use k8s_ai_operator.Api.Endpoint.{ModelEndpoint}
use k8s_ai_operator.Bedrock.Converse.{invoke}
use k8s_ai_operator.Metrics.{HasLabels, label_names, inc, rate_limited_total}
use k8s_ai_operator.Proxy.Path.{parse_path_segments}
use k8s_ai_operator.Proxy.Http.{InvokeRequest, HttpRequest, Handler, Scene, Outside}
use k8s_ai_operator.Proxy.Invoke.Labels.{
  AreLabelled, made-AreLabelled, success_ops-AreLabelled, failure_ops-AreLabelled,
}
use k8s_ai_operator.Proxy.Invoke.{
  endpoint_key, invoke_input, forward, throttle, serve_endpoint, handle_invoke,
}
use k8s_ai_operator.Proxy.Invoke.Laws.{throttle_pass, throttle_refuse, throttle_free}
use k8s_ai_operator.Proxy.Invoke.Outcome.{
  draw, Passes, IsRead, IsServed, IsRead-unique, IsRead-same_endpoint,
}

module _ {Float Bucket Remote Tmpl : Type 0} (o : Outside Float Bucket Remote Tmpl) where
  -- The request passes every guard before the call of Bedrock.
  pub record IsAdmitted (r : HttpRequest) (scene : Scene Float) (h : Handler Float Bucket Remote)
      : Type 0 where
    pub at : ObjectKey
    pub req : InvokeRequest Float
    pub ep : ModelEndpoint
    pub read : IsRead o r at req
    pub served : IsServed o at ep scene
    pub passes : Passes o at ep.spec.rate_limit scene h

  -- Bedrock was called once, for the endpoint that the admitted request names.
  pub record IsCall (r : HttpRequest) (scene : Scene Float) (h t : Handler Float Bucket Remote)
      : Type 0 where
    pub admitted : IsAdmitted r scene h
    pub called :
        t.link
        ≡ (invoke o.floats o.sdk
            (endpoint_key admitted.ep)
            (invoke_input o admitted.ep admitted.req)
            h.link).1

  -- The request is not admitted and Bedrock and its client are untouched, or there was one call.
  abbrev pub IsOneCall :
      HttpRequest → Scene Float → Handler Float Bucket Remote → Handler Float Bucket Remote → Type 0
  IsOneCall r scene h t = (¬ IsAdmitted r scene h × (t.link ≡ h.link)) ⊎ IsCall r scene h t

  -- One call or none, and the metric calls stay well labelled.
  abbrev pub IsGated :
      HttpRequest → Scene Float → Handler Float Bucket Remote → Handler Float Bucket Remote → Type 0
  IsGated r scene h t = IsOneCall r scene h t × (AreLabelled h.metrics → AreLabelled t.metrics)

  module _ (r : HttpRequest) (scene : Scene Float) (h : Handler Float Bucket Remote)
      (at : ObjectKey) (req : InvokeRequest Float) where
    forward-link :
        (ep : ModelEndpoint) (h' : Handler Float Bucket Remote)
        → (forward o at ep req scene h').1.link
          ≡ (invoke o.floats o.sdk (endpoint_key ep) (invoke_input o ep req) h'.link).1
    unfolding forward
    forward-link ep h' = ground arith

    forward-AreLabelled :
        (ep : ModelEndpoint) (h' : Handler Float Bucket Remote)
        → AreLabelled h'.metrics
        → AreLabelled (forward o at ep req scene h').1.metrics
    unfolding forward
    forward-AreLabelled ep h' good =
        elim (Result-cases
          (invoke o.floats o.sdk (endpoint_key ep) (invoke_input o ep req) h'.link).0) [
            | inl (out, e) ↦
                rw (e, forward)
                  (All-append HasLabels h'.metrics _ good (
                    made-AreLabelled o.floats.is_negative _
                      (success_ops-AreLabelled o _ _ _ out _ _)))
            | inr (m, e) ↦
                rw (e, forward)
                  (All-append HasLabels h'.metrics _ good (failure_ops-AreLabelled o _ _ _))
          ]

    one-IsCall :
        (ep : ModelEndpoint) (t : Handler Float Bucket Remote)
        → IsRead o r at req
        → IsServed o at ep scene
        → Passes o at ep.spec.rate_limit scene h
        → t.link ≡ (invoke o.floats o.sdk (endpoint_key ep) (invoke_input o ep req) h.link).1
        → IsCall r scene h t
    one-IsCall ep t read served passes called = record {
      admitted = record {
        at = at;
        req = req;
        ep = ep;
        read = read;
        served = served;
        passes = passes;
      };
      called = called;
    }

    IsAdmitted-refused :
        (ep : ModelEndpoint) (l : RateLimitSpec)
        → IsRead o r at req
        → IsServed o at ep scene
        → ep.spec.rate_limit ≡ some l
        → (draw o at l scene h).0 ≡ false
        → ¬ IsAdmitted r scene h
    IsAdmitted-refused ep l read served e refused a =
        let same_at = (IsRead-unique o r at req read a.at a.req a.read).0 in
        let same_ep =
          IsRead-same_endpoint o r at req read a.at a.req a.read scene ep a.ep served.found
            a.served.found in
        let own : Passes o at ep.spec.rate_limit scene h = rw (sym same_ep, sym same_at) a.passes in
        let passes : (draw o at l scene h).0 ≡ true = subst (λ x. Passes o at x scene h) e own in
        absurd (ground arith)

    throttle_refuse-AreLabelled :
        (ep : ModelEndpoint) (l : RateLimitSpec)
        → ep.spec.rate_limit ≡ some l
        → (draw o at l scene h).0 ≡ false
        → AreLabelled h.metrics
        → AreLabelled (throttle o at ep req scene h).1.metrics
    unfolding throttle label_names
    throttle_refuse-AreLabelled ep l e refused good =
        let same : (throttle o at ep req scene h).1.metrics
            ≡ h.metrics ++ inc rate_limited_total (at.namespace ∷ at.name ∷ []) ∷ [] =
          ground arith in
        rw same (All-append HasLabels h.metrics _ good (refl, tt))

    throttle-IsGated :
        (ep : ModelEndpoint)
        → IsRead o r at req
        → IsServed o at ep scene
        → IsGated r scene h (throttle o at ep req scene h).1
    throttle-IsGated ep read served = elim (Option-cases ep.spec.rate_limit) [
      | inl free ↦ rw (throttle_free o r scene h at req read ep free) (
        inr (one-IsCall ep _ read served (rw free tt) (forward-link ep h)),
        forward-AreLabelled ep h,
      )
      | inr (l, e) ↦ elim (Bool-cases (draw o at l scene h).0) [
        | inl passes ↦ rw (throttle_pass o r scene h at req read ep l e passes) (
          inr (one-IsCall ep _ read served (rw e passes) (forward-link ep _)),
          forward-AreLabelled ep (record h { rate_limiters = (draw o at l scene h).1 }),
        )
        | inr refused ↦ (
          inl (
            IsAdmitted-refused ep l read served e refused,
            (throttle_refuse o r scene h at req read ep l e refused).1,
          ),
          throttle_refuse-AreLabelled ep l e refused,
        )
      ]
    ]

    IsAdmitted-absent :
        (e : Text) → IsRead o r at req → scene.endpoint at ≡ err e → ¬ IsAdmitted r scene h
    IsAdmitted-absent e read absent a =
        let same_at = (IsRead-unique o r at req read a.at a.req a.read).0 in
        let there = a.served.found in absurd (ground arith)

    IsAdmitted-off :
        (ep : ModelEndpoint)
        → IsRead o r at req
        → scene.endpoint at ≡ ok ep
        → ep.status.available ≡ false
        → ¬ IsAdmitted r scene h
    IsAdmitted-off ep read found off a =
        let same_ep =
          IsRead-same_endpoint o r at req read a.at a.req a.read scene ep a.ep found
            a.served.found in
        let on : ep.status.available ≡ true = rw (sym same_ep) a.served.available in
        absurd (ground arith)

    serve-IsGated : IsRead o r at req → IsGated r scene h (serve_endpoint o at req scene h).1
    unfolding serve_endpoint
    serve-IsGated read = elim (Result-cases (scene.endpoint at)) [
      | inr (e, absent) ↦
          rw (absent, serve_endpoint) (inl (IsAdmitted-absent e read absent, refl), λ good. good)
      | inl (ep, found) ↦ elim (Bool-cases ep.status.available) [
        | inr off ↦
            rw (found, serve_endpoint)
              (rw off (inl (IsAdmitted-off ep read found off, refl), λ good. good))
        | inl on ↦
            let served : IsServed o at ep scene = record { found = found; available = on } in
            let same : serve_endpoint o at req scene h ≡ throttle o at ep req scene h =
              ground arith in
            rw same (throttle-IsGated ep read served)
      ]
    ]

  handle_invoke-IsGated :
      (r : HttpRequest) (scene : Scene Float) (h : Handler Float Bucket Remote)
      → IsGated r scene h (handle_invoke o r scene h).1
  unfolding handle_invoke
  handle_invoke-IsGated r scene h = elim (text_eq.dec r.method (lit "POST")) [
    | no other ↦
        let same : (handle_invoke o r scene h).1 ≡ h = ground arith in
        rw same (inl ((λ a. other a.read.method), refl), λ good. good)
    | yes post ↦ elim (Option-cases (parse_path_segments r.path (lit "/invoke/"))) [
      | inl bad ↦
          let same : (handle_invoke o r scene h).1 ≡ h = ground arith in
          rw same (inl ((λ a. let p = a.read.path in absurd (ground arith)), refl), λ good. good)
      | inr ((namespace, name), e) ↦ elim (Result-cases (o.decode_invoke r.body)) [
        | inr (m, bad) ↦
            let same : (handle_invoke o r scene h).1 ≡ h = ground arith in
            rw same (inl ((λ a. let b = a.read.body in absurd (ground arith)), refl), λ good. good)
        | inl (req, read) ↦
            let at : ObjectKey = record { namespace = namespace; name = name } in
            let same : handle_invoke o r scene h ≡ serve_endpoint o at req scene h = ground arith in
            rw same
              (serve-IsGated r scene h at req (record { method = post; path = e; body = read }))
      ]
    ]
  ]

  -- HandleInvoke makes exactly one call of Bedrock, with the endpoint's role, region, model and cap, if
  -- the request is a POST with a readable path and body for an endpoint that is found, is available
  -- and has no rate limit or a bucket that lets the request pass. Of any other request it leaves
  -- Bedrock and the client cache as they were.
  pub handle_invoke-link :
      (r : HttpRequest) (scene : Scene Float) (h : Handler Float Bucket Remote)
      → (¬ IsAdmitted r scene h × ((handle_invoke o r scene h).1.link ≡ h.link))
        ⊎ IsCall r scene h (handle_invoke o r scene h).1
  handle_invoke-link r scene h = (handle_invoke-IsGated r scene h).0

  -- No metric call of HandleInvoke can panic for its labels: each gives a value for every label of its
  -- metric.
  pub handle_invoke-AreLabelled :
      (r : HttpRequest) (scene : Scene Float) (h : Handler Float Bucket Remote)
      → AreLabelled h.metrics
      → AreLabelled (handle_invoke o r scene h).1.metrics
  handle_invoke-AreLabelled r scene h = (handle_invoke-IsGated r scene h).1
