-- ===== src/Proxy/Invoke/Laws.antt =====
-- What HandleInvoke answers, and in the children when it calls Bedrock and with which token limit.
pub mod Gate
pub mod Tokens
use k8s_ai_operator.Base.{
  lit, ◌≡◌, refl, Bool, true, false, Bool-cases, inl, inr, Option, Option-cases, none, some, Result,
  Result-cases, ok, err, arith, text_eq, [], ◌∷◌,
}
use k8s_ai_operator.Api.Meta.{ObjectKey, RateLimitSpec}
use k8s_ai_operator.Api.Endpoint.{ModelEndpoint}
use k8s_ai_operator.Bedrock.Converse.{invoke}
use k8s_ai_operator.Metrics.{panics}
use k8s_ai_operator.Proxy.Path.{parse_path_segments}
use k8s_ai_operator.Proxy.Http.{InvokeRequest, HttpRequest, http_error, Handler, Scene, Outside}
use k8s_ai_operator.Proxy.Invoke.{
  endpoint_key, invoke_input, success_ops, forward, throttle, serve_endpoint, handle_invoke,
}
use k8s_ai_operator.Proxy.Invoke.Outcome.{
  status_of, draw, Passes, IsRead, IsServed, reports_negative, IsExplained, not_post, bad_path,
  bad_body, no_endpoint, unavailable, limited, failed, done, broken, success_ops-panics,
}

module _ {Float Bucket Remote Tmpl : Type 0} (o : Outside Float Bucket Remote Tmpl) where
  module _ (r : HttpRequest) (scene : Scene Float) (h : Handler Float Bucket Remote)
      (at : ObjectKey) (req : InvokeRequest Float) (read : IsRead o r at req) where
    forward-IsExplained :
        (ep : ModelEndpoint) (h' : Handler Float Bucket Remote)
        → h'.link ≡ h.link
        → IsServed o at ep scene
        → Passes o at ep.spec.rate_limit scene h
        → IsExplained o r scene h (forward o at ep req scene h').0
    unfolding forward http_error
    forward-IsExplained ep h' same served passes =
        elim (Result-cases
          (invoke o.floats o.sdk (endpoint_key ep) (invoke_input o ep req) h.link).0) [
            | inl (out, e) ↦
                let refusal =
                  success_ops-panics o ep.spec.model_id out
                    (at.namespace ∷ at.name ∷ ep.spec.model_id ∷ []) scene.elapsed in
                elim (Bool-cases (reports_negative o ep.spec.model_id out)) [
                  | inl bad ↦ (none, ground arith, broken at req ep out read served passes e bad)
                  | inr good ↦
                      (some 200, ground arith, done at req ep out read served passes e good)
                ]
            | inr (m, e) ↦ (some 502, ground arith, failed at req ep m read served passes e)
          ]

    pub throttle_pass :
        (ep : ModelEndpoint) (l : RateLimitSpec)
        → ep.spec.rate_limit ≡ some l
        → (draw o at l scene h).0 ≡ true
        → throttle o at ep req scene h
          ≡ forward o at ep req scene (record h { rate_limiters = (draw o at l scene h).1 })
    unfolding throttle
    throttle_pass ep l e yes_ = ground arith

    pub throttle_refuse :
        (ep : ModelEndpoint) (l : RateLimitSpec)
        → ep.spec.rate_limit ≡ some l
        → (draw o at l scene h).0 ≡ false
        → (status_of (throttle o at ep req scene h).0 ≡ some 429)
          × ((throttle o at ep req scene h).1.link ≡ h.link)
    unfolding throttle
    throttle_refuse ep l e refused = ground arith

    pub throttle_free :
        (ep : ModelEndpoint)
        → ep.spec.rate_limit ≡ none
        → throttle o at ep req scene h ≡ forward o at ep req scene h
    unfolding throttle
    throttle_free ep e = ground arith

    throttle-IsExplained :
        (ep : ModelEndpoint)
        → IsServed o at ep scene
        → IsExplained o r scene h (throttle o at ep req scene h).0
    throttle-IsExplained ep served = elim (Option-cases ep.spec.rate_limit) [
      | inl free ↦ rw (throttle_free ep free) (forward-IsExplained ep h refl served (rw free tt))
      | inr (l, e) ↦ elim (Bool-cases (draw o at l scene h).0) [
        | inl passes ↦
            rw (throttle_pass ep l e passes) (forward-IsExplained ep _ refl served (rw e passes))
        | inr refused ↦ (
          some 429,
          (throttle_refuse ep l e refused).0,
          limited at req ep l read served e refused,
        )
      ]
    ]

    serve-IsExplained : IsExplained o r scene h (serve_endpoint o at req scene h).0
    unfolding serve_endpoint http_error
    serve-IsExplained = elim (Result-cases (scene.endpoint at)) [
      | inr (e, absent) ↦ (some 404, ground arith, no_endpoint at req e read absent)
      | inl (ep, found) ↦ elim (Bool-cases ep.status.available) [
        | inr off ↦ (some 503, ground arith, unavailable at req ep read found off)
        | inl on ↦
            let served : IsServed o at ep scene = record { found = found; available = on } in
            let same : serve_endpoint o at req scene h ≡ throttle o at ep req scene h =
              ground arith in
            rw same (throttle-IsExplained ep served)
      ]
    ]

  -- Each outcome of HandleInvoke has its reason: 405 another method than POST, 400 a path or body that
  -- cannot be read, 404 an error of the look-up of the endpoint, 503 an endpoint that is not
  -- available, 429 a bucket that refuses, 502 an error of Bedrock and 200 its answer. It panics, with
  -- no reply, only if Bedrock answers with a negative token count or cost, which a counter refuses. The
  -- last three are only for an available endpoint whose bucket lets the request pass.
  pub handle_invoke-IsExplained :
      (r : HttpRequest) (scene : Scene Float) (h : Handler Float Bucket Remote)
      → IsExplained o r scene h (handle_invoke o r scene h).0
  unfolding handle_invoke http_error
  handle_invoke-IsExplained r scene h = elim (text_eq.dec r.method (lit "POST")) [
    | no other ↦ (some 405, ground arith, not_post other)
    | yes post ↦ elim (Option-cases (parse_path_segments r.path (lit "/invoke/"))) [
      | inl bad ↦ (some 400, ground arith, bad_path post bad)
      | inr ((namespace, name), e) ↦ elim (Result-cases (o.decode_invoke r.body)) [
        | inr (m, bad) ↦ (some 400, ground arith, bad_body m post bad)
        | inl (req, read) ↦
            let at : ObjectKey = record { namespace = namespace; name = name } in
            let same : handle_invoke o r scene h ≡ serve_endpoint o at req scene h = ground arith in
            rw same
              (serve-IsExplained r scene h at req (record { method = post; path = e; body = read }))
      ]
    ]
  ]
