-- ===== src/System/Laws.antt =====
-- The health check of a reconcile decides what the proxy does.
use k8s_ai_operator.Base.{
  ℕ, Text, ◌≡◌, refl, ◌⊎◌, inl, inr, Bool, true, false, Option, none, some, ok, arith, sym, ap,
}
use k8s_ai_operator.Api.Meta.{ObjectKey, finalizer_name}
use k8s_ai_operator.Api.Endpoint.{ModelEndpoint}
use k8s_ai_operator.Bedrock.Converse.{InvokeOutput, invoke}
use k8s_ai_operator.Controller.Cluster.{found, IsKept, World}
use k8s_ai_operator.Controller.Endpoint.{Reconciler, Clock, key_of, set_finalizers, reconcile}
use k8s_ai_operator.Controller.Endpoint.Laws.{
  set_status, is_deleted, KeepsEndpoints, reconcile-IsSynced,
}
use k8s_ai_operator.Proxy.Http.{
  InvokeRequest, HttpRequest, Reply, replied, panicked, Handler, Scene, Outside,
}
use k8s_ai_operator.Proxy.Invoke.{endpoint_key, invoke_input, handle_invoke}
use k8s_ai_operator.Proxy.Invoke.Laws.{handle_invoke-IsExplained}
use k8s_ai_operator.Proxy.Invoke.Outcome.{
  status_of, reports_negative, IsRead, IsRead-unique, IsRead-same_endpoint, Explains, not_post,
  bad_path, bad_body, no_endpoint, unavailable, limited, failed, done, broken,
}
use k8s_ai_operator.Proxy.Invoke.Laws.Gate.{IsCall, handle_invoke-link}
use k8s_ai_operator.System.{fetch_endpoint}

status_of-none : (reply : Reply) → status_of reply ≡ none → reply ≡ panicked
status_of-none (replied r) e = absurd (ground arith)
status_of-none panicked e = refl

invoke_input-spec :
    {Float Bucket Remote Tmpl : Type 0} (o : Outside Float Bucket Remote Tmpl)
    (ep ep' : ModelEndpoint) (req : InvokeRequest Float)
    → ep.spec ≡ ep'.spec
    → invoke_input o ep req ≡ invoke_input o ep' req
unfolding invoke_input
invoke_input-spec o ep ep' req same = rw same refl

module _ {Float Bucket Remote Tmpl : Type 0} (o : Outside Float Bucket Remote Tmpl)
    (r : HttpRequest) (scene : Scene Float) (h : Handler Float Bucket Remote) (at : ObjectKey)
    (req : InvokeRequest Float) where
  -- Bedrock answers the call, with a negative count.
  abbrev pub IsNegativeAnswer : ModelEndpoint → Type 0
  IsNegativeAnswer ep =
      (out : InvokeOutput) × ((invoke o.floats o.sdk (endpoint_key ep) (invoke_input o ep req)
          h.link).0
        ≡ ok out)
      × (reports_negative o ep.spec.model_id out ≡ true)

  -- What HandleInvoke does for an endpoint that is there: by whether it is available.
  abbrev Follows : ModelEndpoint → Bool → Type 0
  Follows ep available =
      let answer = handle_invoke o r scene h in
      ((available ≡ false) → (status_of answer.0 ≡ some 503) × (answer.1.link ≡ h.link))
      × ((available ≡ true)
          → ((status_of answer.0 ≡ some 429)
              ⊎ (status_of answer.0 ≡ some 502)
              ⊎ (status_of answer.0 ≡ some 200)
              ⊎ ((answer.0 ≡ panicked) × IsNegativeAnswer ep))
            × ((answer.1.link ≡ h.link)
                ⊎ (answer.1.link
                    ≡ (invoke o.floats o.sdk (endpoint_key ep) (invoke_input o ep req) h.link).1)))

  -- It goes by the endpoint's spec alone.
  Follows-spec :
      (ep ep' : ModelEndpoint) (available : Bool)
      → ep.spec ≡ ep'.spec
      → Follows ep available
      → Follows ep' available
  Follows-spec ep ep' available same follows =
      let key : endpoint_key ep ≡ endpoint_key ep' =
        ap (λ spec. record { role_arn = spec.irsa_role_arn; region = spec.region }) same in
      let input = invoke_input-spec o ep ep' req same in
      let model = ap (λ spec. spec.model_id) same in rw (sym key, sym input, sym model) follows

  module _ (ep : ModelEndpoint) (read : IsRead o r at req) (there : scene.endpoint at ≡ ok ep) where
    -- The outcomes that are left for an endpoint that is there.
    abbrev Answers : Option ℕ → Type 0
    Answers status =
        ((ep.status.available ≡ false) × (status ≡ some 503))
        ⊎ ((ep.status.available ≡ true)
            × ((status ≡ some 429)
                ⊎ (status ≡ some 502)
                ⊎ (status ≡ some 200)
                ⊎ ((status ≡ none) × IsNegativeAnswer ep)))

    Explains-Answers : (status : Option ℕ) → Explains o r scene h status → Answers status
    Explains-Answers n (not_post other) = absurd (other read.method)
    Explains-Answers n (bad_path post bad) = let ours = read.path in absurd (ground arith)
    Explains-Answers n (bad_body e post bad) = let ours = read.body in absurd (ground arith)
    Explains-Answers n (no_endpoint at' req' e read' missing) =
        let key = (IsRead-unique o r at req read at' req' read').0 in absurd (ground arith)
    Explains-Answers n (unavailable at' req' ep' read' there' off) = inl (
      rw (← IsRead-same_endpoint o r at req read at' req' read' scene ep ep' there there') off,
      refl,
    )
    Explains-Answers n (limited at' req' ep' l read' served limit refused) = inr (
      rw (← IsRead-same_endpoint o r at req read at' req' read' scene ep ep' there served.found)
          served.available,
      inl refl,
    )
    Explains-Answers n (failed at' req' ep' e read' served passes result) = inr (
      rw (← IsRead-same_endpoint o r at req read at' req' read' scene ep ep' there served.found)
          served.available,
      inr (inl refl),
    )
    Explains-Answers n (done at' req' ep' out read' served passes result good) = inr (
      rw (← IsRead-same_endpoint o r at req read at' req' read' scene ep ep' there served.found)
          served.available,
      inr (inr (inl refl)),
    )
    Explains-Answers n (broken at' req' ep' out read' served passes result bad) =
        let same =
          IsRead-same_endpoint o r at req read at' req' read' scene ep ep' there served.found in
        let asked = (IsRead-unique o r at req read at' req' read').1 in
        inr (
          rw (← same) served.available,
          inr (inr (inr (refl, (out, rw (← same, ← asked) result, rw (← same) bad)))),
        )

    -- A call of Bedrock is for the endpoint that was named, and only if it is available.
    IsCall-named :
        (t : Handler Float Bucket Remote)
        → IsCall o r scene h t
        → (ep.status.available ≡ true)
          × (t.link ≡ (invoke o.floats o.sdk (endpoint_key ep) (invoke_input o ep req) h.link).1)
    IsCall-named t call =
        let a = call.admitted in
        let same =
          IsRead-same_endpoint o r at req read a.at a.req a.read scene ep a.ep there
            a.served.found in
        let asked = (IsRead-unique o r at req read a.at a.req a.read).1 in
        (rw (← same) a.served.available, rw (← same, ← asked) call.called)

    handle_invoke-Follows : Follows ep ep.status.available
    handle_invoke-Follows =
        let (n, code, why) = handle_invoke-IsExplained o r scene h in
        let answers = Explains-Answers n why in
        let link = handle_invoke-link o r scene h in
        (
          λ off. (
            elim answers [
              | inl (_, same) ↦ rw (code, same) refl
              | inr (on, _) ↦ absurd (ground arith)
            ],
            elim link [
              | inl (_, same) ↦ same
              | inr call ↦ let (on, _) = IsCall-named _ call in absurd (ground arith)
            ],
          ),
          λ on. (
            elim answers [
              | inl (off, _) ↦ absurd (ground arith)
              | inr (_, codes) ↦ elim codes [
                | inl e ↦ inl (rw (code, e) refl)
                | inr (inl e) ↦ inr (inl (rw (code, e) refl))
                | inr (inr (inl e)) ↦ inr (inr (inl (rw (code, e) refl)))
                | inr (inr (inr (e, why))) ↦
                    inr
                      (inr (inr (status_of-none (handle_invoke o r scene h).0 (ground arith), why)))
              ]
            ],
            elim link [ inl (_, same) ↦ inl same | inr call ↦ inr (IsCall-named _ call).1 ],
          ),
        )

module _ {S B Float Bucket Remote Tmpl : Type 0} (c : Reconciler S B Float) (clock : Clock)
    (key : ObjectKey) (o : Outside Float Bucket Remote Tmpl) (absent : Text) where
  -- A request to an endpoint that a reconcile has brought into step without an error, and that the proxy
  -- reads as the reconcile left it, does what the reconcile's health check found, if its method, path
  -- and body can be read: if the model was not available, HandleInvoke answers 503 and leaves Bedrock and the client cache alone; if it was, the answer is 200, 502 or 429, or a panic if
  -- Bedrock answers with a negative token count or cost, and a call of Bedrock has the role and the
  -- region that were checked, and the endpoint's model and cap.
  pub handle_invoke-reconcile :
      (ep : ModelEndpoint) (w : World S B Float) (r : HttpRequest) (req : InvokeRequest Float)
      (scene : Scene Float) (h : Handler Float Bucket Remote)
      → IsKept c.endpoints set_finalizers set_status is_deleted
      → KeepsEndpoints c
      → c.endpoints.get key w.cluster ≡ found ep
      → is_deleted ep ≡ false
      → c.finalizers.contains ep.meta.finalizers finalizer_name ≡ true
      → (reconcile c clock key w).0.error ≡ none
      → IsRead o r key req
      → scene.endpoint ≡ fetch_endpoint c.endpoints absent (reconcile c clock key w).1.cluster
      → let health = (c.bedrock.health_check (key_of ep) ep.spec.model_id w.bedrock).0 in
        let answer = handle_invoke o r scene h in
        (health.available ≡ false → (status_of answer.0 ≡ some 503) × (answer.1.link ≡ h.link))
        × (health.available ≡ true
            → ((status_of answer.0 ≡ some 429)
                ⊎ (status_of answer.0 ≡ some 502)
                ⊎ (status_of answer.0 ≡ some 200)
                ⊎ ((answer.0 ≡ panicked)
                    × ((out : InvokeOutput) × ((invoke o.floats o.sdk
                            (key_of ep)
                            (invoke_input o ep req)
                            h.link).0
                          ≡ ok out)
                        × (reports_negative o ep.spec.model_id out ≡ true))))
              × ((answer.1.link ≡ h.link)
                  ⊎ (answer.1.link
                      ≡ (invoke o.floats o.sdk (key_of ep) (invoke_input o ep req) h.link).1)))
  unfolding fetch_endpoint
  handle_invoke-reconcile ep w r req scene h kept keeps here live has quiet read seen =
      let (ep', there, meta, spec, synced) =
        (reconcile-IsSynced c clock key ep w kept keeps here live has quiet).0 in
      let given : scene.endpoint key ≡ ok ep' = rw (seen, fetch_endpoint, there) in
      rw (sym synced.available) (
        Follows-spec o r scene h key req ep' ep ep'.status.available spec
          (handle_invoke-Follows o r scene h key req ep' read given))
