-- ===== src/Tests/System.antt =====
-- A reconcile, and a request to the endpoint after it.
use k8s_ai_operator.Base.{
  ok, ℕ, pos, lit, ◌≡◌, refl, ◌⊎◌, true, false, some, text_eq, cut_prefix, nat_eq,
}
use k8s_ai_operator.Bedrock.Converse.{InvokeOutput, invoke}
use k8s_ai_operator.Controller.Endpoint.{key_of, reconcile}
use k8s_ai_operator.Proxy.Path.{parse_path_segments, trim_prefix, cut_at}
use k8s_ai_operator.Proxy.Http.{panicked, Scene}
use k8s_ai_operator.Proxy.Invoke.{invoke_input, handle_invoke}
use k8s_ai_operator.Proxy.Invoke.Outcome.{status_of, reports_negative, IsRead}
use k8s_ai_operator.System.{fetch_endpoint}
use k8s_ai_operator.System.Laws.{handle_invoke-reconcile}
use k8s_ai_operator.Tests.World.{endpoint, outside, aws, fixed, handler, link, scene, post, asking}
use k8s_ai_operator.Tests.Status.{
  reconciler, reconciler-IsKept, reconciler-KeepsEndpoints, clock, key, world, has_finalizer,
  endpoint_quiet,
}

request_path :
    parse_path_segments (lit "/invoke/team/haiku") (lit "/invoke/") ≡ some (lit "team", lit "haiku")
unfolding parse_path_segments trim_prefix cut_prefix cut_at text_eq nat_eq lit
request_path = refl

request-IsRead : IsRead outside (post (lit "/invoke/team/haiku")) key (asking (pos 9000))
request-IsRead = record { method = refl; path = request_path; body = refl }

-- The proxy sees the cluster that the reconcile left.
abbrev later : Scene ℕ
later = record scene {
  endpoint =
      fetch_endpoint reconciler.endpoints (lit "not found")
        (reconcile reconciler clock key (world endpoint)).1.cluster;
}

handle_invoke-reconcile_example :
    let answer = handle_invoke outside (post (lit "/invoke/team/haiku")) later handler in
    (true ≡ false → (status_of answer.0 ≡ some 503) × (answer.1.link ≡ handler.link))
    × (true ≡ true
        → ((status_of answer.0 ≡ some 429)
            ⊎ (status_of answer.0 ≡ some 502)
            ⊎ (status_of answer.0 ≡ some 200)
            ⊎ ((answer.0 ≡ panicked)
                × ((out : InvokeOutput) × ((invoke fixed aws
                        (key_of endpoint)
                        (invoke_input outside endpoint (asking (pos 9000)))
                        link).0
                      ≡ ok out)
                    × (reports_negative outside endpoint.spec.model_id out ≡ true))))
          × ((answer.1.link ≡ handler.link)
              ⊎ (answer.1.link
                  ≡ (invoke fixed aws
                      (key_of endpoint)
                      (invoke_input outside endpoint (asking (pos 9000)))
                      link).1)))
handle_invoke-reconcile_example =
    handle_invoke-reconcile reconciler clock key outside (lit "not found") endpoint (world endpoint)
      (post (lit "/invoke/team/haiku")) (asking (pos 9000)) later handler reconciler-IsKept
      reconciler-KeepsEndpoints refl refl has_finalizer endpoint_quiet request-IsRead refl
