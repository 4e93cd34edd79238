-- ===== src/Tests/Requests.antt =====
-- Requests to the proxy.
use k8s_ai_operator.Base.{
  ℤ, pos, negsuc, ◌≤ℤ◌, lit, ◌≡◌, refl, ◌≢◌, ◌⊎◌, inl, none, some, List, [], ◌∷◌, true, false,
  arith, text_eq, nat_eq, int_eq, cut_prefix,
}
use k8s_ai_operator.Base.Dict
use k8s_ai_operator.Base.Dict.{Dict}
use k8s_ai_operator.Api.Template.{TemplateVariable}
use k8s_ai_operator.Bedrock.Cost.{calculate_cost, pricing, rows}
use k8s_ai_operator.Bedrock.Client.{runtime_client, assume_role_config, key_eq}
use k8s_ai_operator.Bedrock.Converse.{invoke, converse_request, first_text}
use k8s_ai_operator.Metrics.{panics, is_refused}
use k8s_ai_operator.Proxy.Path.{parse_path_segments, trim_prefix, cut_at}
use k8s_ai_operator.Proxy.Limiter.{new_bucket, burst, limiter_key, admit}
use k8s_ai_operator.Proxy.Limiter.Laws.{limiter_key-parse}
use k8s_ai_operator.Proxy.Http.{panicked}
use k8s_ai_operator.Proxy.Invoke.{
  success_ops, cost_ops, handle_invoke, serve_endpoint, throttle, forward, cost_text,
}
use k8s_ai_operator.Proxy.Invoke.Laws.{handle_invoke-IsExplained}
use k8s_ai_operator.Proxy.Invoke.Outcome.{IsExplained, status_of}
use k8s_ai_operator.Proxy.Invoke.Laws.Gate.{IsAdmitted, IsCall, handle_invoke-link}
use k8s_ai_operator.Proxy.Invoke.Laws.Tokens.{sent_limit, sent_limit-le-cap, sent_limit-negative}
use k8s_ai_operator.Proxy.Render.{
  Variables, filled, fill_variables, fill_one, supplied, handle_render,
}
use k8s_ai_operator.Proxy.Render.Laws.{
  value_of, default_of, or_else, HasUniqueNames, fill_variables-value,
}
use k8s_ai_operator.Proxy.Render.Laws.Gate.{
  IsRender, handle_render-IsRender, handle_render-panicked,
}
use k8s_ai_operator.Tests.World.{outside, asking, endpoint, template, scene, handler, post}

invoke_path :
    parse_path_segments (lit "/invoke/team/haiku") (lit "/invoke/") ≡ some (lit "team", lit "haiku")
unfolding parse_path_segments trim_prefix cut_prefix cut_at nat_eq text_eq lit
invoke_path = refl

limiter_key-parse_example : (lit "team" ≡ lit "team") × (lit "haiku" ≡ lit "haiku")
limiter_key-parse_example =
    limiter_key-parse (lit "/invoke/team/haiku") (lit "/invoke/team/haiku") (lit "/invoke/")
      (lit "team") (lit "haiku") (lit "team") (lit "haiku") invoke_path invoke_path refl

handle_invoke-IsExplained_example :
    IsExplained outside
      (post (lit "/invoke/team/haiku"))
      scene
      handler
      (handle_invoke outside (post (lit "/invoke/team/haiku")) scene handler).0
handle_invoke-IsExplained_example =
    handle_invoke-IsExplained outside (post (lit "/invoke/team/haiku")) scene handler

handle_invoke-link_example :
    (¬ IsAdmitted outside (post (lit "/invoke/team/haiku")) scene handler
      × ((handle_invoke outside (post (lit "/invoke/team/haiku")) scene handler).1.link
          ≡ handler.link))
    ⊎ IsCall outside
        (post (lit "/invoke/team/haiku"))
        scene
        handler
        (handle_invoke outside (post (lit "/invoke/team/haiku")) scene handler).1
handle_invoke-link_example =
    handle_invoke-link outside (post (lit "/invoke/team/haiku")) scene handler

serving : Unit {0}
unfolding handle_invoke serve_endpoint throttle forward success_ops cost_ops panics is_refused admit
    new_bucket burst limiter_key invoke converse_request first_text runtime_client
    assume_role_config Dict.get Dict.put parse_path_segments trim_prefix cut_prefix cut_at
    calculate_cost pricing rows cost_text text_eq nat_eq key_eq int_eq lit
serving = tt

-- The whole run: the request asks for 9000 tokens of an endpoint with a cap of 4096.
invoke_served :
    status_of (handle_invoke outside (post (lit "/invoke/team/haiku")) scene handler).0 ≡ some 200
unfolding serving
invoke_served = refl

sent_limit-le-cap_example :
    (n : ℤ) × (sent_limit outside endpoint (asking (pos 9000)) ≡ some n)
    × (n ≤ℤ pos 4096)
    × (pos 1 ≤ℤ pos 9000 → pos 9000 ≤ℤ pos 4096 → n ≡ pos 9000)
sent_limit-le-cap_example =
    sent_limit-le-cap outside endpoint (asking (pos 9000)) (pos 4096) refl (omega arith)
      (omega arith)

sent_limit-negative_example : sent_limit outside endpoint (asking (negsuc 0)) ≡ none
sent_limit-negative_example =
    sent_limit-negative outside endpoint (asking (negsuc 0)) (pos 4096) 0 refl (omega arith) refl

handle_render-IsRender_example :
    IsRender outside
      (post (lit "/render/team/review"))
      scene
      handler
      (handle_render outside (post (lit "/render/team/review")) scene handler)
handle_render-IsRender_example =
    handle_render-IsRender outside (post (lit "/render/team/review")) scene handler

pub render_path :
    parse_path_segments (lit "/render/team/review") (lit "/render/")
    ≡ some (lit "team", lit "review")
unfolding parse_path_segments trim_prefix cut_prefix cut_at nat_eq text_eq lit
render_path = refl

polite-ne-nil : lit "polite" ≢ []
unfolding lit
polite-ne-nil h = cc

handle_render-panicked_example :
    handle_render outside (post (lit "/render/team/review")) scene handler ≡ (panicked, handler)
handle_render-panicked_example =
    handle_render-panicked outside (post (lit "/render/team/review")) scene handler
      (record { namespace = lit "team"; name = lit "review" }) (record { variables = none })
      template refl render_path refl refl refl (refl, tt) (inl polite-ne-nil)

abbrev given : Variables
given = some ((lit "Diff", lit "+1") ∷ [])

abbrev wanted : List TemplateVariable
wanted =
    record { name = lit "Diff"; kind = []; required = true; fallback = []; description = [] }
    ∷ record {
      name = lit "Tone";
      kind = [];
      required = false;
      fallback = lit "polite";
      description = [];
    }
    ∷ []

abbrev completed : Variables
completed = some ((lit "Diff", lit "+1") ∷ (lit "Tone", lit "polite") ∷ [])

wanted_filled : fill_variables wanted given ≡ filled completed
unfolding fill_variables fill_one supplied Dict.get Dict.put text_eq lit
wanted_filled = refl

fill_variables-value_example :
    value_of (lit "Tone") completed
    ≡ or_else (value_of (lit "Tone") given) (default_of (lit "Tone") wanted)
fill_variables-value_example =
    fill_variables-value wanted given completed (lit "Tone") wanted_filled

wanted-HasUniqueNames : HasUniqueNames wanted
unfolding lit
wanted-HasUniqueNames = (((λ h. ground arith), tt), (tt, tt))
