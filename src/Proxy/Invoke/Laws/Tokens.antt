-- ===== src/Proxy/Invoke/Laws/Tokens.antt =====
-- The token limit that reaches Bedrock, from the request and the endpoint's cap.
use k8s_ai_operator.Base.{
  ℕ, ℤ, pos, negsuc, ◌≤ℤ◌, lt_int, ◌≡◌, Option, none, some, arith, int_eq, if◌then◌else◌, true,
}
use k8s_ai_operator.Base.Floats.{FloatOps}
use k8s_ai_operator.Api.Endpoint.{ModelEndpoint}
use k8s_ai_operator.Bedrock.Converse.{converse_request, inference_config}
use k8s_ai_operator.Bedrock.Converse.Laws.{limit_of}
use k8s_ai_operator.Proxy.Http.{InvokeRequest, Outside, capped}
use k8s_ai_operator.Proxy.Invoke.{invoke_input}

limit_of-inference_config :
    {Float : Type 0} (fl : FloatOps Float) (n : ℤ) (t : Float)
    → limit_of (inference_config fl n t) ≡ (if lt_int (pos 0) n then some n else none)
unfolding inference_config
limit_of-inference_config fl n t = ground arith

capped_bounds :
    (n cap : ℤ)
    → pos 1 ≤ℤ cap
    → pos 0 ≤ℤ n
    → (lt_int (pos 0) (capped n (some cap)) ≡ true)
      × (capped n (some cap) ≤ℤ cap)
      × (pos 1 ≤ℤ n → n ≤ℤ cap → capped n (some cap) ≡ n)
unfolding capped
capped_bounds (pos n) (pos cap) low asked = ground arith
capped_bounds (negsuc n) cap low asked = absurd asked
capped_bounds (pos n) (negsuc cap) low asked = absurd low

capped_negative : (n : ℕ) (cap : ℤ) → pos 1 ≤ℤ cap → capped (negsuc n) (some cap) ≡ negsuc n
unfolding capped
capped_negative n (pos cap) low = ground arith
capped_negative n (negsuc cap) low = absurd low

module _ {Float Bucket Remote Tmpl : Type 0} (o : Outside Float Bucket Remote Tmpl) where
  -- The limit in the body that Bedrock receives.
  abbrev pub sent_limit : ModelEndpoint → InvokeRequest Float → Option ℤ
  sent_limit ep req = limit_of (converse_request o.floats (invoke_input o ep req)).inference_config

  -- An endpoint's cap holds for requests that are not negative: Bedrock is sent a limit of at most the
  -- cap, and exactly the requested one if that is between 1 and the cap.
  pub sent_limit-le-cap :
      (ep : ModelEndpoint) (req : InvokeRequest Float) (cap : ℤ)
      → ep.spec.max_tokens ≡ some cap
      → pos 1 ≤ℤ cap
      → pos 0 ≤ℤ req.max_tokens
      → (n : ℤ) × (sent_limit ep req ≡ some n)
        × (n ≤ℤ cap)
        × (pos 1 ≤ℤ req.max_tokens → req.max_tokens ≤ℤ cap → n ≡ req.max_tokens)
  unfolding converse_request invoke_input
  sent_limit-le-cap ep req cap e low asked =
      let (positive, below, kept) = capped_bounds req.max_tokens cap low asked in
      (
        capped req.max_tokens (some cap),
        rw (e, limit_of-inference_config) (rw positive),
        below,
        kept,
      )

  -- A negative request evades the cap: whatever the cap, Bedrock is sent no limit at all.
  pub sent_limit-negative :
      (ep : ModelEndpoint) (req : InvokeRequest Float) (cap : ℤ) (n : ℕ)
      → ep.spec.max_tokens ≡ some cap
      → pos 1 ≤ℤ cap
      → req.max_tokens ≡ negsuc n
      → sent_limit ep req ≡ none
  unfolding converse_request invoke_input
  sent_limit-negative ep req cap n e low asked =
      rw (e, asked, capped_negative n cap low, limit_of-inference_config)
