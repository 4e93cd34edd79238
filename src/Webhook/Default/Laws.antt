-- ===== src/Webhook/Default/Laws.antt =====
-- The defaulter fills gaps only, and commutes with validation.
use k8s_ai_operator.Base.{
  ℤ, Text, ◌≡◌, refl, ◌↔◌, Option, none, some, Result, Result-cases, ok, arith, inl, inr,
}
use k8s_ai_operator.Api.Meta.{RateLimitSpec}
use k8s_ai_operator.Api.Endpoint.{ModelEndpoint}
use k8s_ai_operator.Webhook.Validate.Laws.{IsAdmissible, HasRate}
use k8s_ai_operator.Webhook.Validate.{patch_from_raw}
use k8s_ai_operator.Webhook.Default.{default_max_tokens, default_rate_limit, defaulted, handle}

default_max_tokens_idem :
    (m : Option ℤ) → default_max_tokens (default_max_tokens m) ≡ default_max_tokens m
unfolding default_max_tokens
default_max_tokens_idem none = refl
default_max_tokens_idem (some n) = refl

default_rate_limit_idem :
    (r : Option RateLimitSpec) → default_rate_limit (default_rate_limit r) ≡ default_rate_limit r
unfolding default_rate_limit
default_rate_limit_idem none = refl
default_rate_limit_idem (some r) = refl

defaulted_idem : (ep : ModelEndpoint) → defaulted (defaulted ep) ≡ defaulted ep
unfolding defaulted
defaulted_idem ep =
    rw (default_max_tokens_idem ep.spec.max_tokens, default_rate_limit_idem ep.spec.rate_limit)

-- Where decoding reads back the object that encoding wrote, the defaulter answers its own result, sent
-- to it again, with a patch that changes nothing.
pub handle_idem :
    (decode : Text → Result ModelEndpoint) (marshal : ModelEndpoint → Result Text)
    (raw patched : Text)
    → ((ep : ModelEndpoint)
        → decode raw ≡ ok ep
        → marshal (defaulted ep) ≡ ok patched
        → decode patched ≡ ok (defaulted ep))
    → handle decode marshal raw ≡ patch_from_raw raw patched
    → handle decode marshal patched ≡ patch_from_raw patched patched
unfolding handle
handle_idem decode marshal raw patched reads e = elim (Result-cases (decode raw)) [
  | inr (m, refused) ↦ absurd (ground arith)
  | inl (ep, decoded) ↦
      let written : marshal (defaulted ep) ≡ ok patched = ground arith in
      ground (arith, reads ep decoded written, defaulted_idem ep)
]

default_rate_limit-HasRate : (r : Option RateLimitSpec) → HasRate (default_rate_limit r) ↔ HasRate r
unfolding default_rate_limit
default_rate_limit-HasRate none = (λ _. tt, λ _. omega arith)
default_rate_limit-HasRate (some r) = (λ h. h, λ h. h)

-- The defaulter neither repairs nor breaks an endpoint: its result is admissible exactly when the
-- object was, so the order of the two webhooks does not matter.
pub defaulted-IsAdmissible_iff :
    (ep : ModelEndpoint) → IsAdmissible (defaulted ep) ↔ IsAdmissible ep
unfolding defaulted
defaulted-IsAdmissible_iff ep =
    let rate = default_rate_limit-HasRate ep.spec.rate_limit in
    (
      λ h. record {
        region = h.region;
        model = h.model;
        role = h.role;
        budget = h.budget;
        rate = rate.0 h.rate;
      },
      λ h. record {
        region = h.region;
        model = h.model;
        role = h.role;
        budget = h.budget;
        rate = rate.1 h.rate;
      },
    )
