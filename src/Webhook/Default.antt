-- ===== src/Webhook/Default.antt =====
-- The mutating webhook of internal/webhook/modelendpoint_webhook.go. JSON is a parameter.
pub mod Laws
use k8s_ai_operator.Base.{ℤ, pos, Text, Option, none, some, Result, ok, err}
use k8s_ai_operator.Api.Meta.{RateLimitSpec}
use k8s_ai_operator.Api.Endpoint.{ModelEndpoint}
use k8s_ai_operator.Webhook.Validate.{Response, errored, patch_from_raw}

unfoldable pub default_max_tokens : Option ℤ → Option ℤ
default_max_tokens none = some (pos 4096)
default_max_tokens (some n) = some n

unfoldable pub default_rate_limit : Option RateLimitSpec → Option RateLimitSpec
default_rate_limit none = some (record { requests_per_minute = pos 60 })
default_rate_limit (some r) = some r

-- What the handler makes of the decoded object.
unfoldable pub defaulted : ModelEndpoint → ModelEndpoint
unfolding default_max_tokens default_rate_limit
defaulted ep = record ep {
  spec = record ep.spec {
    max_tokens = default_max_tokens ep.spec.max_tokens;
    rate_limit = default_rate_limit ep.spec.rate_limit;
  };
}

-- ModelEndpointDefaulter.Handle, on the raw object
unfoldable pub handle :
    (Text → Result ModelEndpoint) → (ModelEndpoint → Result Text) → Text → Response
handle decode marshal raw = elim (decode raw) [
  | err e ↦ errored 400 e
  | ok ep ↦ elim (marshal (defaulted ep)) [
    | err e ↦ errored 500 e
    | ok patched ↦ patch_from_raw raw patched
  ]
]
