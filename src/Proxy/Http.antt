-- ===== src/Proxy/Http.antt =====
-- What the handlers of internal/proxy/handler.go share: requests and responses, the handler's state,
-- and what they take from outside.
use k8s_ai_operator.Base.{
  ℕ, ℤ, pos, lt_int, Text, ◌||◌, Option, none, some, List, [], Result, ◌==◌, int_eq, if◌then◌else◌,
}
use k8s_ai_operator.Base.Dict.{Dict}
use k8s_ai_operator.Base.Floats.{FloatOps}
use k8s_ai_operator.Api.Meta.{ObjectKey}
use k8s_ai_operator.Api.Endpoint.{ModelEndpoint}
use k8s_ai_operator.Api.Template.{PromptTemplate}
use k8s_ai_operator.Bedrock.Converse.{Message, Sdk, Link}
use k8s_ai_operator.Metrics.{MetricOp}
use k8s_ai_operator.Proxy.Limiter.{BucketOps}

pub record InvokeRequest (Float : Type 0) : Type 0 where
  pub messages : List Message
  pub system_prompt : Text
  pub max_tokens : ℤ
  pub temperature : Float

pub record InvokeResponse : Type 0 where
  pub content : Text
  pub input_tokens : ℤ
  pub output_tokens : ℤ
  pub stop_reason : Text
  pub cost_usd : Text

-- Go's nil map is `none`: it reads as an empty map, and a write to it panics.
pub record RenderRequest : Type 0 where
  pub variables : Option (Dict Text Text)

pub record HttpRequest : Type 0 where
  pub method : Text
  pub path : Text
  pub body : Text

pub data Body : Type 0 where
  plain : Text → Body
  json : InvokeResponse → Body

pub record HttpResponse : Type 0 where
  pub status : ℕ
  pub headers : List (Text × Text)
  pub body : Body

-- A panic ends the request with no response.
pub data Reply : Type 0 where
  replied : HttpResponse → Reply
  panicked : Reply

-- http.Error; the headers are those that the handlers set themselves
unfoldable pub http_error : Text → ℕ → HttpResponse
http_error message status = record { status = status; headers = []; body = plain message }

-- The handler: the buckets, the Bedrock client with what it talks to, and the metric calls made so
-- far, in their order.
pub record Handler (Float Bucket Remote : Type 0) : Type 0 where
  pub rate_limiters : Dict Text Bucket
  pub link : Link Remote
  pub metrics : List (MetricOp Float)

-- What a request meets: the clock, the answers of the Kubernetes API, and the seconds that Bedrock
-- takes.
pub record Scene (Float : Type 0) : Type 0 where
  pub now : ℕ
  pub elapsed : Float
  pub endpoint : ObjectKey → Result ModelEndpoint
  pub template : ObjectKey → Result PromptTemplate

-- Third-party code: JSON decoding, the AWS SDK, the token bucket and text/template.
pub record Outside (Float Bucket Remote Tmpl : Type 0) : Type 0 where
  pub floats : FloatOps Float
  pub sdk : Sdk Float Remote
  pub buckets : BucketOps Float Bucket
  pub decode_invoke : Text → Result (InvokeRequest Float)
  pub decode_render : Text → Result RenderRequest
  -- `template.New(name).Parse(text)`
  pub parse_template : Text → Text → Result Tmpl
  pub execute_template : Tmpl → Option (Dict Text Text) → Result Text

-- The endpoint's cap on the number of tokens that a request asks for.
unfoldable pub capped : ℤ → Option ℤ → ℤ
capped requested none = requested
capped requested (some cap) = if requested == pos 0 || lt_int cap requested then cap else requested
