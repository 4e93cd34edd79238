-- ===== src/Bedrock/Client.antt =====
-- internal/bedrock/client.go: the cache of AWS clients. `NewFromConfig` of the AWS SDK allocates a
-- client: it is represented by the configuration that it is given and by an identity, for which the
-- cache counts its allocations.
pub mod Laws
pub mod Threads
pub mod Calls
use k8s_ai_operator.Base.{
  ℕ, ◌+◌, Text, lit, ◌++◌, none, some, Result, ok, err, ◌>>=◌, [], ◌==◌, Eq, text_eq, if◌then◌else◌,
}
use k8s_ai_operator.Base.Exec.{wrapped}
use k8s_ai_operator.Base.Dict
use k8s_ai_operator.Base.Dict.{Dict}

pub record EndpointKey : Type 0 where
  pub role_arn : Text
  pub region : Text

EndpointKey-discrete : Discrete EndpointKey
unfolding text_eq
EndpointKey-discrete = hlevel text_eq.dec

instance unfoldable pub key_eq : Eq EndpointKey
unfolding EndpointKey-discrete
key_eq = record { dec = EndpointKey-discrete }

-- The ambient credentials of the pod, or a role that is assumed from them.
pub data Credentials : Type 0 where
  ambient : Credentials
  assumed : (role_arn session_name : Text) → Credentials

-- aws.Config
pub record Config : Type 0 where
  pub region : Text
  pub credentials : Credentials

-- *bedrockruntime.Client or *awsbedrock.Client
pub record SdkClient : Type 0 where
  pub id : ℕ
  pub config : Config

pub record Client : Type 0 where
  pub base_config : Config
  pub runtime : Dict EndpointKey SdkClient
  pub control : Dict EndpointKey SdkClient
  pub allocated : ℕ

-- The ambient configuration comes from `config.LoadDefaultConfig`.
unfoldable pub new_client : Result Config → Result Client
new_client (ok cfg) = ok (record { base_config = cfg; runtime = []; control = []; allocated = 0 })
new_client (err e) = err (lit "loading ambient AWS config: " ++ e)

unfoldable pub assume_role_config : Client → EndpointKey → Result Config
assume_role_config c key = ok (record c.base_config {
  region = key.region;
  credentials = assumed key.role_arn (lit "k8s-ai-operator");
})

-- What follows `c.mu.Lock()` in runtimeClient: the second look and the creation.
unfoldable pub locked_runtime : EndpointKey → Client → Result SdkClient × Client
locked_runtime key c = elim (Dict.get key c.runtime) [
  | some cl ↦ (ok cl, c)
  | none ↦ elim (assume_role_config c key) [
    | err e ↦ (err e, c)
    | ok cfg ↦
        let cl : SdkClient = record { id = c.allocated; config = cfg } in
        (ok cl, record c { runtime = Dict.put key cl c.runtime; allocated = c.allocated + 1 })
  ]
]

unfoldable pub runtime_client : EndpointKey → Client → Result SdkClient × Client
unfolding locked_runtime
runtime_client key c = elim (Dict.get key c.runtime) [
  | some cl ↦ (ok cl, c)
  | none ↦ locked_runtime key c
]

unfoldable pub locked_control : EndpointKey → Client → Result SdkClient × Client
locked_control key c = elim (Dict.get key c.control) [
  | some cl ↦ (ok cl, c)
  | none ↦ elim (assume_role_config c key) [
    | err e ↦ (err e, c)
    | ok cfg ↦
        let cl : SdkClient = record { id = c.allocated; config = cfg } in
        (ok cl, record c { control = Dict.put key cl c.control; allocated = c.allocated + 1 })
  ]
]

unfoldable pub control_client : EndpointKey → Client → Result SdkClient × Client
unfolding locked_control
control_client key c = elim (Dict.get key c.control) [
  | some cl ↦ (ok cl, c)
  | none ↦ locked_control key c
]

unfoldable pub invalidate_cache : EndpointKey → Client → Client
invalidate_cache key c = record c {
  runtime = Dict.remove key c.runtime;
  control = Dict.remove key c.control;
}

-- internal/bedrock/guardrail.go: the client's `inner`. It is kept by the caller, not in the cache,
-- unless a role is to be assumed.
unfoldable pub new_guardrail_client : EndpointKey → Client → Result SdkClient × Client
new_guardrail_client key c =
    if key.role_arn == []
    then (
      ok (record {
        id = c.allocated;
        config = record c.base_config {
          region = if key.region == [] then c.base_config.region else key.region;
        };
      }),
      record c { allocated = c.allocated + 1 },
    )
    else wrapped
        (λ e.
          lit "building guardrail client for "
          ++ (key.role_arn ++ (lit "/" ++ (key.region ++ (lit ": " ++ e)))))
        (control_client key) c
