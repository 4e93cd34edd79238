-- ===== src/Manager.antt =====
-- cmd/manager/main.go: the flags with their defaults, the environment, the scheme, and the order in
-- which the parts of the operator are registered with the manager, each with the kinds that its
-- SetupWithManager watches. What controller-runtime does is a parameter.
pub mod Laws
pub mod Kinds
use k8s_ai_operator.Base.{
  ℕ, pos, Text, lit, Bool, true, false, List, [], ◌∷◌, ◌++◌, Result, ok, err, ◌==◌, text_eq,
  if◌then◌else◌,
}
use k8s_ai_operator.Base.Exec.{Exec, ◌>>=◌, ◌>>◌, pure, lift}
use k8s_ai_operator.Api.Scheme.{ObjectKind, group_version, Builders, add_to_scheme}
use k8s_ai_operator.Bedrock.Client.{
  EndpointKey, Config, SdkClient, Client, new_client, new_guardrail_client,
}
use k8s_ai_operator.Proxy.Server.{HttpServer, new_server}

pub record Flags : Type 0 where
  pub metrics_addr : Text
  pub probe_addr : Text
  pub proxy_addr : Text
  pub enable_leader_election : Bool
  pub enable_webhooks : Bool
  pub leader_election_id : Text
  pub proxy_namespace : Text
  pub proxy_service_name : Text
  pub log_level : Text

unfoldable pub default_flags : Flags
default_flags = record {
  metrics_addr = lit ":8080";
  probe_addr = lit ":8081";
  proxy_addr = lit ":8090";
  enable_leader_election = false;
  enable_webhooks = false;
  leader_election_id = lit "ai.kernelpanic09.io";
  proxy_namespace = lit "ai-operator-system";
  proxy_service_name = lit "k8s-ai-operator-proxy";
  log_level = lit "info";
}

-- slog's level, and zap's development mode.
pub data Level : Type 0 where
  debug info warn error : Level

unfoldable pub level : Text → Level
level log_level =
    if log_level == lit "debug"
    then debug
    else if log_level == lit "warn"
    then warn
    else if log_level == lit "error"
    then error
    else info

pub record ManagerOptions : Type 0 where
  pub metrics_bind_address : Text
  pub health_probe_bind_address : Text
  pub leader_election : Bool
  pub leader_election_id : Text
  -- in seconds
  pub graceful_shutdown_timeout : ℕ
  pub webhook_port : ℕ

unfoldable pub manager_options : Flags → ManagerOptions
manager_options flags = record {
  metrics_bind_address = flags.metrics_addr;
  health_probe_bind_address = flags.probe_addr;
  leader_election = flags.enable_leader_election;
  leader_election_id = flags.leader_election_id;
  graceful_shutdown_timeout = 30;
  webhook_port = 9443;
}

-- The two variables that main reads, empty if they are not set.
pub record Environment : Type 0 where
  pub operator_role_arn : Text
  pub aws_region : Text

unfoldable pub guardrail_key : Environment → EndpointKey
guardrail_key env = record {
  role_arn = env.operator_role_arn;
  region = if env.aws_region == [] then lit "us-east-1" else env.aws_region;
}

-- What is registered with the manager, with what it is given.
pub data Part : Type 0 where
  model_endpoint_controller : (proxy_namespace proxy_service_name : Text) → Part
  prompt_template_controller : Part
  guardrail_controller : SdkClient → Part
  validator_webhook defaulter_webhook : Part
  proxy_server : HttpServer → Part
  healthz_check readyz_check : Part

abbrev custom : Text → ObjectKind
custom kind = record { group_version = group_version; kind = kind }

abbrev pub core_service : ObjectKind
core_service = record {
  group_version = record { group = []; version = lit "v1" };
  kind = lit "Service";
}

-- What SetupWithManager of each controller asks for with For and Owns.
unfoldable pub endpoint_kinds : List ObjectKind
endpoint_kinds = custom (lit "ModelEndpoint") ∷ core_service ∷ []

unfoldable pub template_kinds : List ObjectKind
template_kinds = custom (lit "PromptTemplate") ∷ []

unfoldable pub policy_kinds : List ObjectKind
policy_kinds = custom (lit "GuardrailPolicy") ∷ []

unfoldable pub watched : Part → List ObjectKind
unfolding endpoint_kinds template_kinds policy_kinds
watched (model_endpoint_controller namespace service) = endpoint_kinds
watched prompt_template_controller = template_kinds
watched (guardrail_controller client) = policy_kinds
watched part = []

-- `init`: a panic of utilruntime.Must is an error.
unfoldable pub init_scheme :
    {S B : Type 0} → Builders S B → (client_go core_v1 : Exec S (Unit {0})) → Exec S (Unit {0})
init_scheme b client_go core_v1 = do client_go; add_to_scheme b; core_v1

-- ctrl.NewManager, the ambient AWS configuration, the set-up of a part that watches some kinds, and
-- mgr.Start with the parts that are registered.
pub record Platform : Type 0 where
  pub new_manager : ManagerOptions → Result (Unit {0})
  pub load_config : Result Config
  pub set_up : List ObjectKind → Part → Result (Unit {0})
  pub start : List Part → Result (Unit {0})

unfoldable pub exit_code : Result (Unit {0}) → ℕ
exit_code (ok _) = 0
exit_code (err e) = 1

module _ (p : Platform) where
  -- A part whose set-up can fail.
  unfoldable pub register : Part → Exec (List Part) (Unit {0})
  register part parts = elim (p.set_up (watched part) part) [
    | ok _ ↦ (ok tt, parts ++ part ∷ [])
    | err e ↦ (err e, parts)
  ]

  -- SetupWithManager of a webhook, which returns nil.
  unfoldable pub register_webhook : Part → Exec (List Part) (Unit {0})
  register_webhook part parts = (ok tt, parts ++ part ∷ [])

  -- No client, no controller: the failure is only logged.
  unfoldable pub add_guardrails : Result SdkClient → Exec (List Part) (Unit {0})
  add_guardrails (ok client) = register (guardrail_controller client)
  add_guardrails (err e) = pure tt

  unfoldable pub add_webhooks : Bool → Exec (List Part) (Unit {0})
  add_webhooks true = do register_webhook validator_webhook; register_webhook defaulter_webhook
  add_webhooks false = pure tt

  unfoldable pub start_manager : Exec (List Part) (Unit {0})
  start_manager parts = (p.start parts, parts)

  -- Up to the exit: an error is an os.Exit(1), with nothing done after it.
  unfoldable pub boot : Flags → Environment → Exec (List Part) (Unit {0})
  boot flags env = do
    lift (p.new_manager (manager_options flags))
    client ← lift (new_client p.load_config)
    register (model_endpoint_controller flags.proxy_namespace flags.proxy_service_name)
    register prompt_template_controller
    add_guardrails (new_guardrail_client (guardrail_key env) client).0
    add_webhooks flags.enable_webhooks
    register (
        proxy_server (
          new_server (record {
            listen_addr = flags.proxy_addr;
            read_timeout = pos 0;
            write_timeout = pos 0;
          })))
    register healthz_check
    register readyz_check
    start_manager

  -- The exit code, and what was registered by then.
  unfoldable pub main : Flags → Environment → ℕ × List Part
  unfolding exit_code
  main flags env = let (result, parts) = boot flags env [] in (exit_code result, parts)
