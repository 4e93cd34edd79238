-- ===== src/Manager/Laws.antt =====
-- What is registered with the manager, and when the process ends well.
use k8s_ai_operator.Base.{
  pos, Text, lit, ◌≡◌, refl, ◌⊎◌, inl, inr, Bool, true, false, List, [], ◌∷◌, ◌++◌, All, Result, ok,
  err, ◌==◌, text_eq, if◌then◌else◌, arith, Result-cases, sym, ◌∙◌, ap,
}
use mathlib.Core.List.{append-nil, append_assoc}
use k8s_ai_operator.Base.Dict
use k8s_ai_operator.Base.Exec.{Exec, ◌>>=◌, pure}
use k8s_ai_operator.Bedrock.Client.{
  Config, SdkClient, Client, assumed, new_client, new_guardrail_client, control_client,
  assume_role_config,
}
use k8s_ai_operator.Proxy.Server.{new_server}
use k8s_ai_operator.Manager.{
  Flags, Environment, guardrail_key, Part, model_endpoint_controller, prompt_template_controller,
  guardrail_controller, validator_webhook, defaulter_webhook, proxy_server, healthz_check,
  readyz_check, watched, manager_options, Platform, register, register_webhook, add_guardrails,
  add_webhooks, start_manager, boot, exit_code, main,
}

abbrev pub webhooks : Bool → List Part
webhooks true = validator_webhook ∷ defaulter_webhook ∷ []
webhooks false = []

abbrev pub guardrails : Result SdkClient → List Part
guardrails (ok client) = guardrail_controller client ∷ []
guardrails (err e) = []

-- The parts that the flags and the environment ask for, in their order.
abbrev pub wanted : Flags → Result SdkClient → List Part
wanted flags guardrail =
    model_endpoint_controller flags.proxy_namespace flags.proxy_service_name
      ∷ prompt_template_controller
      ∷ guardrails guardrail
    ++ (webhooks flags.enable_webhooks
        ++ proxy_server (
            new_server (record {
              listen_addr = flags.proxy_addr;
              read_timeout = pos 0;
              write_timeout = pos 0;
            }))
          ∷ healthz_check
          ∷ readyz_check
          ∷ [])

-- The guardrail client of a run, whose ambient configuration is `cfg`.
abbrev pub guardrail_client : Environment → Config → Result SdkClient
guardrail_client env cfg =
    (new_guardrail_client (guardrail_key env)
      (record { base_config = cfg; runtime = []; control = []; allocated = 0 })).0

-- The controller of guardrails is always among the parts, since its client is always made: its region is
-- AWS_REGION, or us-east-1 if that is empty, and it has the role OPERATOR_ROLE_ARN, assumed under the
-- operator's session name, or the ambient credentials if that is empty.
pub guardrail_client_total :
    (env : Environment) (cfg : Config)
    → (cl : SdkClient) × (guardrail_client env cfg ≡ ok cl)
      × (cl.config.region ≡ (if env.aws_region == [] then lit "us-east-1" else env.aws_region))
      × (cl.config.credentials ≡ (
          if env.operator_role_arn == []
          then cfg.credentials
          else assumed env.operator_role_arn (lit "k8s-ai-operator")))
unfolding new_guardrail_client guardrail_key control_client assume_role_config Dict.get lit
guardrail_client_total env cfg = (
  record {
    id = 0;
    config = record {
      region = (guardrail_key env).region;
      credentials =
          if env.operator_role_arn == []
          then cfg.credentials
          else assumed env.operator_role_arn (lit "k8s-ai-operator");
    };
  },
  ground arith,
  refl,
  refl,
)

module _ (p : Platform) where
  -- The set-up of a webhook cannot fail.
  abbrev pub Succeeds : Part → Type 0
  Succeeds validator_webhook = Unit
  Succeeds defaulter_webhook = Unit
  Succeeds part = p.set_up (watched part) part ≡ ok tt

  install : Part → Exec (List Part) (Unit {0})
  install validator_webhook = register_webhook p validator_webhook
  install defaulter_webhook = register_webhook p defaulter_webhook
  install part = register p part

  install_all : List Part → Exec (List Part) (Unit {0})
  install_all [] = pure tt
  install_all (part ∷ rest) = install part >>= λ _. install_all rest

  -- Some parts are registered, and all of them exactly if nothing fails.
  IsOutcome : List Part → List Part → Result (Unit {0}) × List Part → Type 0
  IsOutcome before parts o =
      ((o ≡ (ok tt, before ++ parts)) × All Succeeds parts)
      ⊎ ((e : Text) × (done : List Part) × (rest : List Part) × (o ≡ (err e, before ++ done))
          × (done ++ rest ≡ parts)
          × (All Succeeds parts → ⊥))

  register_outcome :
      (part : Part) (before : List Part)
      → ((register p part before ≡ (ok tt, before ++ part ∷ []))
          × (p.set_up (watched part) part ≡ ok tt))
        ⊎ ((e : Text) × (register p part before ≡ (err e, before))
            × (p.set_up (watched part) part ≡ ok tt → ⊥))
  unfolding register
  register_outcome part before = elim (Result-cases (p.set_up (watched part) part)) [
    | inl (_, good) ↦ inl (ground arith, good)
    | inr (e, bad) ↦ inr (e, ground arith, λ good. ground arith)
  ]

  install_outcome :
      (part : Part) (before : List Part)
      → ((install part before ≡ (ok tt, before ++ part ∷ [])) × Succeeds part)
        ⊎ ((e : Text) × (install part before ≡ (err e, before)) × (Succeeds part → ⊥))
  unfolding install register_webhook
  install_outcome validator_webhook before = inl (refl, tt)
  install_outcome defaulter_webhook before = inl (refl, tt)
  install_outcome part before = register_outcome part before

  install_all-next :
      (part : Part) (parts before mid : List Part)
      → install part before ≡ (ok tt, mid)
      → install_all (part ∷ parts) before ≡ install_all parts mid
  unfolding install_all
  install_all-next part parts before mid e = ground arith

  install_all-stop :
      (part : Part) (parts before : List Part) (e : Text)
      → install part before ≡ (err e, before)
      → install_all (part ∷ parts) before ≡ (err e, before)
  unfolding install_all
  install_all-stop part parts before e h = ground arith

  install_all-IsOutcome :
      (parts before : List Part) → IsOutcome before parts (install_all parts before)
  unfolding install_all IsOutcome
  install_all-IsOutcome [] before = inl (rw (append-nil before) refl, tt)
  install_all-IsOutcome (part ∷ parts) before = elim (install_outcome part before) [
    | inl (e, good) ↦ elim (install_all-IsOutcome parts (before ++ part ∷ [])) [
      | inl (e', all_good) ↦ inl (
        install_all-next part parts before (before ++ part ∷ []) e
            ∙ e'
            ∙ ap (λ l. (ok tt, l)) (append_assoc before (part ∷ []) parts),
        (good, all_good),
      )
      | inr (m, done, rest, e', whole, bad) ↦ inr (
        m,
        part ∷ done,
        rest,
        install_all-next part parts before (before ++ part ∷ []) e
            ∙ e'
            ∙ ap (λ l. (err m, l)) (append_assoc before (part ∷ []) done),
        ap (λ l. part ∷ l) whole,
        λ g. bad g.1,
      )
    ]
    | inr (m, e, bad) ↦ inr (
      m,
      [],
      part ∷ parts,
      install_all-stop part parts before m e ∙ ap (λ l. (err m, l)) (sym (append-nil before)),
      refl,
      λ g. bad g.0,
    )
  ]

  boot-install_all :
      (flags : Flags) (env : Environment) (client : Client) (before : List Part)
      → p.new_manager (manager_options flags) ≡ ok tt
      → new_client p.load_config ≡ ok client
      → boot p flags env before
        ≡ (install_all (wanted flags (new_guardrail_client (guardrail_key env) client).0) >>= λ _.
              start_manager p)
            before
  unfolding boot install_all install add_guardrails add_webhooks register_webhook
  boot-install_all flags env client before manager cl = ground arith

  -- Once the manager and the ambient configuration are there, the parts that the flags and the
  -- environment ask for are registered, each once and in one order. Either every set-up succeeds,
  -- and the exit code is 0 or 1 with the run of the manager, or one fails, and the process exits with 1
  -- at once, with the parts before it registered and the manager never started.
  pub main_outcome :
      (flags : Flags) (env : Environment) (cfg : Config)
      → p.new_manager (manager_options flags) ≡ ok tt
      → p.load_config ≡ ok cfg
      → let parts = wanted flags (guardrail_client env cfg) in
        ((main p flags env ≡ (exit_code (p.start parts), parts)) × All Succeeds parts)
        ⊎ ((done : List Part) × (rest : List Part) × (main p flags env ≡ (1, done))
            × (done ++ rest ≡ parts)
            × (All Succeeds parts → ⊥))
  unfolding main start_manager IsOutcome new_client
  main_outcome flags env cfg manager loaded =
      let client : Client = record {
        base_config = cfg;
        runtime = [];
        control = [];
        allocated = 0;
      } in
      let parts = wanted flags (guardrail_client env cfg) in
      let same = boot-install_all flags env client [] manager (ground arith) in
      elim (install_all-IsOutcome parts []) [
        | inl (e, good) ↦ inl (ground arith, good)
        | inr (m, done, rest, e, whole, bad) ↦ inr (done, rest, ground arith, whole, bad)
      ]
