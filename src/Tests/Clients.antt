-- ===== src/Tests/Clients.antt =====
-- The client cache, the goroutines, Invoke and the health check.
use k8s_ai_operator.Base.{
  false, ℕ, lit, ◌≡◌, refl, ◌↔◌, [], ◌∷◌, ok, pos, sym, ◌∙◌, true, nat_eq, text_eq,
}
use mathlib.Core.Option.{none-ne-some}
use k8s_ai_operator.Base.Dict
use k8s_ai_operator.Base.Dict.{get-nil}
use k8s_ai_operator.Bedrock.Client.{
  EndpointKey, key_eq, SdkClient, runtime_client, locked_runtime, assume_role_config,
}
use k8s_ai_operator.Bedrock.Client.Laws.{IsFor, IsCache, IsValid, fresh}
use k8s_ai_operator.Bedrock.Client.Threads.{idle, done, Pool, call, miss, lock, Reach, here, next}
use k8s_ai_operator.Bedrock.Converse.{InvokeInput, InvokeOutput, first_text, invoke}
use k8s_ai_operator.Bedrock.Converse.Laws.{IsExchange, invoke-IsExchange}
use k8s_ai_operator.Bedrock.Health.{health_check}
use k8s_ai_operator.Bedrock.Health.Laws.{health_check_lem}
use k8s_ai_operator.Tests.World.{fixed, aws, client, link}

abbrev pub key : EndpointKey
key = record { role_arn = lit "arn:aws:iam::123456789012:role/bedrock"; region = lit "us-west-2" }

empty-IsCache : (n : ℕ) → IsCache n []
empty-IsCache n = record {
  own = λ k cl e. absurd (none-ne-some cl (sym (get-nil k) ∙ e));
  old = λ k cl e. absurd (none-ne-some cl (sym (get-nil k) ∙ e));
  apart = λ j k a b e f same. absurd (none-ne-some a (sym (get-nil j) ∙ e));
}

pub client-IsValid : IsValid client
client-IsValid = record { runtime = empty-IsCache 0; control = empty-IsCache 0 }

first_call : (runtime_client key client).0 ≡ ok (fresh key client)
unfolding runtime_client assume_role_config Dict.get
first_call = refl

abbrev start : Pool
start = record { client = client; phases = λ i. idle }

run_phases :
    (p : Pool) × Reach start p
    × (p.phases 0 ≡ done key (fresh key client))
    × (p.phases 1 ≡ done key (fresh key client))
unfolding nat_eq locked_runtime assume_role_config Dict.get Dict.put key_eq lit
run_phases = (
  _,
  next
      (next
        (next (next (next (next here (call 0 key refl)) (call 1 key refl)) (miss 0 key refl refl))
          (miss 1 key refl refl))
        (lock 0 key (fresh key client) refl refl))
      (lock 1 key (fresh key client) refl refl),
  refl,
  refl,
)

abbrev input : InvokeInput ℕ
input = record {
  model_id = lit "anthropic.claude-3-haiku-20240307-v1:0";
  system_prompt = lit "be brief";
  messages = record { role = lit "user"; content = lit "hello" } ∷ [];
  max_tokens = pos 256;
  temperature = 0;
}

abbrev answer : InvokeOutput
answer = record {
  content = lit "hi";
  input_tokens = pos 1000;
  output_tokens = pos 500;
  stop_reason = lit "end_turn";
}

invoke_run : invoke fixed aws key input link ≡ (ok answer, (invoke fixed aws key input link).1)
unfolding invoke runtime_client assume_role_config Dict.get first_text
invoke_run = refl

invoke-IsExchange_example :
    IsExchange fixed aws key input link answer (invoke fixed aws key input link).1
    × IsValid (invoke fixed aws key input link).1.client
invoke-IsExchange_example =
    invoke-IsExchange fixed aws key input link (invoke fixed aws key input link).1 answer
      client-IsValid invoke_run

health_check_lem_example :
    (cl : SdkClient) × IsFor key cl.config
    × (((health_check (λ t. t) aws key (lit "m") link).0.available ≡ true)
        ↔ ((aws.get_foundation_model cl (lit "m") 0).0 ≡ ok tt))
    × (((health_check (λ t. t) aws key (lit "m") link).0.available ≡ true)
        ↔ ((health_check (λ t. t) aws key (lit "m") link).0.reason ≡ lit "ModelAvailable"))
    × (((health_check (λ t. t) aws key (lit "m") link).0.available ≡ false)
        ↔ ((health_check (λ t. t) aws key (lit "m") link).0.reason ≡ lit "BedrockUnavailable"))
    × IsValid (health_check (λ t. t) aws key (lit "m") link).1.client
health_check_lem_example = health_check_lem (λ t. t) aws key (lit "m") link client-IsValid
