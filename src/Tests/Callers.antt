-- ===== src/Tests/Callers.antt =====
-- Two goroutines on the cache: one asks for a client, is overtaken by the other's InvalidateCache, and
-- creates the client.
use k8s_ai_operator.Base.{ℕ, ◌*◌, ◌≤◌, ◌≡◌, refl, List, ok, nat_eq, ℕ_discrete, arith}
use k8s_ai_operator.Base.Dict
use k8s_ai_operator.Bedrock.Client.{key_eq, invalidate_cache, locked_runtime, assume_role_config}
use k8s_ai_operator.Bedrock.Client.Laws.{IsValid, fresh}
use k8s_ai_operator.Bedrock.Client.Calls.{
  Call, runtime_of, invalidation, Answer, answered, outside, entered, returning, Callers, Event,
  event, runtime_missed, runtime_locked, invalidated, enter, act, Moves, here, next,
}
use k8s_ai_operator.Bedrock.Client.Calls.Linear.{
  replay, AreAnswers, Happened, IsGoodAnswer, Moves-AreAnswers, Moves-IsGood,
}
use k8s_ai_operator.Bedrock.Client.Calls.Bound.{IsBusy, CanAct, Acts, none_yet, more, Acts-bounded}
use k8s_ai_operator.Tests.World.{client}
use k8s_ai_operator.Tests.Clients.{key, client-IsValid}

abbrev quiet : Callers
quiet = record { client = client; phases = λ i. outside }

overtaken : (es : List Event) × (q : Callers) × Moves quiet es q
unfolding nat_eq Dict.get ℕ_discrete
overtaken = (
  _,
  _,
  next
      (next
        (next
          (next (next here (enter 0 (runtime_of key) refl)) (act 0 (runtime_missed key refl refl)))
          (enter 1 (invalidation key) refl))
        (act 1 (invalidated key refl)))
      (act 0 (runtime_locked key refl)),
)

overtaken_answer :
    overtaken.1.phases 0 ≡ returning (runtime_of key) (answered (ok (fresh key client)))
unfolding overtaken nat_eq ℕ_discrete locked_runtime assume_role_config Dict.get Dict.remove
    invalidate_cache
overtaken_answer = refl

Moves-AreAnswers_example :
    (replay client overtaken.0 ≡ overtaken.1.client)
    × AreAnswers client overtaken.0
    × ((i : ℕ) (call : Call) (answer : Answer)
        → overtaken.1.phases i ≡ returning call answer
        → Happened (event i call answer) overtaken.0)
Moves-AreAnswers_example = Moves-AreAnswers quiet overtaken.0 overtaken.1 (λ i. refl) overtaken.2

Moves-IsGood_example :
    IsValid overtaken.1.client
    × ((i : ℕ) (call : Call) (answer : Answer)
        → overtaken.1.phases i ≡ returning call answer
        → IsGoodAnswer call answer)
Moves-IsGood_example =
    Moves-IsGood quiet overtaken.0 overtaken.1 (λ i. refl) client-IsValid overtaken.2

abbrev both_called : Callers
both_called = record { client = client; phases = λ i. entered (runtime_of key) }

one_act : (q : Callers) × Acts 2 both_called 1 q
unfolding Dict.get
one_act = (_, more {i = 1} none_yet (omega arith) (runtime_missed key refl refl))

Acts-bounded_example :
    (◌≤◌ 1 (2 * 2)) × ((i : ℕ) → IsBusy (one_act.0.phases i) → CanAct i one_act.0)
Acts-bounded_example = Acts-bounded 2 both_called 1 one_act.0 one_act.1
