-- ===== src/Tests/Limits.antt =====
-- Two goroutines with requests to one endpoint: both look up its limiter, with different rates, before
-- either asks it.
use k8s_ai_operator.Base.{
  ℕ, pos, Text, lit, Bool, true, false, ◌≡◌, refl, some, List, text_eq, nat_eq, ℕ_discrete,
}
use k8s_ai_operator.Base.Dict
use k8s_ai_operator.Proxy.Limiter.{new_bucket, burst, limiter_key}
use k8s_ai_operator.Proxy.Limiter.Requests.{
  Request, no_limiters, Phase, outside, holding, decided, Handlers, Event, locate, enter,
  get_limiter, allow, Moves, here, next,
}
use k8s_ai_operator.Proxy.Limiter.Requests.Laws.{read}
use k8s_ai_operator.Proxy.Limiter.Requests.History.{bucket_after, AreAnswers, Was, Moves-one_bucket}
use k8s_ai_operator.Tests.World.{fixed, counting}

abbrev slow : Request
slow = record { namespace = lit "team"; name = lit "haiku"; requests_per_minute = pos 10 }

abbrev fast : Request
fast = record { namespace = lit "team"; name = lit "haiku"; requests_per_minute = pos 60 }

abbrev idle : ℕ → Phase
idle i = outside

crossed :
    (es : List Event) × (q : Handlers ℕ) × Moves fixed counting
      (record { limiters = no_limiters; phases = idle })
      es
      q
unfolding locate nat_eq ℕ_discrete text_eq lit limiter_key Dict.get Dict.put new_bucket burst
crossed = (
  _,
  _,
  next
      (next
        (next
          (next (next (next here (enter 0 slow refl)) (enter 1 fast refl))
            (get_limiter 0 slow refl))
          (get_limiter 1 fast refl))
        (allow 1 fast 0 0 1 refl refl))
      (allow 0 slow 0 1 0 refl refl),
)

-- The bucket has the first request's burst of one, which the second uses up.
crossed_answers :
    (crossed.1.phases 1 ≡ decided fast true) × (crossed.1.phases 0 ≡ decided slow false)
unfolding crossed locate nat_eq ℕ_discrete text_eq lit limiter_key Dict.get Dict.put new_bucket
    burst
crossed_answers = (refl, refl)

Moves-one_bucket_example :
    ((k : Text) → read k crossed.1.limiters ≡ bucket_after fixed counting k crossed.0)
    × AreAnswers fixed counting crossed.0
    × ((i : ℕ) (r : Request) (answer : Bool)
        → crossed.1.phases i ≡ decided r answer
        → Was fixed counting i r answer crossed.0)
    × ((i : ℕ) (r : Request) (pointer : ℕ)
        → crossed.1.phases i ≡ holding r pointer
        → (b : ℕ) × (Dict.get pointer crossed.1.limiters.heap ≡ some b))
Moves-one_bucket_example =
    Moves-one_bucket fixed counting idle crossed.0 crossed.1 (λ i. refl) crossed.2
