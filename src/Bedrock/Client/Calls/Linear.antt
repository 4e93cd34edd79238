-- ===== src/Bedrock/Client/Calls/Linear.antt =====
-- The calls of the cache answer as if each had run alone, one after another.
use k8s_ai_operator.Base.{
  ℕ, ◌≡◌, refl, ◌⊎◌, inl, inr, Option, none, some, List, [], ◌∷◌, ok, arith, Any, nat_eq, sym, ◌∙◌,
  subst,
}
use k8s_ai_operator.Bedrock.Client.{
  EndpointKey, key_eq, SdkClient, Client, runtime_client, control_client, locked_runtime,
  locked_control,
}
use k8s_ai_operator.Bedrock.Client.Laws.{
  IsFor, IsValid, runtime_client-IsValid, control_client-IsValid, invalidate_cache-IsValid,
  runtime_client_total, control_client_total,
}
use k8s_ai_operator.Bedrock.Client.Calls.{
  Call, runtime_of, control_of, invalidation, Answer, answered, dropped, run, outside, returning,
  Callers, Event, event, Act, runtime_found, runtime_missed, runtime_locked, control_found,
  control_missed, control_locked, invalidated, Move, enter, act, leave, push, Moves, here, next,
}

-- The cache after the calls of the events, run alone and in their order, the latest first.
abbrev pub replay : Client → List Event → Client
replay c [] = c
replay c (e ∷ es) = (run e.call (replay c es)).1

-- Each event's answer is what its call answers when it is run alone, after the earlier ones.
abbrev pub AreAnswers : Client → List Event → Type 0
AreAnswers c [] = Unit
AreAnswers c (e ∷ es) = ((run e.call (replay c es)).0 ≡ e.answer) × AreAnswers c es

-- The event is among the events.
abbrev pub Happened : Event → List Event → Type 0
Happened e es = Any (λ f. f ≡ e) es

-- The outcome of an act in one piece: nothing, or the whole of the call.
abbrev Settles : Client → Option Event → Client → Type 0
Settles c none d = d ≡ c
Settles c (some e) d = run e.call c ≡ (e.answer, d)

-- The part under the write lock does all of a call's work, since it looks again.
locked_runtime-alone :
    (key : EndpointKey) (c : Client) → runtime_client key c ≡ locked_runtime key c
unfolding runtime_client
locked_runtime-alone key c = ground arith

locked_control-alone :
    (key : EndpointKey) (c : Client) → control_client key c ≡ locked_control key c
unfolding control_client
locked_control-alone key c = ground arith

Act-Settles :
    {p : Callers} {i : ℕ} {e : Option Event} {q : Callers}
    → Act p i e q
    → Settles p.client e q.client
unfolding run runtime_client control_client
Act-Settles (runtime_found key cl at_look found) = ground arith
Act-Settles (runtime_missed key at_look none_found) = refl
Act-Settles {p} (runtime_locked key at_lock) = rw (locked_runtime-alone key p.client) refl
Act-Settles (control_found key cl at_look found) = ground arith
Act-Settles (control_missed key at_look none_found) = refl
Act-Settles {p} (control_locked key at_lock) = rw (locked_control-alone key p.client) refl
Act-Settles (invalidated key at_look) = refl

-- A goroutine that is about to return either was so before, or this act settled its call.
Act-returning :
    {p : Callers} {i : ℕ} {e : Option Event} {q : Callers}
    → Act p i e q
    → (j : ℕ) (call : Call) (answer : Answer) → q.phases j ≡ returning call answer
    → (p.phases j ≡ returning call answer) ⊎ (e ≡ some (event j call answer))
Act-returning (runtime_found key cl at_look found) j call answer back = ground arith
Act-returning (runtime_missed key at_look none_found) j call answer back = ground arith
Act-returning (runtime_locked key at_lock) j call answer back = ground arith
Act-returning (control_found key cl at_look found) j call answer back = ground arith
Act-returning (control_missed key at_look none_found) j call answer back = ground arith
Act-returning (control_locked key at_lock) j call answer back = ground arith
Act-returning (invalidated key at_look) j call answer back = ground arith

Settles-push :
    (c d d' : Client) (e : Option Event) (es : List Event)
    → replay c es ≡ d
    → AreAnswers c es
    → Settles d e d'
    → (replay c (push e es) ≡ d') × AreAnswers c (push e es)
Settles-push c d d' none es same answers settled = (same ∙ sym settled, answers)
Settles-push c d d' (some e) es same answers settled =
    rw same (ground arith, (ground arith, answers))

Happened-push :
    (e : Option Event) (f : Event) (es : List Event) → Happened f es → Happened f (push e es)
Happened-push none f es h = h
Happened-push (some e) f es h = inr h

-- What holds of every run that starts with no call under way.
record IsSerial (p : Callers) (es : List Event) (q : Callers) : Type 0 where
  client : replay p.client es ≡ q.client
  answers : AreAnswers p.client es
  returned :
      (i : ℕ) (call : Call) (answer : Answer)
      → q.phases i ≡ returning call answer
      → Happened (event i call answer) es

Act-IsSerial :
    {p q : Callers} {i : ℕ} {es : List Event} {e : Option Event} {r : Callers}
    → IsSerial p es q
    → Act q i e r
    → IsSerial p (push e es) r
Act-IsSerial {p} {q} {i} {es} {e} {r} v a =
    let (same, answers) =
      Settles-push p.client q.client r.client e es v.client v.answers (Act-Settles a) in
    record {
      client = same;
      answers = answers;
      returned = λ j call answer back. elim (Act-returning a j call answer back) [
        | inl before ↦ Happened-push e (event j call answer) es (v.returned j call answer before)
        | inr now ↦ rw now (inl refl)
      ];
    }

Move-IsSerial :
    {p q : Callers} {es : List Event} {e : Option Event} {r : Callers}
    → IsSerial p es q
    → Move q e r
    → IsSerial p (push e es) r
Move-IsSerial v (enter i call out) = record {
  client = v.client;
  answers = v.answers;
  returned = λ j other answer back. v.returned j other answer (ground arith);
}
Move-IsSerial v (act i a) = Act-IsSerial v a
Move-IsSerial v (leave i call answer at_end) = record {
  client = v.client;
  answers = v.answers;
  returned = λ j other found back. v.returned j other found (ground arith);
}

Moves-IsSerial :
    {p : Callers} {es : List Event} {q : Callers}
    → ((i : ℕ) → p.phases i ≡ outside)
    → Moves p es q
    → IsSerial p es q
Moves-IsSerial start here = record {
  client = refl;
  answers = tt;
  returned = λ i call answer back. absurd (ground (arith, start i));
}
Moves-IsSerial start (next moves move) = Move-IsSerial (Moves-IsSerial start moves) move

-- However the calls interleave, from a start with no call under way, the cache is what the calls that
-- were settled leave when they run alone, one after another, each answers what it answers in that
-- run, and a goroutine that is about to return has the answer of one of its own.
pub Moves-AreAnswers :
    (p : Callers) (es : List Event) (q : Callers)
    → ((i : ℕ) → p.phases i ≡ outside)
    → Moves p es q
    → (replay p.client es ≡ q.client)
      × AreAnswers p.client es
      × ((i : ℕ) (call : Call) (answer : Answer)
          → q.phases i ≡ returning call answer
          → Happened (event i call answer) es)
Moves-AreAnswers p es q start moves =
    let v = Moves-IsSerial start moves in (v.client, v.answers, v.returned)

-- A call that asked for a client got one with the key's region and role.
abbrev pub IsGoodAnswer : Call → Answer → Type 0
IsGoodAnswer (runtime_of key) answer =
    (cl : SdkClient) × (answer ≡ answered (ok cl)) × IsFor key cl.config
IsGoodAnswer (control_of key) answer =
    (cl : SdkClient) × (answer ≡ answered (ok cl)) × IsFor key cl.config
IsGoodAnswer (invalidation key) answer = answer ≡ dropped

abbrev pub IsGood : Event → Type 0
IsGood e = IsGoodAnswer e.call e.answer

run-IsGood :
    (call : Call) (c : Client)
    → IsValid c
    → IsGoodAnswer call (run call c).0 × IsValid (run call c).1
unfolding run
run-IsGood (runtime_of key) c v =
    let (cl, got, own, _, _) = runtime_client_total key c v in
    ((cl, ground arith, own), runtime_client-IsValid key c v)
run-IsGood (control_of key) c v =
    let (cl, got, own) = control_client_total key c v in
    ((cl, ground arith, own), control_client-IsValid key c v)
run-IsGood (invalidation key) c v = (refl, invalidate_cache-IsValid key c v)

replay-IsValid : (c : Client) (es : List Event) → IsValid c → IsValid (replay c es)
replay-IsValid c [] v = v
replay-IsValid c (e ∷ es) v = (run-IsGood e.call (replay c es) (replay-IsValid c es v)).1

Happened-IsGood :
    (c : Client) (f : Event) (es : List Event)
    → IsValid c
    → AreAnswers c es
    → Happened f es
    → IsGood f
Happened-IsGood c f [] v answers h = absurd h
Happened-IsGood c f (e ∷ es) v answers (inl same) =
    rw (← same, ← answers.0) (run-IsGood e.call (replay c es) (replay-IsValid c es v)).0
Happened-IsGood c f (e ∷ es) v answers (inr h) = Happened-IsGood c f es v answers.1 h

-- Whatever other goroutines do meanwhile, invalidations included, a call that started from a valid
-- cache ends well: it has a client with its key's region and role. The cache stays valid.
pub Moves-IsGood :
    (p : Callers) (es : List Event) (q : Callers)
    → ((i : ℕ) → p.phases i ≡ outside)
    → IsValid p.client
    → Moves p es q
    → IsValid q.client
      × ((i : ℕ) (call : Call) (answer : Answer)
          → q.phases i ≡ returning call answer
          → IsGoodAnswer call answer)
Moves-IsGood p es q start v moves =
    let (same, answers, returned) = Moves-AreAnswers p es q start moves in
    (
      subst IsValid same (replay-IsValid p.client es v),
      λ i call answer back.
          Happened-IsGood p.client (event i call answer) es v answers (returned i call answer back),
    )
