-- ===== src/Bedrock/Client/Calls.antt =====
-- All calls of the client's cache in goroutines that run at once: runtimeClient, controlClient and
-- InvalidateCache of internal/bedrock/client.go. The look under the read lock, the part under the
-- write lock and InvalidateCache are one act each; between acts, other goroutines may act.
pub mod Linear
pub mod Bound
use k8s_ai_operator.Base.{
  ℕ, ◌≡◌, Option, none, some, List, [], ◌∷◌, Result, ok, ◌==◌, nat_eq, if◌then◌else◌,
}
use k8s_ai_operator.Base.Dict
use k8s_ai_operator.Bedrock.Client.{
  EndpointKey, key_eq, SdkClient, Client, runtime_client, control_client, locked_runtime,
  locked_control, invalidate_cache,
}

pub data Call : Type 0 where
  runtime_of control_of invalidation : EndpointKey → Call

pub data Answer : Type 0 where
  answered : Result SdkClient → Answer
  dropped : Answer

-- A call with no other call under way.
unfoldable pub run : Call → Client → Answer × Client
run (runtime_of key) c = let (r, c') = runtime_client key c in (answered r, c')
run (control_of key) c = let (r, c') = control_client key c in (answered r, c')
run (invalidation key) c = (dropped, invalidate_cache key c)

-- Where a goroutine stands: outside, before its first act, after a look that found nothing, or
-- before its return.
pub data Phase : Type 0 where
  outside : Phase
  entered : Call → Phase
  missed_runtime missed_control : EndpointKey → Phase
  returning : Call → Answer → Phase

pub record Callers : Type 0 where
  pub client : Client
  pub phases : ℕ → Phase

pub record Event : Type 0 where
  pub goroutine : ℕ
  pub call : Call
  pub answer : Answer

abbrev pub at : (ℕ → Phase) → ℕ → Phase → ℕ → Phase
at phases i phase j = if i == j then phase else phases j

abbrev pub event : ℕ → Call → Answer → Event
event i call answer = record { goroutine = i; call = call; answer = answer }

-- An act of goroutine `i` in its call. The event is the call's answer, where the act settles it.
pub data Act (p : Callers) (i : ℕ) : Option Event → Callers → Type 0 where
  runtime_found :
      (key : EndpointKey) (cl : SdkClient)
      → p.phases i ≡ entered (runtime_of key)
      → Dict.get key p.client.runtime ≡ some cl
      → Act p i
          (some (event i (runtime_of key) (answered (ok cl))))
          (record p { phases = at p.phases i (returning (runtime_of key) (answered (ok cl))) })
  runtime_missed :
      (key : EndpointKey)
      → p.phases i ≡ entered (runtime_of key)
      → Dict.get key p.client.runtime ≡ none
      → Act p i none (record p { phases = at p.phases i (missed_runtime key) })
  runtime_locked :
      (key : EndpointKey)
      → p.phases i ≡ missed_runtime key
      → Act p i
          (some (event i (runtime_of key) (answered (locked_runtime key p.client).0)))
          (record {
            client = (locked_runtime key p.client).1;
            phases =
                at p.phases i
                  (returning (runtime_of key) (answered (locked_runtime key p.client).0));
          })
  control_found :
      (key : EndpointKey) (cl : SdkClient)
      → p.phases i ≡ entered (control_of key)
      → Dict.get key p.client.control ≡ some cl
      → Act p i
          (some (event i (control_of key) (answered (ok cl))))
          (record p { phases = at p.phases i (returning (control_of key) (answered (ok cl))) })
  control_missed :
      (key : EndpointKey)
      → p.phases i ≡ entered (control_of key)
      → Dict.get key p.client.control ≡ none
      → Act p i none (record p { phases = at p.phases i (missed_control key) })
  control_locked :
      (key : EndpointKey)
      → p.phases i ≡ missed_control key
      → Act p i
          (some (event i (control_of key) (answered (locked_control key p.client).0)))
          (record {
            client = (locked_control key p.client).1;
            phases =
                at p.phases i
                  (returning (control_of key) (answered (locked_control key p.client).0));
          })
  invalidated :
      (key : EndpointKey)
      → p.phases i ≡ entered (invalidation key)
      → Act p i (some (event i (invalidation key) dropped)) (record {
        client = invalidate_cache key p.client;
        phases = at p.phases i (returning (invalidation key) dropped);
      })

-- A goroutine may call at any time, act in its call, and return.
pub data Move (p : Callers) : Option Event → Callers → Type 0 where
  enter :
      (i : ℕ) (call : Call)
      → p.phases i ≡ outside
      → Move p none (record p { phases = at p.phases i (entered call) })
  act : {e : Option Event} {q : Callers} → (i : ℕ) → Act p i e q → Move p e q
  leave :
      (i : ℕ) (call : Call) (answer : Answer)
      → p.phases i ≡ returning call answer
      → Move p none (record p { phases = at p.phases i outside })

abbrev pub push : Option Event → List Event → List Event
push none es = es
push (some e) es = e ∷ es

-- The moves from `p`, with their events, the latest first.
pub data Moves (p : Callers) : List Event → Callers → Type 0 where
  here : Moves p [] p
  next :
      {es : List Event} {e : Option Event} {q r : Callers}
      → Moves p es q
      → Move q e r
      → Moves p (push e es) r
