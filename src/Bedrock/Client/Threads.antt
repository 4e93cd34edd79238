-- ===== src/Bedrock/Client/Threads.antt =====
-- runtimeClient called by any number of goroutines: an atomic look-up under the read lock, and an
-- atomic second look with the creation under the write lock. Between the two, others may run.
use k8s_ai_operator.Base.{
  ℕ, ◌≡◌, none, some, ok, ◌==◌, arith, if◌then◌else◌, Option-cases, inl, inr, nat_eq, ◌⊎◌, sym, ◌∙◌,
}
use mathlib.Core.Option.{some-injective}
use k8s_ai_operator.Base.Dict
use k8s_ai_operator.Base.Dict.{get-put}
use k8s_ai_operator.Bedrock.Client.{
  EndpointKey, key_eq, SdkClient, Client, assume_role_config, locked_runtime,
}
use k8s_ai_operator.Bedrock.Client.Laws.{fresh}

-- Where a goroutine stands in its call for a key.
pub data Phase : Type 0 where
  idle : Phase
  reading : EndpointKey → Phase
  missed : EndpointKey → Phase
  done : EndpointKey → SdkClient → Phase

pub record Pool : Type 0 where
  pub client : Client
  pub phases : ℕ → Phase

abbrev pub at : (ℕ → Phase) → ℕ → Phase → ℕ → Phase
at phases i phase j = if i == j then phase else phases j

pub data Step (p : Pool) : Pool → Type 0 where
  call :
      (i : ℕ) (key : EndpointKey)
      → p.phases i ≡ idle
      → Step p (record p { phases = at p.phases i (reading key) })
  hit :
      (i : ℕ) (key : EndpointKey) (cl : SdkClient)
      → p.phases i ≡ reading key
      → Dict.get key p.client.runtime ≡ some cl
      → Step p (record p { phases = at p.phases i (done key cl) })
  miss :
      (i : ℕ) (key : EndpointKey)
      → p.phases i ≡ reading key
      → Dict.get key p.client.runtime ≡ none
      → Step p (record p { phases = at p.phases i (missed key) })
  lock :
      (i : ℕ) (key : EndpointKey) (cl : SdkClient)
      → p.phases i ≡ missed key
      → (locked_runtime key p.client).0 ≡ ok cl
      → Step p (record {
        client = (locked_runtime key p.client).1;
        phases = at p.phases i (done key cl);
      })

pub data Reach (p : Pool) : Pool → Type 0 where
  here : Reach p p
  next : {q r : Pool} → Reach p q → Step q r → Reach p r

-- Whoever has finished holds the client that the cache holds for its key.
abbrev pub IsAgreed : Pool → Type 0
IsAgreed p =
    (i : ℕ) (key : EndpointKey) (cl : SdkClient)
    → p.phases i ≡ done key cl
    → Dict.get key p.client.runtime ≡ some cl

locked_runtime-keeps :
    (key k : EndpointKey) (c : Client) (cl : SdkClient)
    → Dict.get k c.runtime ≡ some cl
    → Dict.get k (locked_runtime key c).1.runtime ≡ some cl
unfolding locked_runtime assume_role_config
locked_runtime-keeps key k c cl h = ground (arith, get-put key k (fresh key c) c.runtime)

locked_runtime-holds :
    (key : EndpointKey) (c : Client) (cl : SdkClient)
    → (locked_runtime key c).0 ≡ ok cl
    → Dict.get key (locked_runtime key c).1.runtime ≡ some cl
unfolding locked_runtime assume_role_config
locked_runtime-holds key c cl h = ground (arith, get-put key key (fresh key c) c.runtime)

locked_runtime_total :
    (key : EndpointKey) (c : Client) → (cl : SdkClient) × ((locked_runtime key c).0 ≡ ok cl)
unfolding locked_runtime assume_role_config
locked_runtime_total key c = elim (Option-cases (Dict.get key c.runtime)) [
  | inl e ↦ (fresh key c, ground arith)
  | inr (cl, e) ↦ (cl, ground arith)
]

Step-IsAgreed : {p q : Pool} → Step p q → IsAgreed p → IsAgreed q
Step-IsAgreed (call i key e) h j k cl d = ground (arith, h j k cl)
Step-IsAgreed (hit i key found e g) h j k cl d = ground (arith, h j k cl)
Step-IsAgreed (miss i key e g) h j k cl d = ground (arith, h j k cl)
Step-IsAgreed {p} (lock i key found e g) h j k cl d = ground (
  arith,
  h j k cl,
  locked_runtime-keeps key k p.client cl,
  locked_runtime-holds key p.client found g,
)

Reach-IsAgreed : {p q : Pool} → IsAgreed p → Reach p q → IsAgreed q
Reach-IsAgreed h here = h
Reach-IsAgreed h (next r s) = Step-IsAgreed s (Reach-IsAgreed h r)

idle-ne-done :
    {phase : Phase} {key : EndpointKey} {cl : SdkClient} → phase ≡ idle → phase ≡ done key cl → ⊥
idle-ne-done h k = cc

-- However the calls interleave, all goroutines that asked for the same key end with the same client,
-- if the run starts with no call under way.
pub Reach-same_client :
    (p q : Pool)
    → ((i : ℕ) → p.phases i ≡ idle)
    → Reach p q
    → (i j : ℕ) (key : EndpointKey) (a b : SdkClient) → q.phases i ≡ done key a
    → q.phases j ≡ done key b
    → a ≡ b
Reach-same_client p q start r i j key a b ea eb =
    let agreed = Reach-IsAgreed (λ k key' cl e. absurd (idle-ne-done (start k) e)) r in
    some-injective _ _ (sym (agreed i key a ea) ∙ agreed j key b eb)

abbrev pub IsDone : ℕ → EndpointKey → Pool → Type 0
IsDone i key p = (cl : SdkClient) × (p.phases i ≡ done key cl)

Reach-IsDone_of_missed :
    (p q : Pool) (i : ℕ) (key : EndpointKey)
    → Reach p q
    → q.phases i ≡ missed key
    → (r : Pool) × Reach p r × IsDone i key r
Reach-IsDone_of_missed p q i key r e =
    let (cl, g) = locked_runtime_total key q.client in
    (_, next r (lock i key cl e g), (cl, ground arith))

-- A goroutine that is in its call can always finish, by at most two steps of its own.
pub Reach-IsDone :
    (p : Pool) (i : ℕ) (key : EndpointKey)
    → (p.phases i ≡ reading key) ⊎ (p.phases i ≡ missed key)
    → (q : Pool) × Reach p q × IsDone i key q
Reach-IsDone p i key (inr e) = Reach-IsDone_of_missed p p i key here e
Reach-IsDone p i key (inl e) = elim (Option-cases (Dict.get key p.client.runtime)) [
  | inl g ↦ Reach-IsDone_of_missed p _ i key (next here (miss i key e g)) (ground arith)
  | inr (cl, g) ↦ (_, next here (hit i key cl e g), (cl, ground arith))
]
