-- ===== src/Proxy/Limiter/Requests.antt =====
-- Requests that are throttled at once: getLimiter and `limiter.Allow()` of HandleInvoke in
-- internal/proxy/handler.go, in goroutines. getLimiter holds the handler's mutex, so it is one act; it
-- gives a pointer, and Allow, which locks its limiter, is another. Between the two, others may act.
pub mod Laws
pub mod History
use k8s_ai_operator.Base.{
  ℕ, ◌+◌, ℤ, Text, Bool, ◌≡◌, Option, none, some, List, [], ◌∷◌, ◌==◌, nat_eq, text_eq,
  if◌then◌else◌,
}
use k8s_ai_operator.Base.Dict
use k8s_ai_operator.Base.Dict.{Dict}
use k8s_ai_operator.Base.Floats.{FloatOps}
use k8s_ai_operator.Proxy.Limiter.{BucketOps, limiter_key, new_bucket}

-- What HandleInvoke gives getLimiter.
pub record Request : Type 0 where
  pub namespace : Text
  pub name : Text
  pub requests_per_minute : ℤ

abbrev pub key_of : Request → Text
key_of r = limiter_key r.namespace r.name

-- `h.rateLimiters`, with the limiters that its entries point to.
pub record Limiters (Bucket : Type 0) : Type 0 where
  pub entries : Dict Text ℕ
  pub heap : Dict ℕ Bucket
  pub allocated : ℕ

abbrev pub no_limiters : {Bucket : Type 0} → Limiters Bucket
no_limiters = record { entries = []; heap = []; allocated = 0 }

-- Where a goroutine stands: elsewhere, before getLimiter, with the pointer, or after Allow.
pub data Phase : Type 0 where
  outside : Phase
  entered : Request → Phase
  holding : Request → ℕ → Phase
  decided : Request → Bool → Phase

pub record Handlers (Bucket : Type 0) : Type 0 where
  pub limiters : Limiters Bucket
  pub phases : ℕ → Phase

abbrev pub at : (ℕ → Phase) → ℕ → Phase → ℕ → Phase
at phases i phase j = if i == j then phase else phases j

pub data Event : Type 0 where
  located : Request → Event
  allowed : (goroutine : ℕ) → Request → (now : ℕ) → Bool → Event

abbrev pub push : Option Event → List Event → List Event
push none es = es
push (some e) es = e ∷ es

module _ {Float Bucket : Type 0} (fl : FloatOps Float) (bucket : BucketOps Float Bucket) where
  -- getLimiter with its pointer.
  unfoldable pub locate : Request → Limiters Bucket → ℕ × Limiters Bucket
  locate r l = elim (Dict.get (key_of r) l.entries) [
    | some pointer ↦ (pointer, l)
    | none ↦ (
      l.allocated,
      record {
        entries = Dict.put (key_of r) l.allocated l.entries;
        heap = Dict.put l.allocated (new_bucket fl bucket r.requests_per_minute) l.heap;
        allocated = l.allocated + 1;
      },
    )
  ]

  -- A goroutine may handle a request at any time, act in it, and go on.
  pub data Move (p : Handlers Bucket) : Option Event → Handlers Bucket → Type 0 where
    enter :
        (i : ℕ) (r : Request)
        → p.phases i ≡ outside
        → Move p none (record p { phases = at p.phases i (entered r) })
    get_limiter :
        (i : ℕ) (r : Request)
        → p.phases i ≡ entered r
        → Move p (some (located r)) (record {
          limiters = (locate r p.limiters).1;
          phases = at p.phases i (holding r (locate r p.limiters).0);
        })
    allow :
        (i : ℕ) (r : Request) (pointer now : ℕ) (b : Bucket)
        → p.phases i ≡ holding r pointer
        → Dict.get pointer p.limiters.heap ≡ some b
        → Move p (some (allowed i r now (bucket.allow now b).0)) (record {
          limiters = record p.limiters {
            heap = Dict.put pointer (bucket.allow now b).1 p.limiters.heap;
          };
          phases = at p.phases i (decided r (bucket.allow now b).0);
        })
    leave :
        (i : ℕ) (r : Request) (answer : Bool)
        → p.phases i ≡ decided r answer
        → Move p none (record p { phases = at p.phases i outside })

  -- The moves from `p`, with their events, the latest first.
  pub data Moves (p : Handlers Bucket) : List Event → Handlers Bucket → Type 0 where
    here : Moves p [] p
    next :
        {es : List Event} {e : Option Event} {q r : Handlers Bucket}
        → Moves p es q
        → Move q e r
        → Moves p (push e es) r
