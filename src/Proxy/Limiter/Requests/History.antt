-- ===== src/Proxy/Limiter/Requests/History.antt =====
-- Histories of getLimiter and Allow (internal/proxy/handler.go), and the buckets that they leave.
use k8s_ai_operator.Base.{
  ℕ, Text, Bool, ◌≡◌, refl, sym, ◌∙◌, inl, inr, Option, none, some, List, [], ◌∷◌, Any, arith, ◌==◌,
  nat_eq, text_eq, if◌then◌else◌, Bool-cases,
}
use k8s_ai_operator.Base.Dict
use k8s_ai_operator.Base.Dict.{Dict}
use k8s_ai_operator.Base.Floats.{FloatOps}
use k8s_ai_operator.Proxy.Limiter.{BucketOps, new_bucket, admit}
use k8s_ai_operator.Proxy.Limiter.Laws.{current, get-admit}
use k8s_ai_operator.Proxy.Limiter.Requests.{
  Request, key_of, Limiters, no_limiters, Phase, outside, holding, decided, Handlers, Event,
  located, allowed, locate, Move, enter, get_limiter, allow, leave, push, Moves, here, next,
}
use k8s_ai_operator.Proxy.Limiter.Requests.Laws.{
  read, AreLimiters, no_limiters-AreLimiters, write, write-AreLimiters, read-write, locate-entry,
  locate-keeps, locate-read, locate-AreLimiters,
}

module _ {Float Bucket : Type 0} (fl : FloatOps Float) (bucket : BucketOps Float Bucket) where
  -- The one bucket of a key: made with the rate of the first request that asks for it, and asked by
  -- every Allow for the key, one after the other.
  abbrev pub bucket_after : Text → List Event → Option Bucket
  bucket_after k [] = none
  bucket_after k (located r ∷ es) =
      let before = bucket_after k es in
      if key_of r == k
      then some (elim before [ some b ↦ b | none ↦ new_bucket fl bucket r.requests_per_minute ])
      else before
  bucket_after k (allowed i r now answer ∷ es) =
      let before = bucket_after k es in
      if key_of r == k
      then elim before [ none ↦ none | some b ↦ some (bucket.allow now b).1 ]
      else before

  -- Each answer is that of the key's one bucket.
  abbrev pub AreAnswers : List Event → Type 0
  AreAnswers [] = Unit
  AreAnswers (located r ∷ es) = AreAnswers es
  AreAnswers (allowed i r now answer ∷ es) =
      ((b : Bucket) × (bucket_after (key_of r) es ≡ some b) × ((bucket.allow now b).0 ≡ answer))
      × AreAnswers es

  -- The goroutine was given the answer.
  abbrev pub Was : ℕ → Request → Bool → List Event → Type 0
  Was i r answer es = Any (λ e. (now : ℕ) × (e ≡ allowed i r now answer)) es

  record IsHistory (es : List Event) (p : Handlers Bucket) : Type 0 where
    limiters : AreLimiters p.limiters
    reads : (k : Text) → read k p.limiters ≡ bucket_after k es
    answers : AreAnswers es
    held :
        (i : ℕ) (r : Request) (pointer : ℕ)
        → p.phases i ≡ holding r pointer
        → Dict.get (key_of r) p.limiters.entries ≡ some pointer
    was : (i : ℕ) (r : Request) (answer : Bool) → p.phases i ≡ decided r answer → Was i r answer es

  Move-IsHistory :
      {es : List Event} {e : Option Event} {p q : Handlers Bucket}
      → Move fl bucket p e q
      → IsHistory es p
      → IsHistory (push e es) q
  Move-IsHistory (enter i r out) h = record {
    limiters = h.limiters;
    reads = h.reads;
    answers = h.answers;
    held = λ j s pointer e. ground (arith, h.held j s pointer);
    was = λ j s answer e. h.was j s answer (ground arith);
  }
  Move-IsHistory {es} {e} {p} (get_limiter i r at_entry) h = record {
    limiters = locate-AreLimiters fl bucket r p.limiters h.limiters;
    reads = λ k. locate-read fl bucket r p.limiters h.limiters k ∙ ground (arith, h.reads k);
    answers = h.answers;
    held = λ j s pointer e. elim (Bool-cases (i == j)) [
      | inl same ↦
          let key : key_of s ≡ key_of r = ground arith in
          let own : pointer ≡ (locate fl bucket r p.limiters).0 = ground arith in
          rw (key, own) (locate-entry fl bucket r p.limiters)
      | inr other ↦
          locate-keeps fl bucket r p.limiters (key_of s) pointer
            (ground (arith, h.held j s pointer))
    ];
    was = λ j s answer e. inr (h.was j s answer (ground arith));
  }
  Move-IsHistory {es} {e} {p} (allow i r pointer now b at_limiter there) h =
      let own = h.held i r pointer at_limiter in
      let known : bucket_after (key_of r) es ≡ some b = ground (arith, h.reads (key_of r)) in
      record {
        limiters = write-AreLimiters p.limiters h.limiters pointer (bucket.allow now b).1;
        reads = λ k.
            read-write p.limiters h.limiters k (key_of r) pointer (bucket.allow now b).1 own
            ∙ ground (arith, h.reads k);
        answers = ((b, known, refl), h.answers);
        held = λ j s q e. ground (arith, h.held j s q);
        was = λ j s answer e. elim (Bool-cases (i == j)) [
          | inl same ↦ inl (now, ground arith)
          | inr other ↦ inr (h.was j s answer (ground arith))
        ];
      }
  Move-IsHistory (leave i r answer done) h = record {
    limiters = h.limiters;
    reads = h.reads;
    answers = h.answers;
    held = λ j s pointer e. ground (arith, h.held j s pointer);
    was = λ j s other e. h.was j s other (ground arith);
  }

  Moves-IsHistory :
      {p : Handlers Bucket} {es : List Event} {q : Handlers Bucket}
      → Moves fl bucket p es q
      → IsHistory [] p
      → IsHistory es q
  Moves-IsHistory here h = h
  Moves-IsHistory (next moves m) h = Move-IsHistory m (Moves-IsHistory moves h)

  -- From a new handler, however requests interleave: there is one bucket for each key, a namespace and a
  -- name, that was asked for, made with the rate of the first request to ask, and the answers of the
  -- requests with that key are those of this bucket, asked once for each, one after the other. A
  -- request that has its limiter can always ask it.
  pub Moves-one_bucket :
      (phases : ℕ → Phase) (es : List Event) (q : Handlers Bucket)
      → ((i : ℕ) → phases i ≡ outside)
      → Moves fl bucket (record { limiters = no_limiters; phases = phases }) es q
      → ((k : Text) → read k q.limiters ≡ bucket_after k es)
        × AreAnswers es
        × ((i : ℕ) (r : Request) (answer : Bool)
            → q.phases i ≡ decided r answer
            → Was i r answer es)
        × ((i : ℕ) (r : Request) (pointer : ℕ)
            → q.phases i ≡ holding r pointer
            → (b : Bucket) × (Dict.get pointer q.limiters.heap ≡ some b))
  unfolding Dict.get
  Moves-one_bucket phases es q start moves =
      let h = Moves-IsHistory moves (record {
        limiters = no_limiters-AreLimiters;
        reads = λ k. refl;
        answers = tt;
        held = λ i r pointer e. absurd (ground (arith, start i));
        was = λ i r answer e. absurd (ground (arith, start i));
      }) in
      (
        h.reads,
        h.answers,
        h.was,
        λ i r pointer e. h.limiters.present (key_of r) pointer (h.held i r pointer e),
      )

  -- With no other request in between, getLimiter and Allow through its pointer do what `admit` does on
  -- a map that holds the limiters' present states.
  pub admit-locate :
      (r : Request) (now : ℕ) (l : Limiters Bucket) (m : Dict Text Bucket)
      → AreLimiters l
      → ((k : Text) → read k l ≡ Dict.get k m)
      → let (pointer, l') = locate fl bucket r l in
        let (passes, m') = admit fl bucket r.namespace r.name r.requests_per_minute now m in
        (b : Bucket) × (Dict.get pointer l'.heap ≡ some b)
        × ((bucket.allow now b).0 ≡ passes)
        × ((k : Text) → read k (write pointer (bucket.allow now b).1 l') ≡ Dict.get k m')
  admit-locate r now l m v same =
      let entry = locate-entry fl bucket r l in
      let kept = locate-AreLimiters fl bucket r l v in
      let (b, there) = kept.present (key_of r) (locate fl bucket r l).0 entry in
      let own : b ≡ current fl bucket r.namespace r.name r.requests_per_minute m =
        ground (arith, locate-read fl bucket r l v (key_of r), same (key_of r)) in
      let alone =
        λ (k : Text). get-admit fl bucket r.namespace r.name r.requests_per_minute now m k in
      (
        b,
        there,
        rw own (sym (alone (key_of r)).0),
        λ k.
            read-write (locate fl bucket r l).1 kept k (key_of r) (locate fl bucket r l).0
              (bucket.allow now b).1 entry
            ∙ ground (arith, own, locate-read fl bucket r l v k, same k, (alone k).1),
      )
