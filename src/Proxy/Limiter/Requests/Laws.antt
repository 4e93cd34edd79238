-- ===== src/Proxy/Limiter/Requests/Laws.antt =====
-- What getLimiter and Allow (internal/proxy/handler.go) do to the map of limiters and to the limiters
-- behind its pointers.
use k8s_ai_operator.Base.{
  ℕ, ◌+◌, ◌<◌, Text, ◌≡◌, refl, ◌∙◌, ◌⊎◌, inl, inr, Option, Option-cases, none, some, arith, ◌==◌,
  nat_eq, text_eq, if◌then◌else◌, Bool-cases,
}
use k8s_ai_operator.Base.Dict
use k8s_ai_operator.Base.Dict.{Dict, get-put}
use k8s_ai_operator.Base.Floats.{FloatOps}
use k8s_ai_operator.Proxy.Limiter.{BucketOps, new_bucket}
use k8s_ai_operator.Proxy.Limiter.Requests.{Request, key_of, Limiters, no_limiters, locate}

abbrev pub read : {Bucket : Type 0} → Text → Limiters Bucket → Option Bucket
read k l = elim (Dict.get k l.entries) [ none ↦ none | some pointer ↦ Dict.get pointer l.heap ]

pub record AreLimiters {Bucket : Type 0} (l : Limiters Bucket) : Type 0 where
  pub within :
      (k : Text) (pointer : ℕ) → Dict.get k l.entries ≡ some pointer → pointer < l.allocated
  pub present :
      (k : Text) (pointer : ℕ)
      → Dict.get k l.entries ≡ some pointer
      → (b : Bucket) × (Dict.get pointer l.heap ≡ some b)
  pub apart :
      (j k : Text) (pointer : ℕ)
      → Dict.get j l.entries ≡ some pointer
      → Dict.get k l.entries ≡ some pointer
      → j ≡ k

pub no_limiters-AreLimiters : {Bucket : Type 0} → AreLimiters {Bucket = Bucket} no_limiters
unfolding Dict.get
no_limiters-AreLimiters = record {
  within = λ k pointer e. absurd (ground arith);
  present = λ k pointer e. absurd (ground arith);
  apart = λ j k pointer e e'. absurd (ground arith);
}

-- Allow through a pointer.
abbrev pub write : {Bucket : Type 0} → ℕ → Bucket → Limiters Bucket → Limiters Bucket
write pointer b l = record l { heap = Dict.put pointer b l.heap }

module _ {Bucket : Type 0} (l : Limiters Bucket) (v : AreLimiters l) where
  pub write-AreLimiters : (pointer : ℕ) (b : Bucket) → AreLimiters (write pointer b l)
  write-AreLimiters pointer b = record {
    within = v.within;
    present = λ k p e.
        let (c, old) = v.present k p e in
        elim (Bool-cases (pointer == p)) [
          | inl same ↦ (b, get-put pointer p b l.heap ∙ rw same refl)
          | inr other ↦ (c, get-put pointer p b l.heap ∙ rw other old)
        ];
    apart = v.apart;
  }

  pub read-write :
      (k j : Text) (pointer : ℕ) (b : Bucket)
      → Dict.get j l.entries ≡ some pointer
      → read k (write pointer b l) ≡ (if j == k then some b else read k l)
  read-write k j pointer b e = elim (Option-cases (Dict.get k l.entries)) [
    | inl absent ↦ ground arith
    | inr (p, there) ↦ ground (arith, v.apart j k pointer, get-put pointer p b l.heap)
  ]

module _ {Float Bucket : Type 0} (fl : FloatOps Float) (bucket : BucketOps Float Bucket) where
  module _ (r : Request) (l : Limiters Bucket) where
    pub locate-entry :
        Dict.get (key_of r) (locate fl bucket r l).1.entries ≡ some (locate fl bucket r l).0
    unfolding locate
    locate-entry = ground (arith, get-put (key_of r) (key_of r) l.allocated l.entries)

    pub locate-keeps :
        (k : Text) (pointer : ℕ)
        → Dict.get k l.entries ≡ some pointer
        → Dict.get k (locate fl bucket r l).1.entries ≡ some pointer
    unfolding locate
    locate-keeps k pointer e = ground (arith, get-put (key_of r) k l.allocated l.entries)

    -- An entry after getLimiter is an old one, or the new one of a key that had none.
    locate-old :
        (k : Text) (pointer : ℕ)
        → Dict.get k (locate fl bucket r l).1.entries ≡ some pointer
        → (Dict.get k l.entries ≡ some pointer)
          ⊎ ((key_of r ≡ k)
              × (pointer ≡ l.allocated)
              × (Dict.get k l.entries ≡ none)
              × (locate fl bucket r l ≡ (
                l.allocated,
                record {
                  entries = Dict.put (key_of r) l.allocated l.entries;
                  heap = Dict.put l.allocated (new_bucket fl bucket r.requests_per_minute) l.heap;
                  allocated = l.allocated + 1;
                },
              )))
    unfolding locate
    locate-old k pointer e = ground (arith, get-put (key_of r) k l.allocated l.entries)

    pub locate-read :
        AreLimiters l
        → (k : Text)
        → read k (locate fl bucket r l).1 ≡ (
            if key_of r == k
            then some
                (elim (read k l) [ some b ↦ b | none ↦ new_bucket fl bucket r.requests_per_minute ])
            else read k l)
    unfolding locate
    locate-read v k = elim (Option-cases (Dict.get (key_of r) l.entries)) [
      | inl absent ↦ elim (Option-cases (Dict.get k l.entries)) [
        | inl unknown ↦ ground (
          arith,
          get-put (key_of r) k l.allocated l.entries,
          get-put l.allocated l.allocated (new_bucket fl bucket r.requests_per_minute) l.heap,
        )
        | inr (p, there) ↦ ground (
          arith,
          v.within k p there,
          get-put (key_of r) k l.allocated l.entries,
          get-put l.allocated p (new_bucket fl bucket r.requests_per_minute) l.heap,
        )
      ]
      | inr (p, there) ↦ let (b, old) = v.present (key_of r) p there in ground arith
    ]

    pub locate-AreLimiters : AreLimiters l → AreLimiters (locate fl bucket r l).1
    unfolding locate
    locate-AreLimiters v = elim (Option-cases (Dict.get (key_of r) l.entries)) [
      | inr (p, there) ↦ rw (locate, there) v
      | inl absent ↦
          let new = new_bucket fl bucket r.requests_per_minute in
          let entry = λ (k : Text). get-put (key_of r) k l.allocated l.entries in
          rw (locate, absent)
            (record {
              within = λ k p e. ground (arith, entry k, v.within k p);
              present = λ k p e. elim (Bool-cases (key_of r == k)) [
                | inl own ↦ (new, ground (arith, entry k, get-put l.allocated p new l.heap))
                | inr other ↦
                    let (b, old) = v.present k p (ground (arith, entry k)) in
                    (b, ground (arith, entry k, v.within k p, get-put l.allocated p new l.heap))
              ];
              apart = λ j k p e e'.
                  ground (arith, entry j, entry k, v.within j p, v.within k p, v.apart j k p);
            })
    ]
