-- ===== src/Proxy/Limiter/Laws.antt =====
-- One bucket per endpoint.
use k8s_ai_operator.Base.{
  ℕ, ℤ, Text, ◌≡◌, ap, sym, ◌∙◌, Option, Option-cases, none, some, arith, ◌==◌, text_eq,
  if◌then◌else◌, inl, inr,
}
use k8s_ai_operator.Base.Dict
use k8s_ai_operator.Base.Dict.{Dict, get-put}
use k8s_ai_operator.Base.Floats.{FloatOps}
use k8s_ai_operator.Proxy.Path.{cut_at, parse_path_segments}
use k8s_ai_operator.Proxy.Path.Laws.{Lacks, cut_at-append, parse_path_segments_iff}
use k8s_ai_operator.Proxy.Limiter.{BucketOps, limiter_key, new_bucket, admit}

limiter_key-injective :
    (a b c d : Text)
    → Lacks b'/' a
    → Lacks b'/' c
    → limiter_key a b ≡ limiter_key c d
    → (a ≡ c) × (b ≡ d)
unfolding limiter_key
limiter_key-injective a b c d la lc e =
    let same : ◌≡◌ {A = Option (Text × Text)} (some (a, b)) (some (c, d)) =
      sym (cut_at-append b'/' a b la) ∙ ap (cut_at b'/') e ∙ cut_at-append b'/' c d lc in
    ground arith

-- Two paths share a bucket only if they name the same endpoint: though the key of a bucket is one
-- text, and names may have slashes, the namespaces that are read from paths have none.
pub limiter_key-parse :
    (path path' prefix : Text) (a b c d : Text)
    → parse_path_segments path prefix ≡ some (a, b)
    → parse_path_segments path' prefix ≡ some (c, d)
    → limiter_key a b ≡ limiter_key c d
    → (a ≡ c) × (b ≡ d)
limiter_key-parse path path' prefix a b c d e e' same =
    limiter_key-injective a b c d ((parse_path_segments_iff path prefix a b).0 e).1
      ((parse_path_segments_iff path' prefix c d).0 e').1 same

module _ {Float Bucket : Type 0} (fl : FloatOps Float) (bucket : BucketOps Float Bucket) where
  -- The endpoint's bucket before the request: a new one where there is none yet.
  abbrev pub current : Text → Text → ℤ → Dict Text Bucket → Bucket
  current namespace name rpm m = elim (Dict.get (limiter_key namespace name) m) [
    | some b ↦ b
    | none ↦ new_bucket fl bucket rpm
  ]

  -- A request is decided by the bucket of its own endpoint, a new one if there is none yet; that bucket
  -- is kept as it is left, and no other bucket changes.
  pub get-admit :
      (namespace name : Text) (rpm : ℤ) (now : ℕ) (m : Dict Text Bucket) (key : Text)
      → ((admit fl bucket namespace name rpm now m).0
          ≡ (bucket.allow now (current namespace name rpm m)).0)
        × (Dict.get key (admit fl bucket namespace name rpm now m).1 ≡ (
            if limiter_key namespace name == key
            then some (bucket.allow now (current namespace name rpm m)).1
            else Dict.get key m))
  unfolding admit
  get-admit namespace name rpm now m key =
      elim (Option-cases (Dict.get (limiter_key namespace name) m)) [
        | inl new ↦
            let b = new_bucket fl bucket rpm in
            let k = limiter_key namespace name in
            ground (arith, get-put k key b m, get-put k key (bucket.allow now b).1 (Dict.put k b m))
        | inr (b, old) ↦
            ground (arith, get-put (limiter_key namespace name) key (bucket.allow now b).1 m)
      ]

  -- Once an endpoint has a bucket, a later change of its requests per minute has no effect.
  pub admit_rate_ignored :
      (namespace name : Text) (rpm rpm' : ℤ) (now : ℕ) (m : Dict Text Bucket) (b : Bucket)
      → Dict.get (limiter_key namespace name) m ≡ some b
      → admit fl bucket namespace name rpm now m ≡ admit fl bucket namespace name rpm' now m
  unfolding admit
  admit_rate_ignored namespace name rpm rpm' now m b e = ground arith
