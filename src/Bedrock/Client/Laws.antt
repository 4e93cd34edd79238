-- ===== src/Bedrock/Client/Laws.antt =====
-- The cache hands out clients with the credentials and region of their key, and the same one until
-- it is invalidated.
use k8s_ai_operator.Base.{
  ℕ, ◌+◌, ◌<◌, lit, ◌≡◌, refl, ◌≢◌, none, some, ok, ◌==◌, arith, Option-cases, inl, inr, [],
  Bool-cases, text_eq,
}
use k8s_ai_operator.Base.Dict
use k8s_ai_operator.Base.Dict.{Dict, get-put, get-remove}
use k8s_ai_operator.Bedrock.Client.{
  EndpointKey, key_eq, Config, assumed, SdkClient, Client, assume_role_config, runtime_client,
  control_client, invalidate_cache, new_guardrail_client,
}

-- The configuration for a key: its region, and its role assumed under the operator's session name.
abbrev pub IsFor : EndpointKey → Config → Type 0
IsFor key cfg =
    (cfg.region ≡ key.region) × (cfg.credentials ≡ assumed key.role_arn (lit "k8s-ai-operator"))

-- Each cached client is for its key, it has been allocated, and no two keys share a client.
pub record IsCache (allocated : ℕ) (d : Dict EndpointKey SdkClient) : Type 0 where
  pub own : (k : EndpointKey) (cl : SdkClient) → Dict.get k d ≡ some cl → IsFor k cl.config
  pub old : (k : EndpointKey) (cl : SdkClient) → Dict.get k d ≡ some cl → cl.id < allocated
  pub apart :
      (j k : EndpointKey) (a b : SdkClient)
      → Dict.get j d ≡ some a
      → Dict.get k d ≡ some b
      → a.id ≡ b.id
      → j ≡ k

pub record IsValid (c : Client) : Type 0 where
  pub runtime : IsCache c.allocated c.runtime
  pub control : IsCache c.allocated c.control

-- The client that a miss on `key` creates.
abbrev pub fresh : EndpointKey → Client → SdkClient
fresh key c = record {
  id = c.allocated;
  config = record {
    region = key.region;
    credentials = assumed key.role_arn (lit "k8s-ai-operator");
  };
}

pub runtime_client_miss :
    (key : EndpointKey) (c : Client)
    → Dict.get key c.runtime ≡ none
    → runtime_client key c ≡ (
      ok (fresh key c),
      record c { runtime = Dict.put key (fresh key c) c.runtime; allocated = c.allocated + 1 },
    )
unfolding runtime_client assume_role_config
runtime_client_miss key c e = ground arith

pub runtime_client_hit :
    (key : EndpointKey) (c : Client) (cl : SdkClient)
    → Dict.get key c.runtime ≡ some cl
    → runtime_client key c ≡ (ok cl, c)
unfolding runtime_client
runtime_client_hit key c cl e = ground arith

control_client_miss :
    (key : EndpointKey) (c : Client)
    → Dict.get key c.control ≡ none
    → control_client key c ≡ (
      ok (fresh key c),
      record c { control = Dict.put key (fresh key c) c.control; allocated = c.allocated + 1 },
    )
unfolding control_client assume_role_config
control_client_miss key c e = ground arith

control_client_hit :
    (key : EndpointKey) (c : Client) (cl : SdkClient)
    → Dict.get key c.control ≡ some cl
    → control_client key c ≡ (ok cl, c)
unfolding control_client
control_client_hit key c cl e = ground arith

module _ {n : ℕ} {d : Dict EndpointKey SdkClient} (v : IsCache n d) where
  IsCache-later : IsCache (n + 1) d
  IsCache-later = record {
    own = v.own;
    old = λ k cl e. omega (arith, v.old k cl e);
    apart = v.apart;
  }

  IsCache-remove : (key : EndpointKey) → IsCache n (Dict.remove key d)
  IsCache-remove key = record {
    own = λ k cl e. ground (arith, get-remove key k d, v.own k cl);
    old = λ k cl e. ground (arith, get-remove key k d, v.old k cl);
    apart = λ j k a b ea eb same.
        ground (arith, get-remove key j d, get-remove key k d, v.apart j k a b);
  }

module _ (c : Client) {d : Dict EndpointKey SdkClient} (v : IsCache c.allocated d) where
  IsCache-put : (key : EndpointKey) → IsCache (c.allocated + 1) (Dict.put key (fresh key c) d)
  IsCache-put key = record {
    own = λ k cl e. ground (arith, get-put key k (fresh key c) d, v.own k cl);
    old = λ k cl e. ground (arith, get-put key k (fresh key c) d, v.old k cl);
    apart = λ j k a b ea eb same. ground (
      arith,
      get-put key j (fresh key c) d,
      get-put key k (fresh key c) d,
      v.apart j k a b,
      v.old j a,
      v.old k b,
    );
  }

-- A look-up in the cache, with or without a creation, keeps the cache valid.
pub runtime_client-IsValid :
    (key : EndpointKey) (c : Client) → IsValid c → IsValid (runtime_client key c).1
runtime_client-IsValid key c v = elim (Option-cases (Dict.get key c.runtime)) [
  | inl miss ↦
      rw (runtime_client_miss key c miss)
        (record { runtime = IsCache-put c v.runtime key; control = IsCache-later v.control })
  | inr (cl, hit) ↦ rw (runtime_client_hit key c cl hit) v
]

pub control_client-IsValid :
    (key : EndpointKey) (c : Client) → IsValid c → IsValid (control_client key c).1
control_client-IsValid key c v = elim (Option-cases (Dict.get key c.control)) [
  | inl miss ↦
      rw (control_client_miss key c miss)
        (record { runtime = IsCache-later v.runtime; control = IsCache-put c v.control key })
  | inr (cl, hit) ↦ rw (control_client_hit key c cl hit) v
]

pub invalidate_cache-IsValid :
    (key : EndpointKey) (c : Client) → IsValid c → IsValid (invalidate_cache key c)
unfolding invalidate_cache
invalidate_cache-IsValid key c v = record {
  runtime = IsCache-remove v.runtime key;
  control = IsCache-remove v.control key;
}

new_guardrail_client-IsValid :
    (key : EndpointKey) (c : Client) → IsValid c → IsValid (new_guardrail_client key c).1
unfolding new_guardrail_client
new_guardrail_client-IsValid key c v = elim (Bool-cases (key.role_arn == [])) [
  | inl none_given ↦
      rw none_given
        (record { runtime = IsCache-later v.runtime; control = IsCache-later v.control })
  | inr given ↦ rw given (control_client-IsValid key c v)
]

-- Every operation of the client keeps the cache valid: each cached client has the region of its key
-- and its key's role, and no two keys share one.
pub operations-IsValid :
    (key : EndpointKey) (c : Client)
    → IsValid c
    → IsValid (runtime_client key c).1
      × IsValid (control_client key c).1
      × IsValid (invalidate_cache key c)
      × IsValid (new_guardrail_client key c).1
operations-IsValid key c v = (
  runtime_client-IsValid key c v,
  control_client-IsValid key c v,
  invalidate_cache-IsValid key c v,
  new_guardrail_client-IsValid key c v,
)

-- In a valid cache runtimeClient succeeds, with a client for the key's region and role, and leaves
-- that client in the cache; entries for other keys stay.
pub runtime_client_total :
    (key : EndpointKey) (c : Client)
    → IsValid c
    → (cl : SdkClient) × ((runtime_client key c).0 ≡ ok cl)
      × IsFor key cl.config
      × (Dict.get key (runtime_client key c).1.runtime ≡ some cl)
      × ((k : EndpointKey)
          → k ≢ key
          → Dict.get k (runtime_client key c).1.runtime ≡ Dict.get k c.runtime)
runtime_client_total key c v = elim (Option-cases (Dict.get key c.runtime)) [
  | inl miss ↦ (
    fresh key c,
    rw (runtime_client_miss key c miss),
    (refl, refl),
    rw (runtime_client_miss key c miss) (ground (arith, get-put key key (fresh key c) c.runtime)),
    λ k other.
        rw (runtime_client_miss key c miss) (ground (arith, get-put key k (fresh key c) c.runtime)),
  )
  | inr (cl, hit) ↦ (
    cl,
    rw (runtime_client_hit key c cl hit),
    v.runtime.own key cl hit,
    rw (runtime_client_hit key c cl hit) hit,
    λ k other. rw (runtime_client_hit key c cl hit),
  )
]

-- A second call with the key returns the first call's client and changes nothing. After
-- InvalidateCache of the key a call returns a client that was never handed out before.
pub runtime_client-cached :
    (key : EndpointKey) (c : Client) (cl : SdkClient)
    → IsValid c
    → (runtime_client key c).0 ≡ ok cl
    → let c' = (runtime_client key c).1 in
      (runtime_client key c' ≡ (ok cl, c'))
      × ((runtime_client key (invalidate_cache key c')).0 ≡ ok (fresh key c'))
      × (cl.id < c'.allocated)
unfolding invalidate_cache
runtime_client-cached key c cl v e =
    let (found, got, _, kept, _) = runtime_client_total key c v in
    let same : found ≡ cl = cc in
    let c' = (runtime_client key c).1 in
    let kept' : Dict.get key c'.runtime ≡ some cl = rw same at kept in
    (
      runtime_client_hit key c' cl kept',
      rw (
          runtime_client_miss key (invalidate_cache key c')
            (ground (arith, get-remove key key c'.runtime))),
      (runtime_client-IsValid key c v).runtime.old key cl kept',
    )

pub control_client_total :
    (key : EndpointKey) (c : Client)
    → IsValid c
    → (cl : SdkClient) × ((control_client key c).0 ≡ ok cl) × IsFor key cl.config
control_client_total key c v = elim (Option-cases (Dict.get key c.control)) [
  | inl miss ↦ (fresh key c, rw (control_client_miss key c miss), (refl, refl))
  | inr (cl, hit) ↦ (cl, rw (control_client_hit key c cl hit), v.control.own key cl hit)
]
