-- ===== src/Controller/Endpoint/Report/Reads.antt =====
-- How a ModelEndpoint is read from memory: from its metadata, its spec and its conditions.
use k8s_ai_operator.Base.{
  ℕ, zero, suc, ◌<◌, ◌≡◌, inl, Option, none, some, List, [], ◌∷◌, length, arith, ◌∙◌, ap,
}
use k8s_ai_operator.Api.Meta.{ObjectMeta, Condition}
use k8s_ai_operator.Api.Endpoint.{ModelEndpoint, ModelEndpointSpec, ModelEndpointStatus}
use k8s_ai_operator.Api.Memory.{get, Copier}
use k8s_ai_operator.Api.Memory.Reads.{lift2-eq_some, map-eq_some, load-eq_some}
use k8s_ai_operator.Api.Memory.Isolation.{IsOutside}
use k8s_ai_operator.Api.Memory.Steady.{
  IsSteady, plain-IsSteady, pointer-IsSteady, struct-IsSteady, four-IsSteady,
}
use k8s_ai_operator.Api.DeepCopy.Structs.{Cell, ModelEndpointStruct, ModelEndpointStatusStruct}
use k8s_ai_operator.Api.DeepCopy.Stored.{
  int_stored, budget_stored, rate_stored, text_stored, conditions_stored,
}
use k8s_ai_operator.Api.DeepCopy.Endpoint.{
  ranged, conditions_copier, model_endpoint_spec, model_endpoint,
}
use k8s_ai_operator.Controller.Conditions.InPlace.Laws.{IsConditions, IsOwn, Holds, load-Holds}

pub model_endpoint_spec-IsSteady :
    {Meta : Type 0} → IsSteady IsConditions (model_endpoint_spec {Meta = Meta})
model_endpoint_spec-IsSteady = struct-IsSteady _ _ _ _ (
    four-IsSteady _ _ _ _ (pointer-IsSteady int_stored _ (λ d held. rw held.1) plain-IsSteady)
      (pointer-IsSteady budget_stored _ (λ d held. rw held.1) plain-IsSteady)
      (pointer-IsSteady rate_stored _ (λ d held. rw held.1) plain-IsSteady)
      (pointer-IsSteady text_stored _ (λ d held. rw held.1) plain-IsSteady))

-- The status that the fields of the struct and the conditions make.
abbrev pub status_of : ModelEndpointStatusStruct → Option (List Condition) → ModelEndpointStatus
status_of s o = record {
  available = s.available;
  conditions = ranged o;
  cost_this_month = s.cost_this_month;
  cost_today = s.cost_today;
  invocations_today = s.invocations_today;
  total_input_tokens = s.total_input_tokens;
  total_output_tokens = s.total_output_tokens;
  service_name = s.service_name;
  observed_generation = s.observed_generation;
}

abbrev pub endpoint_of : ObjectMeta → ModelEndpointSpec → ModelEndpointStatus → ModelEndpoint
endpoint_of m s t = record { meta = m; spec = s; status = t }

get-lt : {C : Type 0} (h : List C) (p : ℕ) (c : C) → get h p ≡ some c → p < length h
get-lt [] p c e = absurd (ground arith)
get-lt (d ∷ h) zero c e = omega arith
get-lt (d ∷ h) (suc p) c e = omega (arith, get-lt h p c e)

pub Holds-IsOwn :
    {Meta : Type 0} (h h' : List (Cell Meta)) (slice : Option ℕ) (cs : List Condition)
    → Holds h slice cs
    → IsOwn (IsOutside h h') slice
Holds-IsOwn h h' none cs holds = tt
Holds-IsOwn h h' (some q) cs holds =
    let (d, at_q, content) = load-eq_some conditions_stored h q cs (load-Holds h q cs holds) in
    inl (get-lt h q d at_q)

module _ {Meta : Type 0} (meta : Copier (Cell Meta) Meta ObjectMeta) where
  pub read_parts :
      (h : List (Cell Meta)) (ep : ModelEndpointStruct Meta) (v : ModelEndpoint)
      → (model_endpoint meta).read h ep ≡ some v
      → (m : ObjectMeta) × (s : ModelEndpointSpec) × (o : Option (List Condition)) × (meta.read h
            ep.meta
          ≡ some m)
        × (model_endpoint_spec.read h ep.spec ≡ some s)
        × (conditions_copier.read h ep.status.conditions ≡ some o)
        × (endpoint_of m s (status_of ep.status o) ≡ v)
  read_parts h ep v e =
      let (a, ea, same) = map-eq_some _ _ v e in
      let (b, eb, same') = map-eq_some _ _ a ea in
      let (m, st, em, est, outer) = lift2-eq_some _ _ _ b eb in
      let (s, t, es, et, inner) = lift2-eq_some _ _ _ st est in
      let (o, eo, made) = map-eq_some _ _ t et in
      (
        m,
        s,
        o,
        em,
        es,
        eo,
        ap (λ x. endpoint_of m s x) made
            ∙ (ap (λ x. endpoint_of m x.0 x.1) inner
                ∙ (ap (λ x. endpoint_of x.0 x.1.0 x.1.1) outer
                    ∙ (ap (λ x. endpoint_of x.0 x.1 x.2) same' ∙ same))),
      )

  pub read_whole :
      (h : List (Cell Meta)) (ep : ModelEndpointStruct Meta) (m : ObjectMeta)
      (s : ModelEndpointSpec) (o : Option (List Condition))
      → meta.read h ep.meta ≡ some m
      → model_endpoint_spec.read h ep.spec ≡ some s
      → conditions_copier.read h ep.status.conditions ≡ some o
      → (model_endpoint meta).read h ep
        ≡ some (record { meta = m; spec = s; status = status_of ep.status o })
  read_whole h ep m s o em es eo = rw (em, es, eo)
