-- ===== src/Controller/Endpoint/Report/Laws.antt =====
-- The writes in memory are those of the model on values, and the base of the patch does not see them.
use k8s_ai_operator.Base.{
  ℕ, ℤ, Text, ◌≡◌, refl, inr, Bool, Option, some, List, [], ◌∷◌, ◌++◌, length, arith, ◌∙◌, ap,
}
use mathlib.Core.List.{append_assoc}
use k8s_ai_operator.Api.Meta.{ObjectMeta, Condition, condition_ready, condition_bedrock_reachable}
use k8s_ai_operator.Api.Endpoint.{ModelEndpoint, ModelEndpointSpec}
use k8s_ai_operator.Api.Memory.{◌>>=◌, Copier}
use k8s_ai_operator.Api.Memory.Laws.{IsDeep, pointer_reads}
use k8s_ai_operator.Api.Memory.Isolation.{IsOutside, unwritten, Writes-front}
use k8s_ai_operator.Api.Memory.Steady.{IsSteady}
use k8s_ai_operator.Api.DeepCopy.Structs.{Cell, endpoint_cell, ModelEndpointStruct}
use k8s_ai_operator.Api.DeepCopy.Stored.{endpoint_stored}
use k8s_ai_operator.Api.DeepCopy.Endpoint.{ranged, model_endpoint_spec, model_endpoint}
use k8s_ai_operator.Api.DeepCopy.Resource.{endpoint, deep_copy}
use k8s_ai_operator.Api.DeepCopy.Resource.Laws.{
  conditions_copier-IsDeep, model_endpoint_spec-IsDeep, model_endpoint-IsDeep,
}
use k8s_ai_operator.Bedrock.Health.{HealthResult}
use k8s_ai_operator.Controller.Conditions.{set_condition}
use k8s_ai_operator.Controller.Conditions.InPlace.{set_condition_at}
use k8s_ai_operator.Controller.Conditions.InPlace.Laws.{
  IsConditions, OneWrite, OneWrite-Writes, OneWrite-length, OneWrite-keeps, IsOwn, Holds,
  set_condition_at-Sets,
}
use k8s_ai_operator.Controller.Endpoint.{Clock, with_health}
use k8s_ai_operator.Controller.Endpoint.Report.{reported, written, report}
use k8s_ai_operator.Controller.Endpoint.Report.Reads.{
  model_endpoint_spec-IsSteady, Holds-IsOwn, status_of, endpoint_of, read_parts, read_whole,
}

-- What the report relies on of ObjectMeta: its copy is deep, it holds no conditions, and its
-- generation is a field of the struct.
pub record IsObjectMeta {Meta : Type 0} (meta : Copier (Cell Meta) Meta ObjectMeta)
    (generation : Meta → ℤ) : Type 0 where
  pub deep : IsDeep meta
  pub steady : IsSteady IsConditions meta
  pub read_generation :
      (h : List (Cell Meta)) (m : Meta) (v : ObjectMeta)
      → meta.read h m ≡ some v
      → generation m ≡ v.generation

-- Both conditions are set, one after the other.
two_conditions :
    {Meta : Type 0} (room room' : Bool) (health : HealthResult) (clock : Clock)
    (h k : List (Cell Meta)) (slice : Option ℕ) (cs : List Condition)
    → IsOwn (IsOutside h k) slice
    → Holds k slice cs
    → (first : Option ℕ) × (mid : List (Cell Meta)) × (second : Option ℕ) × (h' : List (Cell Meta))
      × (set_condition_at room slice
            (reported health condition_bedrock_reachable clock.reachable_at)
            k
          ≡ some (first, mid))
      × (set_condition_at room' first (reported health condition_ready clock.ready_at) mid
          ≡ some (second, h'))
      × OneWrite (IsOutside h k) k mid
      × OneWrite (IsOutside h k) mid h'
      × Holds h' second (
          set_condition
            (set_condition cs (reported health condition_bedrock_reachable clock.reachable_at))
            (reported health condition_ready clock.ready_at))
two_conditions room room' health clock h k slice cs own holds =
    let reachable = reported health condition_bedrock_reachable clock.reachable_at in
    let (first, mid, done, one, own', holds') =
      set_condition_at-Sets (IsOutside h k) room k slice cs reachable own (inr (omega arith))
        holds in
    let (second, h', done', one', own'', holds'') =
      set_condition_at-Sets (IsOutside h k) room' mid first (set_condition cs reachable)
        (reported health condition_ready clock.ready_at) own' (inr (OneWrite-length one)) holds' in
    (first, mid, second, h', done, done', one, one', holds'')

with_health-written :
    {Meta : Type 0} (generation : Meta → ℤ) (health : HealthResult) (service : Text) (clock : Clock)
    (ep : ModelEndpointStruct Meta) (m : ObjectMeta) (s : ModelEndpointSpec)
    (o o' : Option (List Condition)) (slice : Option ℕ)
    → generation ep.meta ≡ m.generation
    → ranged o'
      ≡ set_condition
          (set_condition
            (ranged o)
            (reported health condition_bedrock_reachable clock.reachable_at))
          (reported health condition_ready clock.ready_at)
    → endpoint_of m s (status_of (written generation health service ep slice).status o')
      ≡ with_health health service clock (endpoint_of m s (status_of ep.status o))
unfolding with_health
with_health-written generation health service clock ep m s o o' slice same held = rw (same, held)

module _ {Meta : Type 0} (meta : Copier (Cell Meta) Meta ObjectMeta) where
  -- The report returns if the endpoint can be read. The base that it leaves for the patch reads as the
  -- endpoint did before, though the writes went to the arrays that the endpoint had, and the endpoint
  -- reads as the model of the status says, whether or not append found room.
  pub report-IsReport :
      (generation : Meta → ℤ) (room room' : Bool) (health : HealthResult) (service : Text)
      (clock : Clock) (h : List (Cell Meta)) (ep : ModelEndpointStruct Meta) (v : ModelEndpoint)
      → IsObjectMeta meta generation
      → (model_endpoint meta).read h ep ≡ some v
      → (base : Option ℕ) × (ep' : ModelEndpointStruct Meta) × (h' : List (Cell Meta)) × (report
            meta generation room room' health service clock ep h
          ≡ some ((base, ep'), h'))
        × ((deep_copy meta endpoint).read h' base ≡ some (some v))
        × ((model_endpoint meta).read h' ep' ≡ some (with_health health service clock v))
  report-IsReport generation room room' health service clock h ep v x e =
      let (m, s, o, em, es, eo, made) = read_parts meta h ep v e in
      let (r, fresh, done, reads) = (model_endpoint-IsDeep meta x.deep).copies h ep v e in
      let added = fresh ++ endpoint_cell r ∷ [] in
      let holds : Holds (h ++ added) ep.status.conditions (ranged o) =
        (o, conditions_copier-IsDeep.grows h added ep.status.conditions o eo, refl) in
      let own = Holds-IsOwn h (h ++ added) ep.status.conditions (ranged o) (o, eo, refl) in
      let (first, mid, second, h', done', done'', one, one', (o', eo', held)) =
        two_conditions room room' health clock h (h ++ added) ep.status.conditions (ranged o) own
          holds in
      let (old, more, same, whole) =
        Writes-front h added (OneWrite-Writes (OneWrite-Writes unwritten one) one') in
      let em' =
        OneWrite-keeps meta x.deep x.steady one' _ m
          (OneWrite-keeps meta x.deep x.steady one _ m (x.deep.grows h added ep.meta m em)) in
      let es' =
        OneWrite-keeps model_endpoint_spec model_endpoint_spec-IsDeep model_endpoint_spec-IsSteady
          one' _ s
          (OneWrite-keeps model_endpoint_spec model_endpoint_spec-IsDeep
            model_endpoint_spec-IsSteady one _ s
            (model_endpoint_spec-IsDeep.grows h added ep.spec s es)) in
      (
        some (length (h ++ fresh)),
        written generation health service ep second,
        h',
        rw (◌>>=◌, done, append_assoc h fresh (endpoint_cell r ∷ []), done', done''),
        rw (
          whole,
          pointer_reads endpoint_stored (model_endpoint meta) h fresh r v reads old more same,
        ),
        read_whole meta h' (written generation health service ep second) m s o' em' es' eo'
            ∙ ap some (
                with_health-written generation health service clock ep m s o o' second
                  (x.read_generation h ep.meta m em) held
                ∙ ap (λ y. with_health health service clock y) made),
      )
