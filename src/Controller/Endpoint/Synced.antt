-- ===== src/Controller/Endpoint/Synced.antt =====
-- What the status of a ModelEndpoint says after a health check, and that the status which
-- internal/controller/modelendpoint_controller.go writes says it.
use k8s_ai_operator.Base.{
  ℕ, Text, false, Option, none, some, List, ◌==◌, text_eq, ◌≡◌, refl, arith, ◌∙◌, ==_refl, ==_refl,
}
use k8s_ai_operator.Api.Meta.{Condition, condition_ready, condition_bedrock_reachable}
use k8s_ai_operator.Api.Endpoint.{ModelEndpoint}
use k8s_ai_operator.Bedrock.Health.{HealthResult}
use k8s_ai_operator.Controller.Conditions.{set_condition, condition_status, status_eq, refreshed}
use k8s_ai_operator.Controller.Conditions.Laws.{
  find_condition, merged, find_condition-set_condition,
}
use k8s_ai_operator.Controller.Endpoint.Service.{service_name}
use k8s_ai_operator.Controller.Endpoint.{Clock, with_health}

-- The condition of type `kind` is there, and says what the check found.
abbrev pub Tells : HealthResult → Text → ModelEndpoint → Type 0
Tells health kind ep =
    (c : Condition) × (find_condition kind ep.status.conditions ≡ some c)
    × (c.status ≡ condition_status health.available)
    × (c.reason ≡ health.reason)
    × (c.message ≡ health.message)

-- The status of `ep` is the one that the check's result calls for.
pub record IsSynced (health : HealthResult) (ep : ModelEndpoint) : Type 0 where
  pub available : ep.status.available ≡ health.available
  pub observed_generation : ep.status.observed_generation ≡ ep.meta.generation
  pub service : ep.status.service_name ≡ service_name ep
  pub reachable : Tells health condition_bedrock_reachable ep
  pub ready : Tells health condition_ready ep

ready≢reachable : (condition_ready == condition_bedrock_reachable) ≡ false
unfolding condition_ready condition_bedrock_reachable text_eq
ready≢reachable = refl

abbrev told : HealthResult → Text → ℕ → Condition
told health kind now = record {
  kind = kind;
  status = condition_status health.available;
  reason = health.reason;
  message = health.message;
  last_transition_time = now;
}

merged_told :
    (o : Option Condition) (new : Condition)
    → ((merged o new).status ≡ new.status)
      × ((merged o new).reason ≡ new.reason)
      × ((merged o new).message ≡ new.message)
unfolding merged refreshed
merged_told none new = (refl, refl, refl)
merged_told (some c) new = ground arith

-- A condition that is set can be found, and says what was set.
told_found :
    (health : HealthResult) (kind : Text) (now : ℕ) (cs : List Condition) (ep : ModelEndpoint)
    → find_condition kind ep.status.conditions
      ≡ some (merged (find_condition kind cs) (told health kind now))
    → Tells health kind ep
told_found health kind now cs ep h =
    let new = told health kind now in
    let same = merged_told (find_condition kind cs) new in
    (merged (find_condition kind cs) new, h, same.0, same.1, same.2)

-- Both conditions are set, and the second call leaves what the first one set.
pub with_health-IsSynced :
    (health : HealthResult) (clock : Clock) (ep : ModelEndpoint)
    → IsSynced health (with_health health (service_name ep) clock ep)
unfolding with_health service_name
with_health-IsSynced health clock ep =
    let reach = told health condition_bedrock_reachable clock.reachable_at in
    let done = told health condition_ready clock.ready_at in
    let first = set_condition ep.status.conditions reach in
    let ep' = with_health health (service_name ep) clock ep in
    record {
      available = refl;
      observed_generation = refl;
      service = refl;
      reachable =
          told_found health condition_bedrock_reachable clock.reachable_at ep.status.conditions ep'
            (find_condition-set_condition condition_bedrock_reachable first done
              ∙ rw ready≢reachable (
                  find_condition-set_condition condition_bedrock_reachable ep.status.conditions
                    reach
                  ∙ rw (==_refl condition_bedrock_reachable) refl));
      ready = told_found health condition_ready clock.ready_at first ep' (
          find_condition-set_condition condition_ready first done
          ∙ rw (==_refl condition_ready) refl);
    }
