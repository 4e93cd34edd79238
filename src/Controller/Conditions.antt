-- ===== src/Controller/Conditions.antt =====
-- setCondition and conditionStatus of internal/controller/modelendpoint_controller.go.
pub mod Laws
pub mod InPlace
pub mod View
use k8s_ai_operator.Base.{List, [], ◌∷◌, Bool, true, false, Eq, ◌==◌, if◌then◌else◌, text_eq}
use k8s_ai_operator.Api.Meta.{Condition, ConditionStatus, condition_true, condition_false}

ConditionStatus-discrete : Discrete ConditionStatus
ConditionStatus-discrete = hlevel

instance unfoldable pub status_eq : Eq ConditionStatus
unfolding ConditionStatus-discrete
status_eq = record { dec = ConditionStatus-discrete }

-- The entry that replaces `c`: an unchanged status keeps the original transition time.
unfoldable pub refreshed : Condition → Condition → Condition
refreshed c new =
    if c.status == new.status
    then record new { last_transition_time = c.last_transition_time }
    else new

-- The loop returns at the first entry of the condition's type, and appends where there is none.
unfoldable pub set_condition : List Condition → Condition → List Condition
unfolding refreshed
set_condition [] new = new ∷ []
set_condition (c ∷ cs) new =
    if c.kind == new.kind then refreshed c new ∷ cs else c ∷ set_condition cs new

unfoldable pub condition_status : Bool → ConditionStatus
condition_status true = condition_true
condition_status false = condition_false
