-- ===== src/Controller/Conditions/View.antt =====
-- A list of conditions as its readers see it: what find_condition answers for each type. Lists with the
-- same answers are one view, and setCondition is a function on views.
use k8s_ai_operator.Base.{
  Text, ◌≡◌, refl, ◌≢◌, List, Option, none, some, arith, ◌∙◌, ◌==◌, if◌then◌else◌, text_eq,
}
use mathlib.Core.Quot
use mathlib.Core.Quot.{Quot, Quot-set}
use k8s_ai_operator.Api.Meta.{Condition}
use k8s_ai_operator.Controller.Conditions.{set_condition, refreshed, status_eq}
use k8s_ai_operator.Controller.Conditions.Laws.{
  find_condition, merged, find_condition-set_condition,
}

abbrev pub SameConditions : List Condition → List Condition → Type 0
SameConditions cs ds = (k : Text) → find_condition k cs ≡ find_condition k ds

abbrev pub View : Type 0
View = Quot SameConditions

set_condition-SameConditions :
    (cs ds : List Condition) (new : Condition)
    → SameConditions cs ds
    → SameConditions (set_condition cs new) (set_condition ds new)
set_condition-SameConditions cs ds new same k =
    rw
      (
        find_condition-set_condition k cs new,
        find_condition-set_condition k ds new,
        same new.kind,
        same k,
      )
      refl

Found-set : IsSet (Option Condition)
Found-set = hlevel

pub find : Text → View → Option Condition
find k = Quot.lift Found-set (find_condition k) (λ cs ds same. same k)

pub set : Condition → View → View
set new =
    Quot.lift Quot-set (λ cs. Quot.mk (set_condition cs new))
      (λ cs ds same. Quot.sound (set_condition-SameConditions cs ds new same))

-- What is to be read after a write of `a`, by what was read before: `a`, but for the time of the last
-- transition, which is the old one as long as the status is.
abbrev pub written : Option Condition → Condition → Condition
written none a = a
written (some c) a = record {
  kind = a.kind;
  status = a.status;
  last_transition_time =
      if c.status == a.status then c.last_transition_time else a.last_transition_time;
  reason = a.reason;
  message = a.message;
}

merged-written : (v : Option Condition) (a : Condition) → merged v a ≡ written v a
unfolding merged refreshed
merged-written none a = refl
merged-written (some c) a = ground arith

find-set :
    (a : Condition) (k : Text) (v : View)
    → find k (set a v) ≡ (if a.kind == k then some (written (find a.kind v) a) else find k v)
unfolding find set
find-set a k =
    Quot.ind (λ v. Found-set _ _)
      (λ cs.
        find_condition-set_condition k cs a ∙ rw (merged-written (find_condition a.kind cs) a) refl)

set-set : (a b : Condition) → a.kind ≢ b.kind → (v : View) → set a (set b v) ≡ set b (set a v)
unfolding set
set-set a b other =
    Quot.ind (λ v. Quot-set _ _)
      (λ cs. Quot.sound (λ k. ground (
        arith,
        find_condition-set_condition k (set_condition cs b) a,
        find_condition-set_condition k (set_condition cs a) b,
        find_condition-set_condition k cs a,
        find_condition-set_condition k cs b,
        find_condition-set_condition a.kind cs b,
        find_condition-set_condition b.kind cs a,
      )))

-- On views setCondition is a write to a map: after it, the condition's type reads as the condition, with
-- the old time of the last transition if its status was the same before and its own time otherwise;
-- other types read as before, and writes to different types commute.
pub set_comm :
    (a b : Condition) (v : View) (k : Text)
    → a.kind ≢ b.kind
    → (find k (set a v) ≡ (if a.kind == k then some (written (find a.kind v) a) else find k v))
      × (set a (set b v) ≡ set b (set a v))
set_comm a b v k other = (find-set a k v, set-set a b other v)
