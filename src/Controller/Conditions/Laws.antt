-- ===== src/Controller/Conditions/Laws.antt =====
-- What setCondition does to the list of conditions, read as a map from types to conditions.
use k8s_ai_operator.Base.{
  ℕ, Text, ◌≡◌, refl, ◌≢◌, List, [], ◌∷◌, Option, none, some, arith, All, ◌==◌, ==_true, ==_false,
  sym, if◌then◌else◌, text_eq,
}
use k8s_ai_operator.Api.Meta.{Condition}
use k8s_ai_operator.Controller.Conditions.{set_condition, refreshed, status_eq}

-- The first condition of a type.
unfoldable pub find_condition : Text → List Condition → Option Condition
find_condition k [] = none
find_condition k (c ∷ cs) = if c.kind == k then some c else find_condition k cs

-- What `new` becomes, given the condition of its type that was there before.
unfoldable pub merged : Option Condition → Condition → Condition
merged none new = new
merged (some c) new = refreshed c new

-- After setCondition the condition's own type holds the new condition, with the old transition time
-- exactly where the status was the same; every other type holds what it held.
pub find_condition-set_condition :
    (k : Text) (cs : List Condition) (new : Condition)
    → find_condition k (set_condition cs new) ≡ (
        if new.kind == k
        then some (merged (find_condition new.kind cs) new)
        else find_condition k cs)
unfolding find_condition set_condition merged refreshed
find_condition-set_condition k [] new = refl
find_condition-set_condition k (c ∷ cs) new = ground (arith, find_condition-set_condition k cs new)

-- Setting the same condition again at another time changes nothing, the transition time included.
pub set_condition-set_condition :
    (cs : List Condition) (new : Condition) (t : ℕ)
    → set_condition (set_condition cs new) (record new { last_transition_time = t })
      ≡ set_condition cs new
unfolding set_condition
set_condition-set_condition [] new t = ground arith
set_condition-set_condition (c ∷ cs) new t = ground (arith, set_condition-set_condition cs new t)

-- No condition type is listed twice.
abbrev pub HasUniqueKinds : List Condition → Type 0
HasUniqueKinds [] = Unit
HasUniqueKinds (c ∷ cs) = All (λ d. d.kind ≢ c.kind) cs × HasUniqueKinds cs

set_condition-All_other :
    (k : Text) (cs : List Condition) (new : Condition)
    → new.kind ≢ k
    → All (λ d. d.kind ≢ k) cs
    → All (λ d. d.kind ≢ k) (set_condition cs new)
unfolding set_condition
set_condition-All_other k [] new n h = (n, tt)
set_condition-All_other k (c ∷ cs) new n h = ground (arith, set_condition-All_other k cs new n h.1)

refreshed-kind : (c new : Condition) → (refreshed c new).kind ≡ new.kind
unfolding refreshed
refreshed-kind c new = ground arith

-- setCondition keeps the condition types distinct, which the list type of the resource demands.
pub set_condition-HasUniqueKinds :
    (cs : List Condition) (new : Condition)
    → HasUniqueKinds cs
    → HasUniqueKinds (set_condition cs new)
unfolding set_condition
set_condition-HasUniqueKinds [] new h = (tt, tt)
set_condition-HasUniqueKinds (c ∷ cs) new h = elim (text_eq.dec c.kind new.kind) [
  | yes p ↦ rw (==_true p, refreshed-kind c new, ← p) h
  | no n ↦ rw (==_false n) (
    set_condition-All_other c.kind cs new (λ e. n (sym e)) h.0,
    set_condition-HasUniqueKinds cs new h.1,
  )
]
