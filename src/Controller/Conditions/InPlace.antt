-- ===== src/Controller/Conditions/InPlace.antt =====
-- setCondition of internal/controller/modelendpoint_controller.go on the slice in memory that it is
-- given: the loop assigns to an entry of the array, and append needs a new array unless there is room.
pub mod Laws
use k8s_ai_operator.Base.{
  ℕ, Bool, true, false, Option, none, some, List, [], ◌∷◌, ◌++◌, ◌==◌, text_eq, if◌then◌else◌,
}
use mathlib.Core.Option
use k8s_ai_operator.Api.Meta.{Condition}
use k8s_ai_operator.Api.Memory.{M, ◌>>=◌, Stored, fetch, alloc}
use k8s_ai_operator.Api.Memory.Isolation.{write}
use k8s_ai_operator.Api.DeepCopy.Structs.{Cell}
use k8s_ai_operator.Api.DeepCopy.Stored.{conditions_stored}
use k8s_ai_operator.Controller.Conditions.{refreshed}

-- The entries after the loop, if it returned.
abbrev pub replaced : List Condition → Condition → Option (List Condition)
replaced [] new = none
replaced (c ∷ cs) new =
    let rest = replaced cs new in
    if c.kind == new.kind then some (refreshed c new ∷ cs) else Option.map (λ l. c ∷ l) rest

abbrev pub assign : {C A : Type 0} → Stored C A → ℕ → A → M C (Option ℕ)
assign s q a h = some (some q, write h q (s.cell a))

-- With room, the array itself grows.
abbrev pub append_at : {Meta : Type 0} → Bool → ℕ → List Condition → M (Cell Meta) (Option ℕ)
append_at true q cs = assign conditions_stored q cs
append_at false q cs = alloc conditions_stored cs

-- The slice afterwards; `room` tells whether its array has room for one more entry.
abbrev pub set_condition_at :
    {Meta : Type 0} → Bool → Option ℕ → Condition → M (Cell Meta) (Option ℕ)
set_condition_at room none new = alloc conditions_stored (new ∷ [])
set_condition_at room (some q) new = do
  cs ← fetch conditions_stored q
  elim (replaced cs new) [
    | some cs' ↦ assign conditions_stored q cs'
    | none ↦ append_at room q (cs ++ new ∷ [])
  ]
