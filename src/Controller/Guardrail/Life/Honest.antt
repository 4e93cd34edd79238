-- ===== src/Controller/Guardrail/Life/Honest.antt =====
-- When the status of a policy is true of Bedrock, and what keeps it so
-- (internal/controller/guardrailpolicy_controller.go).
use k8s_ai_operator.Base.{
  ℕ, ◌≤ℤ◌, ≤ℤ_trans, ≤ℤ_antisym, Text, lit, Bool, true, false, not, some, List, [], ◌∷◌, ==_refl,
  text_eq, nat_eq, ◌≡◌, refl, ◌⊎◌, arith, sym, ◌∙◌, ap, ap₂, subst,
}
use k8s_ai_operator.Api.Meta.{
  Condition, condition_true, condition_false, condition_guardrail_synced, is_zero_time,
}
use k8s_ai_operator.Api.Guardrail.{GuardrailPolicy, GuardrailPolicyStatus}
use k8s_ai_operator.Controller.Cluster.{Finalizers}
use k8s_ai_operator.Controller.Conditions.Laws.{
  merged, find_condition, find_condition-set_condition,
}
use k8s_ai_operator.Controller.Guardrail.Inputs.{CreateGuardrailInput, create_input, update_input}
use k8s_ai_operator.Controller.Guardrail.{set_finalizers, with_failure, with_guardrail}
use k8s_ai_operator.Controller.Guardrail.Laws.{is_deleted, for_guardrail}
use k8s_ai_operator.Controller.Guardrail.Life.{Call, created, updated, deleted, saved, IsEdit}
use k8s_ai_operator.Controller.Template.Laws.{merged-status}

-- The call is for this configuration.
abbrev pub Asks : CreateGuardrailInput → Call → Type 0
Asks i (created input b) = input ≡ i
Asks i (updated input b) = input ≡ for_guardrail input.guardrail_identifier i
Asks i (deleted id b) = ⊥

abbrev pub succeeded : Call → Bool
succeeded (created input b) = b
succeeded (updated input b) = b
succeeded (deleted id b) = b

-- A call for the configuration succeeded, and all later ones were for the same.
abbrev pub IsApplied : CreateGuardrailInput → List Call → Type 0
IsApplied i [] = ⊥
IsApplied i (c ∷ cs) = Asks i c × ((succeeded c ≡ true) ⊎ IsApplied i cs)

-- The condition GuardrailSynced is True.
abbrev pub Says : GuardrailPolicyStatus → Type 0
Says status =
    (c : Condition) × (find_condition condition_guardrail_synced status.conditions ≡ some c)
    × (c.status ≡ condition_true)

abbrev pub IsReportedSynced : GuardrailPolicy → Type 0
IsReportedSynced gp = Says gp.status

-- A live policy's status is not ahead, and if it is of the present generation and says Synced, then the
-- present configuration is what Bedrock was given last.
pub record IsHonest (cs : List Call) (gp : GuardrailPolicy) : Type 0 where
  pub observed : is_deleted gp ≡ false → gp.status.observed_generation ≤ℤ gp.meta.generation
  pub applied :
      is_deleted gp ≡ false
      → gp.status.observed_generation ≡ gp.meta.generation
      → IsReportedSynced gp
      → IsApplied (create_input gp) cs

pub dead-IsHonest : (cs : List Call) (gp : GuardrailPolicy) → is_deleted gp ≡ true → IsHonest cs gp
dead-IsHonest cs gp dead = record {
  observed = λ live. absurd (ground arith);
  applied = λ live. absurd (ground arith);
}

pub create_input-same :
    (gp gp' : GuardrailPolicy)
    → gp'.meta.name ≡ gp.meta.name
    → gp'.spec ≡ gp.spec
    → create_input gp ≡ create_input gp'
unfolding create_input
create_input-same gp gp' name spec =
    ap₂ (λ n s. create_input (record gp { meta = record gp.meta { name = n }; spec = s }))
      (sym name) (sym spec)

pub set_finalizers-IsHonest :
    (cs : List Call) (l : List Text) (gp : GuardrailPolicy)
    → IsHonest cs gp
    → IsHonest cs (set_finalizers l gp)
unfolding create_input
set_finalizers-IsHonest cs l gp h = record { observed = h.observed; applied = h.applied }

pub IsEdit-IsHonest :
    (finalizers : Finalizers) (cs : List Call) (gp gp' : GuardrailPolicy)
    → IsEdit finalizers gp gp'
    → IsHonest cs gp
    → IsHonest cs gp'
IsEdit-IsHonest finalizers cs gp gp' k h =
    let observed : gp'.status.observed_generation ≡ gp.status.observed_generation =
      ap (λ s. s.observed_generation) k.status in
    let alive : is_deleted gp' ≡ false → is_deleted gp ≡ false =
      λ live. ap (λ t. not (is_zero_time t)) (sym k.deletion) ∙ live in
    record {
      observed = λ live. rw observed (
          ≤ℤ_trans gp.status.observed_generation gp.meta.generation gp'.meta.generation
            (h.observed (alive live)) k.generation);
      applied = λ live e synced.
          let low : gp'.meta.generation ≤ℤ gp.meta.generation =
            rw (← e, observed) (h.observed (alive live)) in
          let same = ≤ℤ_antisym gp'.meta.generation gp.meta.generation low k.generation in
          subst (λ i. IsApplied i cs) (create_input-same gp gp' k.name (k.spec same))
            (h.applied (alive live) (sym observed ∙ e ∙ same) (subst Says k.status synced));
    }

pub asks_update :
    (gp : GuardrailPolicy)
    → update_input gp ≡ for_guardrail (update_input gp).guardrail_identifier (create_input gp)
unfolding update_input create_input
asks_update gp = refl

pub saved-some : (gp now : GuardrailPolicy) → saved gp ≡ some now → gp ≡ now
saved-some gp now e = ground arith

pub with_guardrail-observed :
    (id version : Text) (now : ℕ) (gp : GuardrailPolicy)
    → (with_guardrail id version now gp).status.observed_generation ≡ gp.meta.generation
unfolding with_guardrail
with_guardrail-observed id version now gp = refl

pub with_failure-observed :
    (e : Text) (now : ℕ) (gp : GuardrailPolicy)
    → (with_failure e now gp).status.observed_generation ≡ gp.meta.generation
unfolding with_failure
with_failure-observed e now gp = refl

pub failure-unsynced :
    (e : Text) (now : ℕ) (gp : GuardrailPolicy) → IsReportedSynced (with_failure e now gp) → ⊥
unfolding with_failure
failure-unsynced e now gp (c, there, status) =
    let new : Condition = record {
      kind = condition_guardrail_synced;
      status = condition_false;
      reason = lit "SyncFailed";
      message = e;
      last_transition_time = now;
    } in
    let before = find_condition condition_guardrail_synced gp.status.conditions in
    let is_set : some c ≡ some (merged before new) =
      sym there
      ∙ find_condition-set_condition condition_guardrail_synced gp.status.conditions new
      ∙ rw (==_refl condition_guardrail_synced) refl in
    absurd (ground (arith, merged-status before new))
