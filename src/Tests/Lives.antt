-- ===== src/Tests/Lives.antt =====
-- The life of one policy: it is made, a reconcile creates its guardrail, a user asks for its deletion, and
-- a reconcile lets it go.
use k8s_ai_operator.Base.{
  ℕ, lit, ◌≡◌, refl, inr, Option, none, some, List, [], ◌∷◌, ok, text_eq, nat_eq, ℕ_discrete, arith,
}
use k8s_ai_operator.Api.Meta.{finalizer_name, condition_guardrail_synced}
use k8s_ai_operator.Api.Guardrail.{GuardrailPolicy}
use k8s_ai_operator.Controller.Cluster.{Kind, found, not_found, World}
use k8s_ai_operator.Controller.Guardrail.{
  set_finalizers, with_guardrail, create_guardrail, sync_guardrail, handle_guardrail_deletion,
  report, sync, reconcile,
}
use k8s_ai_operator.Controller.Guardrail.Laws.{set_status}
use k8s_ai_operator.Controller.Guardrail.Life.{
  Call, deleted, Called, saved, IsServer, reconciler, calls, reconciled, made, marked, Lives, here,
  next,
}
use k8s_ai_operator.Controller.Guardrail.Inputs.{create_input}
use k8s_ai_operator.Controller.Conditions.{set_condition}
use k8s_ai_operator.Controller.Conditions.Laws.{find_condition}
use k8s_ai_operator.Controller.Guardrail.Life.Honest.{IsReportedSynced, IsApplied}
use k8s_ai_operator.Controller.Guardrail.Life.Applied.{Lives-IsApplied}
use k8s_ai_operator.Controller.Guardrail.Life.Deleted.{Lives-deleted}
use k8s_ai_operator.Tests.Policies.{policy, counter}
use k8s_ai_operator.Tests.Status.{finalizers, finalizers-AreFinalizers, key}

abbrev Store : Type 0
Store = Option GuardrailPolicy

abbrev policies : Kind Store GuardrailPolicy
policies = record {
  get = λ k s. elim s [ none ↦ not_found | some gp ↦ found gp ];
  update = λ gp s. (ok tt, saved gp);
  patch_status = λ gp gp' s. (ok tt, saved (set_status gp gp'));
}

policies-IsServer : IsServer policies key (λ s. s)
policies-IsServer = record {
  stored-get = λ s gp e. ground arith;
  stored-update = λ s gp. inr refl;
  stored-patch_status = λ s gp gp'. inr refl;
}

abbrev fresh : GuardrailPolicy
fresh = set_finalizers (finalizer_name ∷ []) policy

abbrev nothing : World Store (List Call × ℕ) ℕ
nothing = record { cluster = none; bedrock = ([], 0); metrics = [] }

abbrev guarded : World Store (List Call × ℕ) ℕ
guarded =
    (reconcile (reconciler policies finalizers counter) 500 key
      (record nothing { cluster = some fresh })).1

abbrev synced : GuardrailPolicy
synced = with_guardrail (lit "g1") (lit "DRAFT") 500 fresh

abbrev dying : GuardrailPolicy
dying = record synced { meta = record synced.meta { deletion_timestamp = some 600 } }

guarded_stored : guarded.cluster ≡ some synced
unfolding reconcile sync sync_guardrail create_guardrail report text_eq with_guardrail
    finalizer_name
guarded_stored = refl

made_and_synced : Lives policies finalizers counter key (λ s. s) nothing guarded
made_and_synced = next (next here (made (some fresh) fresh refl refl refl refl)) (reconciled 500)

synced_reported : IsReportedSynced synced
unfolding with_guardrail set_condition find_condition condition_guardrail_synced text_eq lit
synced_reported = (_, refl, refl)

Lives-IsApplied_example : IsApplied (create_input synced) (calls guarded)
unfolding with_guardrail
Lives-IsApplied_example =
    Lives-IsApplied policies finalizers counter key (λ s. s) policies-IsServer nothing guarded
      synced refl made_and_synced guarded_stored refl refl synced_reported

lives :
    Lives policies finalizers counter key (λ s. s) nothing (record guarded { cluster = some dying })
unfolding with_guardrail nat_eq ℕ_discrete
lives = next made_and_synced (marked (some dying) synced dying guarded_stored refl refl refl refl)

abbrev ended : World Store (List Call × ℕ) ℕ
ended =
    (reconcile (reconciler policies finalizers counter) 700 key
      (record guarded { cluster = some dying })).1

Lives-deleted_example : Called (deleted (lit "g1")) (calls ended)
unfolding with_guardrail reconcile handle_guardrail_deletion finalizer_name text_eq nat_eq lit
Lives-deleted_example =
    Lives-deleted policies finalizers counter key (λ s. s) policies-IsServer
      finalizers-AreFinalizers nothing (record guarded { cluster = some dying }) ended dying refl
      refl lives (reconciled 700) refl (λ e. cc) refl
