-- ===== src/Controller/Guardrail/Life/Applied.antt =====
-- Lives of a policy, its status and the calls of Bedrock that were made for it
-- (internal/controller/guardrailpolicy_controller.go).
use k8s_ai_operator.Base.{
  ℕ, ≤ℤ_of_lt, false, Option, none, some, List, text_eq, nat_eq, ◌≡◌, inl, inr, arith, sym, ◌∙◌,
}
use k8s_ai_operator.Api.Meta.{ObjectKey}
use k8s_ai_operator.Api.Guardrail.{GuardrailPolicy}
use k8s_ai_operator.Controller.Cluster.{Kind, Finalizers, World}
use k8s_ai_operator.Controller.Guardrail.Inputs.{create_input}
use k8s_ai_operator.Controller.Guardrail.{GuardrailCreator, reconcile}
use k8s_ai_operator.Controller.Guardrail.Laws.{is_deleted}
use k8s_ai_operator.Controller.Guardrail.Life.{
  Call, Life, reconciled, made, edited, marked, elsewhere, Lives, here, next, IsServer, reconciler,
  calls,
}
use k8s_ai_operator.Controller.Guardrail.Life.Laws.{Got-cases}
use k8s_ai_operator.Controller.Guardrail.Life.Honest.{
  IsApplied, IsReportedSynced, IsHonest, dead-IsHonest, IsEdit-IsHonest, saved-some,
}
use k8s_ai_operator.Controller.Guardrail.Life.Synced.{reconcile_found-LeavesHonest}

module _ {S B Float : Type 0} (policies : Kind S GuardrailPolicy) (finalizers : Finalizers)
    (bedrock : GuardrailCreator B) (key : ObjectKey) (stored : S → Option GuardrailPolicy)
    (server : IsServer policies key stored) where
  -- The policy that is stored is honest.
  IsSound : World S (List Call × B) Float → Type 0
  IsSound w = (gp : GuardrailPolicy) → stored w.cluster ≡ some gp → IsHonest (calls w) gp

  reconcile-IsSound :
      (now : ℕ) (w : World S (List Call × B) Float)
      → IsSound w
      → IsSound (reconcile (reconciler policies finalizers bedrock) now key w).1
  unfolding reconcile IsSound
  reconcile-IsSound now w h = elim (Got-cases (policies.get key w.cluster)) [
    | inl (gp, there) ↦
        reconcile_found-LeavesHonest policies finalizers bedrock key stored server now gp w there
          (h gp (server.stored-get w.cluster gp there))
    | inr (inl absent) ↦ rw absent h
    | inr (inr (e, broken)) ↦ rw broken h
  ]

  Life-IsSound :
      {w t : World S (List Call × B) Float}
      → Life policies finalizers bedrock key stored w t
      → IsSound w
      → IsSound t
  unfolding IsSound
  Life-IsSound {w} (reconciled now) h = reconcile-IsSound now w h
  Life-IsSound {w} (made s gp absent new young e) h = λ pt e'.
      let same : gp ≡ pt = ground arith in
      let (below, apart) = ≤ℤ_of_lt gp.status.observed_generation gp.meta.generation young in
      rw (← same)
        (record { observed = λ live. below; applied = λ live equal synced. absurd (apart equal) })
  Life-IsSound {w} (edited s gp gp' old k e) h = λ pt e'.
      let same : gp' ≡ pt = ground arith in
      rw (← same) (IsEdit-IsHonest finalizers (calls w) gp gp' k (h gp old))
  Life-IsSound {w} (marked s gp gp' old status fins dead e) h =
      λ pt e'. rw (← saved-some gp' pt (sym e ∙ e')) (dead-IsHonest (calls w) gp' dead)
  Life-IsSound {w} (elsewhere s same) h = λ pt e. h pt (sym same ∙ e)

  Lives-IsSound :
      {w t : World S (List Call × B) Float}
      → Lives policies finalizers bedrock key stored w t
      → IsSound w
      → IsSound t
  Lives-IsSound here h = h
  Lives-IsSound (next lives l) h = Life-IsSound l (Lives-IsSound lives h)

  -- From the time before a policy was made, whatever users do and whatever the API server and Bedrock
  -- answer: if the policy is live, and its status is of its present generation and says Synced, then a
  -- call that was made for it succeeded and asked for exactly its present configuration, and all later
  -- calls asked for the same configuration.
  pub Lives-IsApplied :
      (w t : World S (List Call × B) Float) (gp : GuardrailPolicy)
      → stored w.cluster ≡ none
      → Lives policies finalizers bedrock key stored w t
      → stored t.cluster ≡ some gp
      → is_deleted gp ≡ false
      → gp.status.observed_generation ≡ gp.meta.generation
      → IsReportedSynced gp
      → IsApplied (create_input gp) (calls t)
  unfolding IsSound
  Lives-IsApplied w t gp start lives there live equal synced =
      let sound : IsSound t = Lives-IsSound lives (λ pt e. absurd (ground arith)) in
      (sound gp there).applied live equal synced
