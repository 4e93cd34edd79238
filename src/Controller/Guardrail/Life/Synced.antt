-- ===== src/Controller/Guardrail/Life/Synced.antt =====
-- One reconcile of a policy: its call of Bedrock, and the status that it leaves
-- (internal/controller/guardrailpolicy_controller.go).
use k8s_ai_operator.Base.{
  ℕ, ≤ℤ_refl, true, false, Option, some, List, [], ◌∷◌, ◌==◌, text_eq, nat_eq, ◌≡◌, refl, ◌⊎◌, inl,
  inr, arith, sym, ◌∙◌, ap, subst, Bool-cases, Result-cases,
}
use k8s_ai_operator.Api.Meta.{ObjectKey, finalizer_name}
use k8s_ai_operator.Api.Guardrail.{GuardrailPolicy}
use k8s_ai_operator.Controller.Cluster.{Kind, found, Finalizers, World}
use k8s_ai_operator.Controller.Guardrail.Inputs.{create_input, update_input}
use k8s_ai_operator.Controller.Guardrail.{
  GuardrailCreator, set_finalizers, with_failure, with_guardrail, create_guardrail,
  update_guardrail, sync_guardrail, handle_guardrail_deletion, add_finalizer, report, sync,
  reconcile,
}
use k8s_ai_operator.Controller.Guardrail.Laws.{
  set_status, is_deleted, reconcile-branch, sync-bedrock,
}
use k8s_ai_operator.Controller.Guardrail.Life.{
  Call, created, updated, is_ok, saved, IsServer, reconciler, calls,
}
use k8s_ai_operator.Controller.Guardrail.Life.Laws.{
  handle_guardrail_deletion-stored, add_finalizer-stored,
}
use k8s_ai_operator.Controller.Guardrail.Life.Honest.{
  Asks, succeeded, IsReportedSynced, IsHonest, dead-IsHonest, create_input-same,
  set_finalizers-IsHonest, asks_update, saved-some, with_guardrail-observed, with_failure-observed,
  failure-unsynced,
}

module _ {S B : Type 0} (policies : Kind S GuardrailPolicy) (finalizers : Finalizers)
    (bedrock : GuardrailCreator B) (gp : GuardrailPolicy) (b : List Call × B) where
  -- The one call of createGuardrail or updateGuardrail.
  sync_guardrail-call :
      let (result, b') = sync_guardrail (reconciler policies finalizers bedrock) gp b in
      (c : Call) × (b'.0 ≡ c ∷ b.0) × Asks (create_input gp) c × (succeeded c ≡ is_ok result)
  unfolding sync_guardrail create_guardrail update_guardrail
  sync_guardrail-call = elim (Bool-cases (gp.status.guardrail_id == [])) [
    | inl fresh ↦ elim (Result-cases (bedrock.create_guardrail (create_input gp) b.1).0) [
      | inl (out, e) ↦ (created (create_input gp) true, ground arith, refl, ground arith)
      | inr (m, e) ↦ (created (create_input gp) false, ground arith, refl, ground arith)
    ]
    | inr named ↦ elim (Result-cases (bedrock.update_guardrail (update_input gp) b.1).0) [
      | inl (out, e) ↦ (updated (update_input gp) true, ground arith, asks_update gp, ground arith)
      | inr (m, e) ↦ (updated (update_input gp) false, ground arith, asks_update gp, ground arith)
    ]
  ]

module _ {S B Float : Type 0} (policies : Kind S GuardrailPolicy) (finalizers : Finalizers)
    (bedrock : GuardrailCreator B) (key : ObjectKey) (stored : S → Option GuardrailPolicy)
    (server : IsServer policies key stored) (now : ℕ) (gp : GuardrailPolicy)
    (w : World S (List Call × B) Float) where
  -- A sync makes one call for the policy, and what it stores says Synced only if the call succeeded.
  record IsSync (t : World S (List Call × B) Float) : Type 0 where
    call : Call
    grown : calls t ≡ call ∷ calls w
    asks : Asks (create_input gp) call
    left :
        (stored t.cluster ≡ stored w.cluster)
        ⊎ ((gp' : GuardrailPolicy) × (stored t.cluster ≡ saved (set_status gp gp'))
            × (gp'.status.observed_generation ≡ gp.meta.generation)
            × (IsReportedSynced gp' → succeeded call ≡ true))

  sync-IsSync : IsSync (sync (reconciler policies finalizers bedrock) now gp w).1
  unfolding sync report
  sync-IsSync =
      let r = reconciler policies finalizers bedrock in
      let (c, grown, asks, outcome) =
        sync_guardrail-call policies finalizers bedrock gp w.bedrock in
      let same = sync-bedrock r now key gp w in
      elim (Result-cases (sync_guardrail r gp w.bedrock).0) [
        | inl (out, e) ↦
            let gp' = with_guardrail out.0 out.1 now gp in
            record {
              call = c;
              grown = ap (λ b. b.0) same ∙ grown;
              asks = asks;
              left = elim (server.stored-patch_status w.cluster gp gp') [
                | inl kept ↦ inl (ground arith)
                | inr new ↦ inr (
                  gp',
                  ground arith,
                  with_guardrail-observed out.0 out.1 now gp,
                  λ synced. ground arith,
                )
              ];
            }
        | inr (m, e) ↦
            let gp' = with_failure m now gp in
            record {
              call = c;
              grown = ap (λ b. b.0) same ∙ grown;
              asks = asks;
              left = elim (server.stored-patch_status w.cluster gp gp') [
                | inl kept ↦ inl (ground arith)
                | inr new ↦ inr (
                  gp',
                  ground arith,
                  with_failure-observed m now gp,
                  λ synced. absurd (failure-unsynced m now gp synced),
                )
              ];
            }
      ]

  -- What a reconcile of the policy leaves at the API server is honest.
  abbrev pub LeavesHonest : World S (List Call × B) Float → Type 0
  LeavesHonest t = (pt : GuardrailPolicy) → stored t.cluster ≡ some pt → IsHonest (calls t) pt

  IsSync-LeavesHonest :
      (t : World S (List Call × B) Float)
      → stored w.cluster ≡ some gp
      → IsHonest (calls w) gp
      → IsSync t
      → LeavesHonest t
  IsSync-LeavesHonest t there h v pt e = rw v.grown (elim v.left [
    | inl kept ↦
        let same : gp ≡ pt = ground arith in
        rw (← same) (record {
          observed = h.observed;
          applied = λ live equal synced. (v.asks, inr (h.applied live equal synced));
        })
    | inr (gp', new, equal, good) ↦
        let same : set_status gp gp' ≡ pt = saved-some (set_status gp gp') pt (sym new ∙ e) in
        let input = create_input-same gp (set_status gp gp') refl refl in
        rw (← same) (record {
          observed = λ live. rw equal (≤ℤ_refl gp.meta.generation);
          applied = λ live _ synced. (rw (← input) v.asks, inl (good synced));
        })
  ])

  deletion-LeavesHonest :
      stored w.cluster ≡ some gp
      → is_deleted gp ≡ true
      → LeavesHonest (handle_guardrail_deletion (reconciler policies finalizers bedrock) gp w).1
  deletion-LeavesHonest own dead pt e =
      let t = (handle_guardrail_deletion (reconciler policies finalizers bedrock) gp w).1 in
      let last = set_finalizers (finalizers.remove gp.meta.finalizers finalizer_name) gp in
      elim (handle_guardrail_deletion-stored policies finalizers bedrock key stored server now gp
        w) [
          | inl same ↦
              let kept : gp ≡ pt = ground arith in rw (← kept) (dead-IsHonest (calls t) gp dead)
          | inr (has, new) ↦
              rw (← saved-some last pt (sym new ∙ e)) (dead-IsHonest (calls t) last dead)
        ]

  add_finalizer-calls :
      calls (add_finalizer (reconciler policies finalizers bedrock) gp w).1 ≡ calls w
  unfolding add_finalizer
  add_finalizer-calls = ground arith

  add_finalizer-LeavesHonest :
      stored w.cluster ≡ some gp
      → IsHonest (calls w) gp
      → LeavesHonest (add_finalizer (reconciler policies finalizers bedrock) gp w).1
  add_finalizer-LeavesHonest own h pt e =
      let l = finalizers.add gp.meta.finalizers finalizer_name in
      rw add_finalizer-calls
        (elim (add_finalizer-stored policies finalizers bedrock key stored server now gp w) [
          | inl same ↦ let kept : gp ≡ pt = ground arith in rw (← kept) h
          | inr new ↦
              rw (← saved-some (set_finalizers l gp) pt (sym new ∙ e))
                (set_finalizers-IsHonest (calls w) l gp h)
        ])

  pub reconcile_found-LeavesHonest :
      policies.get key w.cluster ≡ found gp
      → IsHonest (calls w) gp
      → LeavesHonest (reconcile (reconciler policies finalizers bedrock) now key w).1
  reconcile_found-LeavesHonest there h =
      let r = reconciler policies finalizers bedrock in
      let branch = reconcile-branch r now key gp w there in
      let own = server.stored-get w.cluster gp there in
      elim (Bool-cases (is_deleted gp)) [
        | inl dead ↦
            let left : (reconcile r now key w).1 ≡ (handle_guardrail_deletion r gp w).1 =
              ground arith in
            subst LeavesHonest (sym left) (deletion-LeavesHonest own dead)
        | inr live ↦ elim (Bool-cases (finalizers.contains gp.meta.finalizers finalizer_name)) [
          | inl has ↦
              let left : (reconcile r now key w).1 ≡ (sync r now gp w).1 = ground arith in
              subst LeavesHonest (sym left)
                (IsSync-LeavesHonest (sync r now gp w).1 own h sync-IsSync)
          | inr without ↦
              let left : (reconcile r now key w).1 ≡ (add_finalizer r gp w).1 = ground arith in
              subst LeavesHonest (sym left) (add_finalizer-LeavesHonest own h)
        ]
      ]
