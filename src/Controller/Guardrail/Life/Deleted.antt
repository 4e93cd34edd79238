-- ===== src/Controller/Guardrail/Life/Deleted.antt =====
-- Lives of a policy up to its removal, and the deletion of its guardrail
-- (internal/controller/guardrailpolicy_controller.go).
use k8s_ai_operator.Base.{
  Bool, ℕ, true, false, Option, none, some, List, [], text_eq, nat_eq, ◌≡◌, ◌≢◌, inl, inr, arith,
}
use k8s_ai_operator.Api.Meta.{ObjectKey, finalizer_name}
use k8s_ai_operator.Api.Guardrail.{GuardrailPolicy}
use k8s_ai_operator.Controller.Cluster.{Kind, Finalizers, AreFinalizers, World}
use k8s_ai_operator.Controller.Guardrail.{GuardrailCreator, reconcile}
use k8s_ai_operator.Controller.Guardrail.Life.{
  Call, deleted, Called, IsServer, reconciler, calls, IsGuarded, Life, reconciled, made, edited,
  marked, elsewhere, Lives, here, next,
}
use k8s_ai_operator.Controller.Guardrail.Life.Laws.{
  saved-IsGuarded, saved-none, edited-IsGuarded, Got-cases, reconcile-calls,
  reconcile_found-IsGuarded, reconcile_found-vanished,
}

module _ {S B Float : Type 0} (policies : Kind S GuardrailPolicy) (finalizers : Finalizers)
    (bedrock : GuardrailCreator B) (key : ObjectKey) (stored : S → Option GuardrailPolicy)
    (server : IsServer policies key stored) (laws : AreFinalizers finalizers) where
  reconcile-IsGuarded :
      (now : ℕ) (w : World S (List Call × B) Float)
      → IsGuarded finalizers (calls w) (stored w.cluster)
      → let t = (reconcile (reconciler policies finalizers bedrock) now key w).1 in
        IsGuarded finalizers (calls t) (stored t.cluster)
  unfolding reconcile
  reconcile-IsGuarded now w h = elim (Got-cases (policies.get key w.cluster)) [
    | inl (gp, there) ↦
        reconcile_found-IsGuarded policies finalizers bedrock key stored server now gp w laws there
          (rw (server.stored-get w.cluster gp there) at h)
    | inr (inl absent) ↦ rw absent h
    | inr (inr (e, broken)) ↦ rw broken h
  ]

  Life-IsGuarded :
      {w t : World S (List Call × B) Float}
      → Life policies finalizers bedrock key stored w t
      → IsGuarded finalizers (calls w) (stored w.cluster)
      → IsGuarded finalizers (calls t) (stored t.cluster)
  Life-IsGuarded {w} (reconciled now) h = reconcile-IsGuarded now w h
  Life-IsGuarded (made s gp absent new young e) h = rw e (λ named. absurd (named new))
  Life-IsGuarded {w} (edited s gp gp' old k e) h =
      rw e (edited-IsGuarded finalizers (calls w) gp gp' k.status k.keeps (rw old at h))
  Life-IsGuarded {w} (marked s gp gp' old status same dead e) h = rw e (
      saved-IsGuarded finalizers (calls w) gp'
        (edited-IsGuarded finalizers (calls w) gp gp' status (λ has. rw same has) (rw old at h)))
  Life-IsGuarded (elsewhere s e) h = rw e h

  Lives-IsGuarded :
      {w t : World S (List Call × B) Float}
      → Lives policies finalizers bedrock key stored w t
      → IsGuarded finalizers (calls w) (stored w.cluster)
      → IsGuarded finalizers (calls t) (stored t.cluster)
  Lives-IsGuarded here h = h
  Lives-IsGuarded (next lives l) h = Life-IsGuarded l (Lives-IsGuarded lives h)

  reconcile-vanished :
      (now : ℕ) (w : World S (List Call × B) Float) (gp : GuardrailPolicy)
      → stored w.cluster ≡ some gp
      → finalizers.contains gp.meta.finalizers finalizer_name ≡ true
      → gp.status.guardrail_id ≢ []
      → let t = (reconcile (reconciler policies finalizers bedrock) now key w).1 in
        stored t.cluster ≡ none → Called (deleted gp.status.guardrail_id) (calls t)
  unfolding reconcile
  reconcile-vanished now w gp own has named gone = elim (Got-cases (policies.get key w.cluster)) [
    | inl (gp', there) ↦
        let same : gp' ≡ gp = ground (arith, server.stored-get w.cluster gp' there) in
        reconcile_found-vanished policies finalizers bedrock key stored server now gp w
          (rw (← same) there) has named gone
    | inr (inl absent) ↦ absurd (ground arith)
    | inr (inr (e, broken)) ↦ absurd (ground arith)
  ]

  Life-calls :
      {w t : World S (List Call × B) Float} (c : Bool → Call)
      → Life policies finalizers bedrock key stored w t
      → Called c (calls w)
      → Called c (calls t)
  unfolding reconcile
  Life-calls {w} c (reconciled now) h = elim (Got-cases (policies.get key w.cluster)) [
    | inl (gp, there) ↦
        reconcile-calls policies finalizers bedrock key stored server now gp w there c h
    | inr (inl absent) ↦ rw absent h
    | inr (inr (e, broken)) ↦ rw broken h
  ]
  Life-calls c (made s gp absent new young e) h = h
  Life-calls c (edited s gp gp' old k e) h = h
  Life-calls c (marked s gp gp' old status same dead e) h = h
  Life-calls c (elsewhere s e) h = h

  -- The step in which a policy with the finalizer goes.
  Life-vanished :
      {w t : World S (List Call × B) Float} (gp : GuardrailPolicy)
      → finalizers.contains [] finalizer_name ≡ false
      → Life policies finalizers bedrock key stored w t
      → stored w.cluster ≡ some gp
      → finalizers.contains gp.meta.finalizers finalizer_name ≡ true
      → gp.status.guardrail_id ≢ []
      → stored t.cluster ≡ none
      → Called (deleted gp.status.guardrail_id) (calls t)
  Life-vanished {w} gp empty (reconciled now) own has named gone =
      reconcile-vanished now w gp own has named gone
  Life-vanished gp empty (made s gp' absent new young e) own has named gone = absurd (ground arith)
  Life-vanished gp empty (edited s gp' gp2 old k e) own has named gone = absurd (ground arith)
  Life-vanished gp empty (marked s gp1 gp2 old status same dead e) own has named gone =
      let bare = saved-none gp2 (ground arith) in
      let whole : gp1.meta.finalizers ≡ gp.meta.finalizers = ground arith in
      let nothing : finalizers.contains gp.meta.finalizers finalizer_name ≡ false =
        rw (← whole, ← same, bare) empty in
      absurd (ground arith)
  Life-vanished gp empty (elsewhere s e) own has named gone = absurd (ground arith)

  -- Whatever users do but take away the operator's finalizer, and whatever the API server and Bedrock
  -- answer, a policy with a guardrail id in its status goes only after DeleteGuardrail was called with
  -- that id, though the call may have failed.
  pub Lives-deleted :
      (w u v : World S (List Call × B) Float) (gp : GuardrailPolicy)
      → finalizers.contains [] finalizer_name ≡ false
      → stored w.cluster ≡ none
      → Lives policies finalizers bedrock key stored w u
      → Life policies finalizers bedrock key stored u v
      → stored u.cluster ≡ some gp
      → gp.status.guardrail_id ≢ []
      → stored v.cluster ≡ none
      → Called (deleted gp.status.guardrail_id) (calls v)
  Lives-deleted w u v gp empty start lives l own named gone =
      let guarded : IsGuarded finalizers (calls u) (some gp) =
        rw own at (Lives-IsGuarded lives (rw start tt)) in
      elim (guarded named) [
        | inl has ↦ Life-vanished gp empty l own has named gone
        | inr done ↦ Life-calls (deleted gp.status.guardrail_id) l done
      ]
