-- ===== src/Controller/Guardrail/Life/Laws.antt =====
-- What one reconcile of a policy leaves at the API server, and which calls it makes.
use k8s_ai_operator.Base.{
  ℕ, Text, Bool, true, false, not, ◌&&◌, Option, none, some, List, [], ◌∷◌, ◌==◌, text_eq, nat_eq,
  if◌then◌else◌, ◌≡◌, refl, ◌≢◌, ◌⊎◌, inl, inr, arith, ap, Bool-cases, ==_false, Result-cases,
}
use k8s_ai_operator.Api.Meta.{ObjectKey, finalizer_name}
use k8s_ai_operator.Api.Guardrail.{GuardrailPolicy}
use k8s_ai_operator.Controller.Cluster.{
  Kind, Got, found, not_found, failed, Finalizers, AreFinalizers, World,
}
use k8s_ai_operator.Controller.Guardrail.Inputs.{create_input}
use k8s_ai_operator.Controller.Guardrail.{
  GuardrailCreator, set_finalizers, with_failure, with_guardrail, sync_guardrail,
  handle_guardrail_deletion, add_finalizer, report, sync, reconcile,
}
use k8s_ai_operator.Controller.Guardrail.Laws.{
  set_status, is_deleted, for_guardrail, reconcile-branch, reconcile-bedrock,
}
use k8s_ai_operator.Controller.Guardrail.Life.{
  Call, deleted, Called, is_empty, saved, IsServer, reconciler, calls, IsGuarded,
}

pub saved-IsGuarded :
    (finalizers : Finalizers) (cs : List Call) (gp : GuardrailPolicy)
    → IsGuarded finalizers cs (some gp)
    → IsGuarded finalizers cs (saved gp)
saved-IsGuarded finalizers cs gp h =
    elim (Bool-cases (is_deleted gp && is_empty gp.meta.finalizers)) [
      | inl gone ↦ rw gone tt
      | inr kept ↦ rw kept h
    ]

is_empty_nil : (l : List Text) → is_empty l ≡ true → l ≡ []
is_empty_nil [] e = refl
is_empty_nil (t ∷ l) e = absurd (ground arith)

pub saved-none : (gp : GuardrailPolicy) → saved gp ≡ none → gp.meta.finalizers ≡ []
saved-none gp e = ground (arith, is_empty_nil gp.meta.finalizers)

IsGuarded-mono :
    (finalizers : Finalizers) (cs ds : List Call) (o : Option GuardrailPolicy)
    → ((c : Bool → Call) → Called c cs → Called c ds)
    → IsGuarded finalizers cs o
    → IsGuarded finalizers ds o
IsGuarded-mono finalizers cs ds none grows h = tt
IsGuarded-mono finalizers cs ds (some gp) grows h = λ named. elim (h named) [
  | inl has ↦ inl has
  | inr done ↦ inr (grows (deleted gp.status.guardrail_id) done)
]

-- The status and the finalizer are kept.
pub edited-IsGuarded :
    (finalizers : Finalizers) (cs : List Call) (gp gp' : GuardrailPolicy)
    → gp'.status ≡ gp.status
    → (finalizers.contains gp.meta.finalizers finalizer_name ≡ true
        → finalizers.contains gp'.meta.finalizers finalizer_name ≡ true)
    → IsGuarded finalizers cs (some gp)
    → IsGuarded finalizers cs (some gp')
edited-IsGuarded finalizers cs gp gp' status keeps h named =
    let id : gp'.status.guardrail_id ≡ gp.status.guardrail_id = ap (λ s. s.guardrail_id) status in
    elim (h (rw id at named)) [ inl has ↦ inl (keeps has) | inr done ↦ inr (rw id done) ]

pub Got-cases :
    {A : Type 0} (g : Got A)
    → ((a : A) × (g ≡ found a)) ⊎ ((g ≡ not_found) ⊎ ((e : Text) × (g ≡ failed e)))
Got-cases (found a) = inl (a, refl)
Got-cases not_found = inr (inl refl)
Got-cases (failed e) = inr (inr (e, refl))

if_Called :
    {B : Type 0} (c : Bool → Call) (b : Bool) (x y : List Call × B)
    → Called c x.0
    → Called c y.0
    → Called c (if b then x else y).0
if_Called c true x y hx hy = hx
if_Called c false x y hx hy = hy

module _ {S B Float : Type 0} (policies : Kind S GuardrailPolicy) (finalizers : Finalizers)
    (bedrock : GuardrailCreator B) (key : ObjectKey) (stored : S → Option GuardrailPolicy)
    (server : IsServer policies key stored) (now : ℕ) (gp : GuardrailPolicy)
    (w : World S (List Call × B) Float) where
  pub handle_guardrail_deletion-stored :
      let t = (handle_guardrail_deletion (reconciler policies finalizers bedrock) gp w).1 in
      (stored t.cluster ≡ stored w.cluster)
      ⊎ ((finalizers.contains gp.meta.finalizers finalizer_name ≡ true)
          × (stored t.cluster
              ≡ saved (set_finalizers (finalizers.remove gp.meta.finalizers finalizer_name) gp)))
  unfolding handle_guardrail_deletion
  handle_guardrail_deletion-stored = ground (
    arith,
    server.stored-update w.cluster
        (set_finalizers (finalizers.remove gp.meta.finalizers finalizer_name) gp),
  )

  pub add_finalizer-stored :
      let t = (add_finalizer (reconciler policies finalizers bedrock) gp w).1 in
      (stored t.cluster ≡ stored w.cluster)
      ⊎ (stored t.cluster
          ≡ saved (set_finalizers (finalizers.add gp.meta.finalizers finalizer_name) gp))
  unfolding add_finalizer
  add_finalizer-stored = ground (
    arith,
    server.stored-update w.cluster
        (set_finalizers (finalizers.add gp.meta.finalizers finalizer_name) gp),
  )

  pub sync-stored :
      let t = (sync (reconciler policies finalizers bedrock) now gp w).1 in
      (stored t.cluster ≡ stored w.cluster)
      ⊎ ((gp' : GuardrailPolicy) × (stored t.cluster ≡ saved (set_status gp gp')))
  unfolding sync report
  sync-stored =
      elim (Result-cases (sync_guardrail (reconciler policies finalizers bedrock) gp w.bedrock).0) [
        | inl (out, e) ↦
            elim (server.stored-patch_status w.cluster gp (with_guardrail out.0 out.1 now gp)) [
              | inl same ↦ inl (ground arith)
              | inr new ↦ inr (with_guardrail out.0 out.1 now gp, ground arith)
            ]
        | inr (m, e) ↦ elim (server.stored-patch_status w.cluster gp (with_failure m now gp)) [
          | inl same ↦ inl (ground arith)
          | inr new ↦ inr (with_failure m now gp, ground arith)
        ]
      ]

  pub reconcile-calls :
      policies.get key w.cluster ≡ found gp
      → (c : Bool → Call) → Called c (calls w)
      → Called c (calls (reconcile (reconciler policies finalizers bedrock) now key w).1)
  reconcile-calls there c old =
      let r = reconciler policies finalizers bedrock in
      let has = finalizers.contains gp.meta.finalizers finalizer_name in
      let same = reconcile-bedrock r now key gp w there in
      rw (calls, same)
        (if_Called c (not has) w.bedrock _ old (
          if_Called c (gp.status.guardrail_id == []) _ _
            (if_Called c (is_deleted gp) w.bedrock
              (r.bedrock.create_guardrail (create_input gp) w.bedrock).1 old (inr old))
            (if_Called c (is_deleted gp)
              (r.bedrock.delete_guardrail gp.status.guardrail_id w.bedrock).1
              (r.bedrock.update_guardrail (for_guardrail gp.status.guardrail_id (create_input gp))
                w.bedrock).1
              (inr old) (inr old))))

  reconcile-deleted :
      policies.get key w.cluster ≡ found gp
      → is_deleted gp ≡ true
      → finalizers.contains gp.meta.finalizers finalizer_name ≡ true
      → gp.status.guardrail_id ≢ []
      → Called
          (deleted gp.status.guardrail_id)
          (calls (reconcile (reconciler policies finalizers bedrock) now key w).1)
  reconcile-deleted there dead has named =
      let same = reconcile-bedrock (reconciler policies finalizers bedrock) now key gp w there in
      rw (calls, same, has, ==_false named, dead) (inl (_, refl))

  -- What a reconcile of a policy leaves at the API server.
  pub reconcile_found-IsGuarded :
      AreFinalizers finalizers
      → policies.get key w.cluster ≡ found gp
      → IsGuarded finalizers (calls w) (some gp)
      → let t = (reconcile (reconciler policies finalizers bedrock) now key w).1 in
        IsGuarded finalizers (calls t) (stored t.cluster)
  reconcile_found-IsGuarded laws there h =
      let r = reconciler policies finalizers bedrock in
      let t = (reconcile r now key w).1 in
      let branch = reconcile-branch r now key gp w there in
      let kept : IsGuarded finalizers (calls t) (some gp) =
        IsGuarded-mono finalizers (calls w) (calls t) (some gp) (reconcile-calls there) h in
      let unchanged : stored t.cluster ≡ stored w.cluster
          → IsGuarded finalizers (calls t) (stored t.cluster) =
        λ e. rw (e, server.stored-get w.cluster gp there) kept in
      let changed : (gp' : GuardrailPolicy)
          → stored t.cluster ≡ saved gp'
          → IsGuarded finalizers (calls t) (some gp')
          → IsGuarded finalizers (calls t) (stored t.cluster) =
        λ gp' e g. rw e (saved-IsGuarded finalizers (calls t) gp' g) in
      elim (Bool-cases (is_deleted gp)) [
        | inl dead ↦
            let left : t ≡ (handle_guardrail_deletion r gp w).1 = ground arith in
            elim handle_guardrail_deletion-stored [
              | inl same ↦ unchanged (rw left same)
              | inr (has, new) ↦
                  changed (set_finalizers (finalizers.remove gp.meta.finalizers finalizer_name) gp)
                    (rw left new) (λ named. inr (reconcile-deleted there dead has named))
            ]
        | inr live ↦ elim (Bool-cases (finalizers.contains gp.meta.finalizers finalizer_name)) [
          | inr without ↦
              let left : t ≡ (add_finalizer r gp w).1 = ground arith in
              elim add_finalizer-stored [
                | inl same ↦ unchanged (rw left same)
                | inr new ↦
                    changed (set_finalizers (finalizers.add gp.meta.finalizers finalizer_name) gp)
                      (rw left new)
                      (λ named. inl (laws.contains-add gp.meta.finalizers finalizer_name))
              ]
          | inl has ↦
              let left : t ≡ (sync r now gp w).1 = ground arith in
              elim sync-stored [
                | inl same ↦ unchanged (rw left same)
                | inr (gp', new) ↦ changed (set_status gp gp') (rw left new) (λ named. inl has)
              ]
        ]
      ]

  -- A policy that has the finalizer is removed by a reconcile that deletes its guardrail only.
  pub reconcile_found-vanished :
      policies.get key w.cluster ≡ found gp
      → finalizers.contains gp.meta.finalizers finalizer_name ≡ true
      → gp.status.guardrail_id ≢ []
      → let t = (reconcile (reconciler policies finalizers bedrock) now key w).1 in
        stored t.cluster ≡ none → Called (deleted gp.status.guardrail_id) (calls t)
  reconcile_found-vanished there has named gone =
      let r = reconciler policies finalizers bedrock in
      let branch = reconcile-branch r now key gp w there in
      let own = server.stored-get w.cluster gp there in
      elim (Bool-cases (is_deleted gp)) [
        | inl dead ↦ reconcile-deleted there dead has named
        | inr live ↦
            let left : (reconcile r now key w).1 ≡ (sync r now gp w).1 = ground arith in
            elim sync-stored [
              | inl same ↦ absurd (ground arith)
              | inr (gp', new) ↦ absurd (ground arith)
            ]
      ]
