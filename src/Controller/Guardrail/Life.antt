-- ===== src/Controller/Guardrail/Life.antt =====
-- The life of a policy: what users and the API server do to it, and reconciles of
-- internal/controller/guardrailpolicy_controller.go in between, in any order.
pub mod Laws
pub mod Deleted
pub mod Honest
pub mod Synced
pub mod Applied
use k8s_ai_operator.Base.{
  ℕ, ℤ, ◌≤ℤ◌, lt_int, Text, Bool, true, false, not, ◌&&◌, Option, none, some, List, [], ◌∷◌, Result,
  ok, err, text_eq, nat_eq, if◌then◌else◌, ◌≡◌, ◌≢◌, ◌⊎◌, Any,
}
use k8s_ai_operator.Base.Exec.{Exec}
use k8s_ai_operator.Api.Meta.{ObjectKey, finalizer_name}
use k8s_ai_operator.Api.Guardrail.{GuardrailPolicy}
use k8s_ai_operator.Controller.Cluster.{Kind, found, Finalizers, World}
use k8s_ai_operator.Controller.Guardrail.Inputs.{CreateGuardrailInput, UpdateGuardrailInput}
use k8s_ai_operator.Controller.Guardrail.{GuardrailCreator, Reconciler, reconcile}
use k8s_ai_operator.Controller.Guardrail.Laws.{set_status, is_deleted}

-- The calls of Bedrock that have been made, the latest first, each with whether it succeeded.
pub data Call : Type 0 where
  created : CreateGuardrailInput → Bool → Call
  updated : UpdateGuardrailInput → Bool → Call
  deleted : Text → Bool → Call

abbrev pub is_ok : {A : Type 0} → Result A → Bool
is_ok (ok a) = true
is_ok (err e) = false

abbrev pub noted : {B A : Type 0} → (Bool → Call) → Exec B A → Exec (List Call × B) A
noted c m (cs, b) = let (result, b') = m b in (result, (c (is_ok result) ∷ cs, b'))

-- The same Bedrock, with a record of the calls.
abbrev pub recording : {B : Type 0} → GuardrailCreator B → GuardrailCreator (List Call × B)
recording g = record {
  create_guardrail = λ input. noted (created input) (g.create_guardrail input);
  update_guardrail = λ input. noted (updated input) (g.update_guardrail input);
  delete_guardrail = λ id. noted (deleted id) (g.delete_guardrail id);
}

-- The call was made, with some outcome.
abbrev pub Called : (Bool → Call) → List Call → Type 0
Called c cs = Any (λ d. (b : Bool) × (d ≡ c b)) cs

abbrev pub is_empty : List Text → Bool
is_empty [] = true
is_empty (t ∷ ts) = false

-- What the API server keeps of a policy that is written: nothing, once it is being deleted and its last
-- finalizer is gone.
abbrev pub saved : GuardrailPolicy → Option GuardrailPolicy
saved gp = if is_deleted gp && is_empty gp.meta.finalizers then none else some gp

-- The API server for one key: a read gives what is stored, and a write is stored or not, whatever it
-- reports. A status patch changes the status alone.
pub record IsServer {S : Type 0} (policies : Kind S GuardrailPolicy) (key : ObjectKey)
    (stored : S → Option GuardrailPolicy) : Type 0 where
  pub stored-get :
      (s : S) (gp : GuardrailPolicy) → policies.get key s ≡ found gp → stored s ≡ some gp
  pub stored-update :
      (s : S) (gp : GuardrailPolicy)
      → (stored (policies.update gp s).1 ≡ stored s) ⊎ (stored (policies.update gp s).1 ≡ saved gp)
  pub stored-patch_status :
      (s : S) (gp gp' : GuardrailPolicy)
      → (stored (policies.patch_status gp gp' s).1 ≡ stored s)
        ⊎ (stored (policies.patch_status gp gp' s).1 ≡ saved (set_status gp gp'))

abbrev pub reconciler :
    {S B : Type 0}
    → Kind S GuardrailPolicy
    → Finalizers
    → GuardrailCreator B
    → Reconciler S (List Call × B)
reconciler policies finalizers bedrock = record {
  policies = policies;
  finalizers = finalizers;
  bedrock = recording bedrock;
}

abbrev pub calls : {S B Float : Type 0} → World S (List Call × B) Float → List Call
calls w = w.bedrock.0

-- A policy with a guardrail has the finalizer, unless the guardrail's deletion was called.
abbrev pub IsGuarded : Finalizers → List Call → Option GuardrailPolicy → Type 0
IsGuarded finalizers cs none = Unit
IsGuarded finalizers cs (some gp) =
    gp.status.guardrail_id ≢ []
    → (finalizers.contains gp.meta.finalizers finalizer_name ≡ true)
      ⊎ Called (deleted gp.status.guardrail_id) cs

-- A change by a user: a new spec has a new generation, and the status, the name, a request for deletion
-- and the operator's finalizer stay.
pub record IsEdit (finalizers : Finalizers) (gp gp' : GuardrailPolicy) : Type 0 where
  pub status : gp'.status ≡ gp.status
  pub name : gp'.meta.name ≡ gp.meta.name
  pub deletion : gp'.meta.deletion_timestamp ≡ gp.meta.deletion_timestamp
  pub generation : gp.meta.generation ≤ℤ gp'.meta.generation
  pub spec : gp'.meta.generation ≡ gp.meta.generation → gp'.spec ≡ gp.spec
  pub keeps :
      finalizers.contains gp.meta.finalizers finalizer_name ≡ true
      → finalizers.contains gp'.meta.finalizers finalizer_name ≡ true

module _ {S B Float : Type 0} (policies : Kind S GuardrailPolicy) (finalizers : Finalizers)
    (bedrock : GuardrailCreator B) (key : ObjectKey) (stored : S → Option GuardrailPolicy) where
  -- Users create policies, without a status, change them, and ask for their deletion. They leave the
  -- operator's finalizer alone. Other events of the cluster do not concern the policy.
  pub data Life (w : World S (List Call × B) Float) : World S (List Call × B) Float → Type 0 where
    reconciled : (now : ℕ) → Life w (reconcile (reconciler policies finalizers bedrock) now key w).1
    made :
        (t : S) (gp : GuardrailPolicy)
        → stored w.cluster ≡ none
        → gp.status.guardrail_id ≡ []
        → lt_int gp.status.observed_generation gp.meta.generation ≡ true
        → stored t ≡ some gp
        → Life w (record w { cluster = t })
    edited :
        (t : S) (gp gp' : GuardrailPolicy)
        → stored w.cluster ≡ some gp
        → IsEdit finalizers gp gp'
        → stored t ≡ some gp'
        → Life w (record w { cluster = t })
    marked :
        (t : S) (gp gp' : GuardrailPolicy)
        → stored w.cluster ≡ some gp
        → gp'.status ≡ gp.status
        → gp'.meta.finalizers ≡ gp.meta.finalizers
        → is_deleted gp' ≡ true
        → stored t ≡ saved gp'
        → Life w (record w { cluster = t })
    elsewhere : (t : S) → stored t ≡ stored w.cluster → Life w (record w { cluster = t })

  pub data Lives (w : World S (List Call × B) Float) : World S (List Call × B) Float → Type 0 where
    here : Lives w w
    next : {u v : World S (List Call × B) Float} → Lives w u → Life u v → Lives w v
