-- ===== src/Controller/Template/Edits.antt =====
-- A reconcile of a PromptTemplate while users change the template: between the read at the start of
-- Reconcile of internal/controller/prompttemplate_controller.go and its write at the end, the template
-- that is stored may become another. One reconcile of a template runs at a time, as controller-runtime
-- has it, and a template is not deleted and made again during a reconcile.
pub mod Honest
pub mod Laws
use k8s_ai_operator.Base.{
  ℕ, ℤ, ◌≤ℤ◌, lt_int, Text, true, not, Option, none, some, List, ◌≡◌, ◌⊎◌, arith, if◌then◌else◌,
  nat_eq,
}
use k8s_ai_operator.Api.Meta.{ObjectKey, finalizer_name}
use k8s_ai_operator.Api.Template.{PromptTemplate}
use k8s_ai_operator.Controller.Cluster.{Kind, found, Outcome}
use k8s_ai_operator.Controller.Template.{
  Reconciler, set_finalizers, handle_deletion, add_finalizer, validate, reconcile,
}
use k8s_ai_operator.Controller.Template.Laws.{set_status, is_deleted}

-- The API server for one key. An update of the finalizers is refused if the object has changed, and a
-- status patch is a difference, which gives the new status where the old one is still there. Either may
-- be stored or not, whatever is reported.
pub record IsServer {S : Type 0} (templates : Kind S PromptTemplate) (key : ObjectKey)
    (stored : S → Option PromptTemplate) : Type 0 where
  pub stored-get :
      (s : S) (pt : PromptTemplate) → templates.get key s ≡ found pt → stored s ≡ some pt
  pub stored-update :
      (s : S) (pt : PromptTemplate) (l : List Text)
      → let t = (templates.update (set_finalizers l pt) s).1 in
        (stored t ≡ stored s)
        ⊎ ((stored t ≡ none)
            ⊎ ((now : PromptTemplate) × (stored s ≡ some now)
                × (stored t ≡ some (set_finalizers l now))))
  pub stored-patch_status :
      (s : S) (pt pt' : PromptTemplate)
      → let t = (templates.patch_status pt pt' s).1 in
        (stored t ≡ stored s)
        ⊎ ((now : PromptTemplate) × (stored s ≡ some now)
            × (now.status ≡ pt.status → stored t ≡ some (set_status now pt')))

module _ {S Tmpl : Type 0} (r : Reconciler S Tmpl) (key : ObjectKey) where
  -- Reconcile from the read on.
  abbrev pub resume : ℕ → ℕ → PromptTemplate → S → Outcome × S
  resume valid_at ready_at pt s =
      if is_deleted pt
      then handle_deletion r pt s
      else if not (r.finalizers.contains pt.meta.finalizers finalizer_name)
      then add_finalizer r pt s
      else validate r valid_at ready_at key pt s

  reconcile-resume :
      (valid_at ready_at : ℕ) (pt : PromptTemplate) (s : S)
      → r.templates.get key s ≡ found pt
      → reconcile r valid_at ready_at key s ≡ resume valid_at ready_at pt s
  unfolding reconcile
  reconcile-resume valid_at ready_at pt s here = ground arith

-- The cluster, and what the reconcile that is under way has read.
pub record Run (S : Type 0) : Type 0 where
  pub cluster : S
  pub reading : Option PromptTemplate

module _ {S Tmpl : Type 0} (r : Reconciler S Tmpl) (key : ObjectKey)
    (stored : S → Option PromptTemplate) where
  pub data Step (p : Run S) : Run S → Type 0 where
    -- A new template has a generation and no status yet.
    made :
        (t : S) (pt : PromptTemplate)
        → p.reading ≡ none
        → stored p.cluster ≡ none
        → lt_int pt.status.observed_generation pt.meta.generation ≡ true
        → stored t ≡ some pt
        → Step p (record p { cluster = t })
    -- A write of a user leaves the status, and a new spec has a new generation.
    changed :
        (t : S) (pt pt' : PromptTemplate)
        → stored p.cluster ≡ some pt
        → pt'.status ≡ pt.status
        → pt.meta.generation ≤ℤ pt'.meta.generation
        → (pt'.meta.generation ≡ pt.meta.generation → pt'.spec ≡ pt.spec)
        → stored t ≡ some pt'
        → Step p (record p { cluster = t })
    removed : (t : S) → stored t ≡ none → Step p (record p { cluster = t })
    elsewhere : (t : S) → stored t ≡ stored p.cluster → Step p (record p { cluster = t })
    read :
        (pt : PromptTemplate)
        → p.reading ≡ none
        → r.templates.get key p.cluster ≡ found pt
        → Step p (record p { reading = some pt })
    resumed :
        (valid_at ready_at : ℕ) (pt : PromptTemplate)
        → p.reading ≡ some pt
        → Step p
            (record { cluster = (resume r key valid_at ready_at pt p.cluster).1; reading = none })
    restarted : Step p (record p { reading = none })

  pub data Steps (p : Run S) : Run S → Type 0 where
    here : Steps p p
    next : {q t : Run S} → Steps p q → Step q t → Steps p t
