-- ===== src/Controller/Template/Laws.antt =====
-- What a reconcile of a PromptTemplate reports in its status.
use k8s_ai_operator.Base.{
  lit, ℕ, Text, Bool, true, false, not, ◌&&◌, Option, none, some, Result, ok, err, ◌==◌, text_eq,
  nat_eq, if◌then◌else◌, ◌≡◌, refl, inl, inr, arith, Result-cases, ◌∙◌, ==_refl,
}
use k8s_ai_operator.Api.Meta.{ObjectKey, Condition, condition_ready, finalizer_name, is_zero_time}
use k8s_ai_operator.Api.Endpoint.{ModelEndpoint}
use k8s_ai_operator.Api.Template.{PromptTemplate}
use k8s_ai_operator.Controller.Conditions.{set_condition, condition_status, status_eq, refreshed}
use k8s_ai_operator.Controller.Conditions.Laws.{
  find_condition, merged, find_condition-set_condition,
}
use k8s_ai_operator.Controller.Cluster.{
  Got, found, not_found, failed, IsKept, after, requeue_steady_state, requeue_transient,
}
use k8s_ai_operator.Controller.Template.{
  Reconciler, set_finalizers, condition_template_valid, Verdict, template_verdict, endpoint_verdict,
  condition_of, with_verdicts, validate, reconcile,
}

abbrev pub set_status : PromptTemplate → PromptTemplate → PromptTemplate
set_status a b = record a { status = b.status }

abbrev pub is_deleted : PromptTemplate → Bool
is_deleted pt = not (is_zero_time pt.meta.deletion_timestamp)

-- The template's text parses.
abbrev pub parses : {Tmpl : Type 0} → Result Tmpl → Bool
parses (ok _) = true
parses (err e) = false

-- The look-up found an endpoint that is available.
abbrev pub is_usable : Got ModelEndpoint → Bool
is_usable (found ep) = ep.status.available
is_usable not_found = false
is_usable (failed e) = false

-- The condition of type `kind` is there with the status for `holds`.
abbrev pub Marks : Text → Bool → PromptTemplate → Type 0
Marks kind holds pt =
    (c : Condition) × (find_condition kind pt.status.conditions ≡ some c)
    × (c.status ≡ condition_status holds)

pub merged-status : (o : Option Condition) (new : Condition) → (merged o new).status ≡ new.status
unfolding merged refreshed
merged-status none new = refl
merged-status (some c) new = ground arith

ready≢template_valid : (condition_ready == condition_template_valid) ≡ false
unfolding condition_ready condition_template_valid text_eq
ready≢template_valid = refl

pub with_verdicts-Marks :
    (syntax target : Verdict) (valid_at ready_at : ℕ) (pt : PromptTemplate)
    → Marks condition_template_valid syntax.holds (with_verdicts syntax target valid_at ready_at pt)
      × Marks condition_ready
          (syntax.holds && target.holds)
          (with_verdicts syntax target valid_at ready_at pt)
unfolding with_verdicts condition_of
with_verdicts-Marks syntax target valid_at ready_at pt =
    let valid = condition_of condition_template_valid syntax.holds syntax valid_at in
    let ready = condition_of condition_ready (syntax.holds && target.holds) target ready_at in
    let first = set_condition pt.status.conditions valid in
    (
      (
        merged (find_condition condition_template_valid pt.status.conditions) valid,
        find_condition-set_condition condition_template_valid first ready
            ∙ rw ready≢template_valid (
                find_condition-set_condition condition_template_valid pt.status.conditions valid
                ∙ rw (==_refl condition_template_valid) refl),
        merged-status (find_condition condition_template_valid pt.status.conditions) valid,
      ),
      (
        merged (find_condition condition_ready first) ready,
        find_condition-set_condition condition_ready first ready
            ∙ rw (==_refl condition_ready) refl,
        merged-status (find_condition condition_ready first) ready,
      ),
    )

pub template_verdict-holds :
    {Tmpl : Type 0} (o : Result Tmpl) → (template_verdict o).holds ≡ parses o
unfolding template_verdict
template_verdict-holds (ok _) = refl
template_verdict-holds (err e) = refl

endpoint_verdict-holds :
    (quote : Text → Text) (g : Got ModelEndpoint) (v : Verdict)
    → endpoint_verdict quote g ≡ ok v
    → v.holds ≡ is_usable g
unfolding endpoint_verdict
endpoint_verdict-holds quote not_found v h = ground arith
endpoint_verdict-holds quote (failed e) v h = ground arith
endpoint_verdict-holds quote (found ep) v h = ground arith

module _ {S Tmpl : Type 0} (r : Reconciler S Tmpl) (valid_at ready_at : ℕ) (key : ObjectKey) where
  -- Where the template's endpoint is looked up: in the namespace of the request.
  abbrev pub target : PromptTemplate → ObjectKey
  target pt = record { namespace = key.namespace; name = pt.spec.model_endpoint_ref.name }

  -- A reconcile of a live template with the finalizer that reports no error keeps its metadata and spec
  -- and says in its status whether its text parses, and that it is ready exactly if it parses and its
  -- endpoint is there and available. It comes back after 300 seconds if the endpoint is available,
  -- whether the template parses or not, and after 10 if it is not.
  pub reconcile-Marks :
      (pt : PromptTemplate) (s : S)
      → IsKept r.templates set_finalizers set_status is_deleted
      → r.templates.get key s ≡ found pt
      → is_deleted pt ≡ false
      → r.finalizers.contains pt.meta.finalizers finalizer_name ≡ true
      → (reconcile r valid_at ready_at key s).0.error ≡ none
      → ((pt' : PromptTemplate) × (r.templates.get key (reconcile r valid_at ready_at key s).1
            ≡ found pt')
          × (pt'.meta ≡ pt.meta)
          × (pt'.spec ≡ pt.spec)
          × (pt'.status.observed_generation ≡ pt.meta.generation)
          × Marks condition_template_valid (parses (r.parse (lit "validate") pt.spec.template)) pt'
          × Marks condition_ready
              (parses (r.parse (lit "validate") pt.spec.template)
                && is_usable (r.endpoints.get (target pt) s))
              pt')
        × ((reconcile r valid_at ready_at key s).0
            ≡ after (
                if is_usable (r.endpoints.get (target pt) s)
                then requeue_steady_state
                else requeue_transient))
  unfolding reconcile validate with_verdicts
  reconcile-Marks pt s kept here live has quiet =
      let syntax = template_verdict (r.parse (lit "validate") pt.spec.template) in
      elim (Result-cases (endpoint_verdict r.quote (r.endpoints.get (target pt) s))) [
        | inl (v, p) ↦
            let pt' = with_verdicts syntax v valid_at ready_at pt in
            let patch = r.templates.patch_status pt pt' s in
            let parsed = template_verdict-holds (r.parse (lit "validate") pt.spec.template) in
            let usable = endpoint_verdict-holds r.quote (r.endpoints.get (target pt) s) v p in
            elim (Result-cases patch.0) [
              | inl (_, q) ↦
                  let left : (reconcile r valid_at ready_at key s).1 ≡ patch.1 = ground arith in
                  let outcome : (reconcile r valid_at ready_at key s).0
                      ≡ after (if v.holds then requeue_steady_state else requeue_transient) =
                    ground arith in
                  let marks = with_verdicts-Marks syntax v valid_at ready_at pt in
                  (
                    (
                      pt',
                      rw left (kept.get-patch_status key pt pt' s patch.1 here (ground arith)),
                      refl,
                      refl,
                      refl,
                      rw (← parsed) marks.0,
                      rw (← parsed, ← usable) marks.1,
                    ),
                    rw (← usable) outcome,
                  )
              | inr (e, q) ↦ absurd (ground arith)
            ]
        | inr (e, p) ↦ absurd (ground arith)
      ]
