-- ===== src/Controller/Template.antt =====
-- internal/controller/prompttemplate_controller.go
pub mod Laws
pub mod Edits
use k8s_ai_operator.Base.{
  ℕ, Text, lit, Bool, true, false, not, ◌&&◌, List, ◌++◌, Result, ok, err, nat_eq, if◌then◌else◌,
}
use k8s_ai_operator.Api.Meta.{ObjectKey, Condition, condition_ready, finalizer_name, is_zero_time}
use k8s_ai_operator.Api.Endpoint.{ModelEndpoint}
use k8s_ai_operator.Api.Template.{PromptTemplate}
use k8s_ai_operator.Controller.Conditions.{set_condition, condition_status}
use k8s_ai_operator.Controller.Cluster.{
  Kind, Got, found, not_found, failed, Finalizers, Outcome, finished, requeued, after, failing,
  requeue_steady_state, requeue_transient,
}

-- `parse` is `template.New(name).Parse(text)` of text/template and `quote` the verb %q.
pub record Reconciler (S Tmpl : Type 0) : Type 0 where
  pub templates : Kind S PromptTemplate
  pub endpoints : Kind S ModelEndpoint
  pub finalizers : Finalizers
  pub parse : Text → Text → Result Tmpl
  pub quote : Text → Text

abbrev pub set_finalizers : List Text → PromptTemplate → PromptTemplate
set_finalizers l pt = record pt { meta = record pt.meta { finalizers = l } }

unfoldable pub condition_template_valid : Text
unfolding lit
condition_template_valid = lit "TemplateValid"

-- A condition's value, its reason and its message.
pub record Verdict : Type 0 where
  pub holds : Bool
  pub reason : Text
  pub message : Text

unfoldable pub template_verdict : {Tmpl : Type 0} → Result Tmpl → Verdict
template_verdict (ok _) = record {
  holds = true;
  reason = lit "ParseCheck";
  message = lit "template syntax is valid";
}
template_verdict (err e) = record {
  holds = false;
  reason = lit "ParseCheck";
  message = lit "template syntax error: " ++ e;
}

-- An error where the look-up failed for another reason than that there is no such endpoint.
unfoldable pub endpoint_verdict : (Text → Text) → Got ModelEndpoint → Result Verdict
endpoint_verdict quote not_found = ok (record {
  holds = false;
  reason = lit "EndpointNotFound";
  message = lit "ModelEndpoint not found";
})
endpoint_verdict quote (failed e) = err (lit "fetching referenced ModelEndpoint: " ++ e)
endpoint_verdict quote (found ep) =
    if ep.status.available
    then ok (record {
      holds = true;
      reason = lit "EndpointFound";
      message = lit "ModelEndpoint " ++ (quote ep.meta.name ++ lit " is available");
    })
    else ok (record {
      holds = false;
      reason = lit "EndpointUnavailable";
      message = lit "ModelEndpoint " ++ (quote ep.meta.name ++ lit " exists but is not available");
    })

unfoldable pub condition_of : Text → Bool → Verdict → ℕ → Condition
condition_of kind holds v now = record {
  kind = kind;
  status = condition_status holds;
  reason = v.reason;
  message = v.message;
  last_transition_time = now;
}

-- The status after both checks, at the times of the two calls of metav1.Now.
unfoldable pub with_verdicts : Verdict → Verdict → ℕ → ℕ → PromptTemplate → PromptTemplate
with_verdicts syntax target valid_at ready_at pt = record pt {
  status = record pt.status {
    observed_generation = pt.meta.generation;
    conditions =
        set_condition
          (set_condition pt.status.conditions
            (condition_of condition_template_valid syntax.holds syntax valid_at))
          (condition_of condition_ready (syntax.holds && target.holds) target ready_at);
  };
}

module _ {S Tmpl : Type 0} (r : Reconciler S Tmpl) where
  unfoldable pub handle_deletion : PromptTemplate → S → Outcome × S
  handle_deletion pt s =
      if r.finalizers.contains pt.meta.finalizers finalizer_name
      then (let (result, t) =
            r.templates.update
              (set_finalizers (r.finalizers.remove pt.meta.finalizers finalizer_name) pt) s in
          elim result [
            | err e ↦ (failing (lit "removing finalizer: " ++ e), t)
            | ok _ ↦ (finished, t)
          ])
      else (finished, s)

  unfoldable pub add_finalizer : PromptTemplate → S → Outcome × S
  add_finalizer pt s =
      let (result, t) =
        r.templates.update (set_finalizers (r.finalizers.add pt.meta.finalizers finalizer_name) pt)
          s in
      elim result [ err e ↦ (failing (lit "adding finalizer: " ++ e), t) | ok _ ↦ (requeued, t) ]

  -- The two checks and the status.
  unfoldable pub validate : ℕ → ℕ → ObjectKey → PromptTemplate → S → Outcome × S
  validate valid_at ready_at req pt s =
      let target : ObjectKey = record {
        namespace = req.namespace;
        name = pt.spec.model_endpoint_ref.name;
      } in
      elim (endpoint_verdict r.quote (r.endpoints.get target s)) [
        | err e ↦ (failing e, s)
        | ok v ↦
            let (patched, t) =
              r.templates.patch_status pt
                (with_verdicts (template_verdict (r.parse (lit "validate") pt.spec.template)) v
                  valid_at ready_at pt)
                s in
            elim patched [
              | err e ↦ (failing (lit "patching status: " ++ e), t)
              | ok _ ↦ (after (if v.holds then requeue_steady_state else requeue_transient), t)
            ]
      ]

  unfoldable pub reconcile : ℕ → ℕ → ObjectKey → S → Outcome × S
  reconcile valid_at ready_at req s = elim (r.templates.get req s) [
    | not_found ↦ (finished, s)
    | failed e ↦ (failing (lit "fetching PromptTemplate: " ++ e), s)
    | found pt ↦
        if not (is_zero_time pt.meta.deletion_timestamp)
        then handle_deletion pt s
        else if not (r.finalizers.contains pt.meta.finalizers finalizer_name)
        then add_finalizer pt s
        else validate valid_at ready_at req pt s
  ]
