-- ===== src/Controller/Guardrail.antt =====
-- internal/controller/guardrailpolicy_controller.go
pub mod Inputs
pub mod Laws
pub mod Life
use k8s_ai_operator.Base.{
  ℕ, Text, lit, true, false, not, Option, none, some, List, [], ◌∷◌, ◌++◌, ok, err, ◌==◌, text_eq,
  nat_eq, if◌then◌else◌,
}
use k8s_ai_operator.Base.Exec.{Exec, ◌>>=◌, pure, wrapped}
use k8s_ai_operator.Api.Meta.{
  ObjectKey, condition_true, condition_false, condition_guardrail_synced, finalizer_name,
  is_zero_time,
}
use k8s_ai_operator.Api.Guardrail.{GuardrailPolicy}
use k8s_ai_operator.Metrics.{inc, reconcile_errors_total}
use k8s_ai_operator.Controller.Conditions.{set_condition}
use k8s_ai_operator.Controller.Cluster.{
  Kind, found, not_found, failed, Finalizers, Outcome, finished, requeued, after, failing, World,
  requeue_steady_state, requeue_transient,
}
use Inputs.{CreateGuardrailInput, UpdateGuardrailInput, create_input, update_input}

-- GuardrailCreator: creation gives the id and the version, update the version, each nil or a text.
pub record GuardrailCreator (B : Type 0) : Type 0 where
  pub create_guardrail : CreateGuardrailInput → Exec B (Option Text × Option Text)
  pub update_guardrail : UpdateGuardrailInput → Exec B (Option Text)
  pub delete_guardrail : Text → Exec B (Unit {0})

pub record Reconciler (S B : Type 0) : Type 0 where
  pub policies : Kind S GuardrailPolicy
  pub finalizers : Finalizers
  pub bedrock : GuardrailCreator B

-- aws.ToString
abbrev pub to_string : Option Text → Text
to_string none = []
to_string (some t) = t

abbrev pub set_finalizers : List Text → GuardrailPolicy → GuardrailPolicy
set_finalizers l gp = record gp { meta = record gp.meta { finalizers = l } }

-- The status after a failed call of Bedrock.
unfoldable pub with_failure : Text → ℕ → GuardrailPolicy → GuardrailPolicy
with_failure e now gp = record gp {
  status = record gp.status {
    observed_generation = gp.meta.generation;
    conditions = set_condition gp.status.conditions (record {
      kind = condition_guardrail_synced;
      status = condition_false;
      reason = lit "SyncFailed";
      message = e;
      last_transition_time = now;
    });
  };
}

-- The status after a successful call.
unfoldable pub with_guardrail : Text → Text → ℕ → GuardrailPolicy → GuardrailPolicy
with_guardrail id version now gp = record gp {
  status = record {
    guardrail_id = id;
    guardrail_version = version;
    observed_generation = gp.meta.generation;
    conditions = set_condition gp.status.conditions (record {
      kind = condition_guardrail_synced;
      status = condition_true;
      reason = lit "Synced";
      message =
          lit "guardrail " ++ (id ++ (lit " version " ++ (version ++ lit " synced to Bedrock")));
      last_transition_time = now;
    });
  };
}

module _ {S B : Type 0} (r : Reconciler S B) where
  -- createGuardrail
  unfoldable pub create_guardrail : GuardrailPolicy → Exec B (Text × Text)
  create_guardrail gp = do
    out ← wrapped (λ e. lit "CreateGuardrail: " ++ e) (r.bedrock.create_guardrail (create_input gp))
    pure (to_string out.0, to_string out.1)

  -- updateGuardrail
  unfoldable pub update_guardrail : GuardrailPolicy → Exec B Text
  update_guardrail gp = do
    out ←
        wrapped (λ e. lit "UpdateGuardrail " ++ (gp.status.guardrail_id ++ (lit ": " ++ e)))
          (r.bedrock.update_guardrail (update_input gp))
    pure (to_string out)

  -- The choice between the two, by the id in the status.
  unfoldable pub sync_guardrail : GuardrailPolicy → Exec B (Text × Text)
  sync_guardrail gp =
      if gp.status.guardrail_id == []
      then create_guardrail gp
      else update_guardrail gp >>= λ version. pure (gp.status.guardrail_id, version)

  unfoldable pub handle_guardrail_deletion :
      {Float : Type 0} → GuardrailPolicy → World S B Float → Outcome × World S B Float
  handle_guardrail_deletion gp w =
      if r.finalizers.contains gp.meta.finalizers finalizer_name
      then (let b =
            if gp.status.guardrail_id == []
            then w.bedrock
            else (r.bedrock.delete_guardrail gp.status.guardrail_id w.bedrock).1 in
          let (result, s) =
            r.policies.update
              (set_finalizers (r.finalizers.remove gp.meta.finalizers finalizer_name) gp)
              w.cluster in
          elim result [
            | err e ↦
                (failing (lit "removing finalizer: " ++ e), record w { cluster = s; bedrock = b })
            | ok _ ↦ (finished, record w { cluster = s; bedrock = b })
          ])
      else (finished, w)

  unfoldable pub add_finalizer :
      {Float : Type 0} → GuardrailPolicy → World S B Float → Outcome × World S B Float
  add_finalizer gp w =
      let (result, s) =
        r.policies.update (set_finalizers (r.finalizers.add gp.meta.finalizers finalizer_name) gp)
          w.cluster in
      elim result [
        | err e ↦ (failing (lit "adding finalizer: " ++ e), record w { cluster = s })
        | ok _ ↦ (requeued, record w { cluster = s })
      ]

  -- The status patch that ends a reconcile.
  unfoldable pub report :
      {Float : Type 0}
      → (gp gp' : GuardrailPolicy) → ℕ
      → World S B Float
      → Outcome × World S B Float
  report gp gp' delay w =
      let (patched, s) = r.policies.patch_status gp gp' w.cluster in
      elim patched [
        | err e ↦ (failing (lit "patching status: " ++ e), record w { cluster = s })
        | ok _ ↦ (after delay, record w { cluster = s })
      ]

  unfoldable pub sync :
      {Float : Type 0} → ℕ → GuardrailPolicy → World S B Float → Outcome × World S B Float
  unfolding report
  sync now gp w =
      let (result, b) = sync_guardrail gp w.bedrock in
      elim result [
        | err e ↦ report gp (with_failure e now gp) requeue_transient (record w {
          bedrock = b;
          metrics =
              w.metrics
              ++ inc reconcile_errors_total (lit "guardrailpolicy" ∷ lit "bedrock_sync" ∷ []) ∷ [];
        })
        | ok out ↦
            report gp (with_guardrail out.0 out.1 now gp) requeue_steady_state
              (record w { bedrock = b })
      ]

  unfoldable pub reconcile :
      {Float : Type 0} → ℕ → ObjectKey → World S B Float → Outcome × World S B Float
  reconcile now req w = elim (r.policies.get req w.cluster) [
    | not_found ↦ (finished, w)
    | failed e ↦ (failing (lit "fetching GuardrailPolicy: " ++ e), w)
    | found gp ↦
        if not (is_zero_time gp.meta.deletion_timestamp)
        then handle_guardrail_deletion gp w
        else if not (r.finalizers.contains gp.meta.finalizers finalizer_name)
        then add_finalizer gp w
        else sync now gp w
  ]
