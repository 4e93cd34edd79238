-- ===== src/Controller/Guardrail/Laws.antt =====
-- Which guardrails a reconcile creates, updates and deletes in Bedrock.
use k8s_ai_operator.Base.{
  ℕ, Text, Bool, true, false, not, [], err, ◌==◌, text_eq, nat_eq, if◌then◌else◌, ◌≡◌, refl, inl,
  inr, arith, Result-cases, ◌∙◌, ==_true,
}
use k8s_ai_operator.Api.Meta.{ObjectKey, finalizer_name, is_zero_time}
use k8s_ai_operator.Api.Guardrail.{GuardrailPolicy}
use k8s_ai_operator.Controller.Cluster.{found, World}
use k8s_ai_operator.Controller.Guardrail.Inputs.{
  CreateGuardrailInput, UpdateGuardrailInput, create_input, update_input,
}
use k8s_ai_operator.Controller.Guardrail.{
  Reconciler, with_failure, with_guardrail, create_guardrail, update_guardrail, sync_guardrail,
  handle_guardrail_deletion, add_finalizer, report, sync, reconcile,
}

abbrev pub set_status : GuardrailPolicy → GuardrailPolicy → GuardrailPolicy
set_status a b = record a { status = b.status }

abbrev pub is_deleted : GuardrailPolicy → Bool
is_deleted gp = not (is_zero_time gp.meta.deletion_timestamp)

-- The input for an update of the guardrail `id` that asks for what `input` asks for.
abbrev pub for_guardrail : Text → CreateGuardrailInput → UpdateGuardrailInput
for_guardrail id input = record {
  guardrail_identifier = id;
  name = input.name;
  description = input.description;
  blocked_input_messaging = input.blocked_input_messaging;
  blocked_outputs_messaging = input.blocked_outputs_messaging;
  content_policy_config = input.content_policy_config;
  topic_policy_config = input.topic_policy_config;
  word_policy_config = input.word_policy_config;
  sensitive_information_policy_config = input.sensitive_information_policy_config;
}

pub update_input-create_input :
    (gp : GuardrailPolicy)
    → update_input gp ≡ for_guardrail gp.status.guardrail_id (create_input gp)
unfolding update_input create_input
update_input-create_input gp = refl

module _ {S B : Type 0} (r : Reconciler S B) where
  sync_guardrail-state :
      (gp : GuardrailPolicy) (b : B)
      → (sync_guardrail r gp b).1 ≡ (
          if gp.status.guardrail_id == []
          then (r.bedrock.create_guardrail (create_input gp) b).1
          else (r.bedrock.update_guardrail
              (for_guardrail gp.status.guardrail_id (create_input gp))
              b).1)
  unfolding sync_guardrail create_guardrail update_guardrail
  sync_guardrail-state gp b = ground (arith, update_input-create_input gp)

module _ {S B Float : Type 0} (r : Reconciler S B) (now : ℕ) (key : ObjectKey) where
  pub reconcile-branch :
      (gp : GuardrailPolicy) (w : World S B Float)
      → r.policies.get key w.cluster ≡ found gp
      → reconcile r now key w ≡ (
          if is_deleted gp
          then handle_guardrail_deletion r gp w
          else if not (r.finalizers.contains gp.meta.finalizers finalizer_name)
          then add_finalizer r gp w
          else sync r now gp w)
  unfolding reconcile
  reconcile-branch gp w here = ground arith

  pub sync-bedrock :
      (gp : GuardrailPolicy) (w : World S B Float)
      → (sync r now gp w).1.bedrock ≡ (sync_guardrail r gp w.bedrock).1
  unfolding sync report
  sync-bedrock gp w = ground arith

  -- A reconcile of a policy leaves Bedrock as at most one call leaves it, and as it was if the policy
  -- lacks the finalizer. With the finalizer, a live policy without an id in its status creates a
  -- guardrail, one with an id updates it to the same configuration, and a policy that is being
  -- deleted deletes the guardrail of its id, if it has one; whatever the API server and Bedrock answer.
  pub reconcile-bedrock :
      (gp : GuardrailPolicy) (w : World S B Float)
      → r.policies.get key w.cluster ≡ found gp
      → (reconcile r now key w).1.bedrock ≡ (
          if not (r.finalizers.contains gp.meta.finalizers finalizer_name)
          then w.bedrock
          else if gp.status.guardrail_id == []
          then if is_deleted gp
            then w.bedrock
            else (r.bedrock.create_guardrail (create_input gp) w.bedrock).1
          else if is_deleted gp
          then (r.bedrock.delete_guardrail gp.status.guardrail_id w.bedrock).1
          else (r.bedrock.update_guardrail
              (for_guardrail gp.status.guardrail_id (create_input gp))
              w.bedrock).1)
  unfolding handle_guardrail_deletion add_finalizer
  reconcile-bedrock gp w here =
      ground
        (arith, reconcile-branch gp w here, sync-bedrock gp w, sync_guardrail-state r gp w.bedrock)

module _ {S B Float : Type 0} (r : Reconciler S B) (now later : ℕ) (key : ObjectKey) where
  sync-refused :
      (gp : GuardrailPolicy) (w : World S B Float) (e : Text)
      → ((gp' : GuardrailPolicy) → r.policies.patch_status gp gp' w.cluster ≡ (err e, w.cluster))
      → (sync r now gp w).1.cluster ≡ w.cluster
  unfolding sync report
  sync-refused gp w e refused = elim (Result-cases (sync_guardrail r gp w.bedrock).0) [
    | inl (out, p) ↦ let no_patch = refused (with_guardrail out.0 out.1 now gp) in ground arith
    | inr (f, p) ↦ let no_patch = refused (with_failure f now gp) in ground arith
  ]

  -- A guardrail that was created while the status could not be written is lost: the id is kept nowhere
  -- else, and the next reconcile creates a second one.
  pub reconcile-created_again :
      (gp : GuardrailPolicy) (w : World S B Float) (e : Text)
      → r.policies.get key w.cluster ≡ found gp
      → is_deleted gp ≡ false
      → r.finalizers.contains gp.meta.finalizers finalizer_name ≡ true
      → gp.status.guardrail_id ≡ []
      → ((gp' : GuardrailPolicy) → r.policies.patch_status gp gp' w.cluster ≡ (err e, w.cluster))
      → let first = (r.bedrock.create_guardrail (create_input gp) w.bedrock).1 in
        ((reconcile r now key w).1.bedrock ≡ first)
        × ((reconcile r later key (reconcile r now key w).1).1.bedrock
            ≡ (r.bedrock.create_guardrail (create_input gp) first).1)
  unfolding sync report
  reconcile-created_again gp w e here live has fresh refused =
      let t = (reconcile r now key w).1 in
      let lost : (reconcile r now key w).1.cluster ≡ w.cluster =
        ground (arith, reconcile-branch r now key gp w here, sync-refused gp w e refused) in
      let first : (reconcile r now key w).1.bedrock
          ≡ (r.bedrock.create_guardrail (create_input gp) w.bedrock).1 =
        reconcile-bedrock r now key gp w here ∙ rw (has, ==_true fresh, live) refl in
      (
        first,
        reconcile-bedrock r later key gp t (rw lost here)
            ∙ rw (has, ==_true fresh, live, first) refl,
      )
