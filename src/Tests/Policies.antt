-- ===== src/Tests/Policies.antt =====
-- Reconciles of a guardrail policy and of a template. Bedrock counts calls: 1 for an update, 100 for a
-- creation, 10000 for a deletion.
use k8s_ai_operator.Base.{
  ℕ, ◌+◌, pos, Text, lit, true, ◌&&◌, ◌≡◌, refl, none, some, [], ◌∷◌, ok, err, arith, text_eq,
  if◌then◌else◌,
}
use k8s_ai_operator.Api.Meta.{condition_ready, finalizer_name}
use k8s_ai_operator.Api.Guardrail.{GuardrailPolicy}
use k8s_ai_operator.Api.Template.{PromptTemplate}
use k8s_ai_operator.Controller.Guardrail.Inputs.{create_input, update_input}
use k8s_ai_operator.Controller.Guardrail.Inputs.Laws.{
  created_spec, updated_spec, created_spec-create_input,
}
use k8s_ai_operator.Controller.Cluster.{
  found, IsKept, after, World, requeue_steady_state, requeue_transient,
}
use k8s_ai_operator.Controller.Guardrail
use k8s_ai_operator.Controller.Guardrail.{GuardrailCreator, create_guardrail}
use k8s_ai_operator.Controller.Guardrail.Laws.{reconcile-created_again}
use k8s_ai_operator.Controller.Guardrail.Laws
use k8s_ai_operator.Controller.Template
use k8s_ai_operator.Controller.Template.{condition_template_valid, validate, endpoint_verdict}
use k8s_ai_operator.Controller.Template.Laws.{Marks, reconcile-Marks}
use k8s_ai_operator.Controller.Template.Laws as TemplateLaws
use k8s_ai_operator.Tests.World.{endpoint, template}
use k8s_ai_operator.Tests.Status.{finalizers, key}

abbrev pub policy : GuardrailPolicy
policy = record {
  meta = record endpoint.meta { generation = pos 1 };
  spec = record {
    description = lit "no phone numbers";
    blocked_input_message = [];
    blocked_outputs_message = lit "blocked";
    content_policy = none;
    sensitive_information_policy =
        some (record { pii_entities = record { kind = lit "PHONE"; action = lit "BLOCK" } ∷ [] });
    topic_policy = none;
    word_policy = none;
  };
  status = record {
    guardrail_id = [];
    guardrail_version = [];
    conditions = [];
    observed_generation = pos 0;
  };
}

created_spec-create_input_example :
    (created_spec (create_input policy) ≡ policy.spec)
    × (updated_spec (update_input policy) ≡ policy.spec)
    × ((create_input policy).name ≡ policy.meta.name)
    × ((update_input policy).name ≡ policy.meta.name)
    × ((update_input policy).guardrail_identifier ≡ policy.status.guardrail_id)
created_spec-create_input_example = created_spec-create_input policy

abbrev pub counter : GuardrailCreator ℕ
counter = record {
  create_guardrail = λ input n. (ok (some (lit "g1"), some (lit "DRAFT")), n + 100);
  update_guardrail = λ input n. (ok (some (lit "DRAFT")), n + 1);
  delete_guardrail = λ id n. (ok tt, n + 10000);
}

abbrev pub policy_store : Guardrail.Reconciler GuardrailPolicy ℕ
policy_store = record {
  policies = record {
    get = λ k s. found s;
    update = λ a s. (ok tt, a);
    patch_status = λ a b s. (ok tt, Laws.set_status a b);
  };
  finalizers = finalizers;
  bedrock = counter;
}

-- An API server that takes no status.
abbrev deaf_policies : Guardrail.Reconciler GuardrailPolicy ℕ
deaf_policies = record {
  policies = record {
    get = λ k s. found s;
    update = λ a s. (ok tt, a);
    patch_status = λ a b s. (err (lit "conflict"), s);
  };
  finalizers = finalizers;
  bedrock = counter;
}

abbrev pub world : World GuardrailPolicy ℕ ℕ
world = record { cluster = policy; bedrock = 0; metrics = [] }

policy_finalizer : finalizers.contains policy.meta.finalizers finalizer_name ≡ true
unfolding finalizer_name lit text_eq
policy_finalizer = refl

reconcile-created_again_example :
    ((Guardrail.reconcile deaf_policies 500 key world).1.bedrock ≡ 100)
    × ((Guardrail.reconcile deaf_policies 900 key
          (Guardrail.reconcile deaf_policies 500 key world).1).1.bedrock
        ≡ 200)
reconcile-created_again_example =
    reconcile-created_again deaf_policies 500 900 key policy world (lit "conflict") refl refl
      policy_finalizer refl (λ gp'. refl)

-- The cluster is the template; its endpoint is the available one.
abbrev pub template_store : Template.Reconciler PromptTemplate Text
template_store = record {
  templates = record {
    get = λ k s. found s;
    update = λ a s. (ok tt, a);
    patch_status = λ a b s. (ok tt, TemplateLaws.set_status a b);
  };
  endpoints = record {
    get = λ k s. found endpoint;
    update = λ a s. (ok tt, s);
    patch_status = λ a b s. (ok tt, s);
  };
  finalizers = finalizers;
  parse = λ name t. ok t;
  quote = λ t. t;
}

pub template_store-IsKept :
    IsKept template_store.templates Template.set_finalizers TemplateLaws.set_status
      TemplateLaws.is_deleted
template_store-IsKept = record {
  get-update = λ k a l s t h live e. ground arith;
  get-patch_status = λ k a b s t h e. ground arith;
}

abbrev pub finalized : PromptTemplate
finalized = record template { meta = endpoint.meta }

pub finalized_finalizer : finalizers.contains finalized.meta.finalizers finalizer_name ≡ true
unfolding finalizer_name lit text_eq
finalized_finalizer = refl

finalized_quiet : (Template.reconcile template_store 500 501 key finalized).0.error ≡ none
unfolding Template.reconcile validate endpoint_verdict finalizer_name lit text_eq
finalized_quiet = refl

reconcile-Marks_example :
    ((pt' : PromptTemplate) × (found (Template.reconcile template_store 500 501 key finalized).1
        ≡ found pt')
      × (pt'.meta ≡ finalized.meta)
      × (pt'.spec ≡ finalized.spec)
      × (pt'.status.observed_generation ≡ finalized.meta.generation)
      × Marks condition_template_valid true pt'
      × Marks condition_ready (true && true) pt')
    × ((Template.reconcile template_store 500 501 key finalized).0
        ≡ after (if true then requeue_steady_state else requeue_transient))
reconcile-Marks_example =
    reconcile-Marks template_store 500 501 key finalized finalized template_store-IsKept refl refl
      finalized_finalizer finalized_quiet
