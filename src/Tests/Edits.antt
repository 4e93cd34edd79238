-- ===== src/Tests/Edits.antt =====
-- A user breaks a template between the read and the write of a reconcile.
use k8s_ai_operator.Base.{
  pos, Text, lit, true, none, some, Option, List, ◌⊎◌, [], ◌∷◌, ok, err, ◌≡◌, refl, arith, text_eq,
  nat_eq, ◌==◌, if◌then◌else◌, inl, inr,
}
use k8s_ai_operator.Api.Meta.{finalizer_name}
use k8s_ai_operator.Api.Template.{PromptTemplate}
use k8s_ai_operator.Controller.Cluster.{Kind, found, not_found}
use k8s_ai_operator.Controller.Template.{
  Reconciler, set_finalizers, template_verdict, endpoint_verdict, with_verdicts, validate,
}
use k8s_ai_operator.Controller.Template.Laws.{set_status}
use k8s_ai_operator.Controller.Template.Edits.{
  IsServer, resume, Run, made, changed, read, resumed, Steps, here, next,
}
use k8s_ai_operator.Controller.Template.Edits.Honest.{IsHonest}
use k8s_ai_operator.Controller.Template.Edits.Laws.{Steps-IsHonest}
use k8s_ai_operator.Tests.World.{endpoint, template}
use k8s_ai_operator.Tests.Status.{finalizers, key}

abbrev Store : Type 0
Store = Option PromptTemplate

abbrev templates : Kind Store PromptTemplate
templates = record {
  get = λ k s. elim s [ none ↦ not_found | some pt ↦ found pt ];
  update = λ pt s. elim s [
    | none ↦ (err (lit "not found"), none)
    | some now ↦
        (ok tt, some (record now { meta = record now.meta { finalizers = pt.meta.finalizers } }))
  ];
  patch_status = λ pt pt' s. elim s [
    | none ↦ (err (lit "not found"), none)
    | some now ↦ (ok tt, some (set_status now pt'))
  ];
}

update-stored :
    (s : Store) (pt : PromptTemplate) (l : List Text)
    → let t = (templates.update (set_finalizers l pt) s).1 in
      (t ≡ s)
      ⊎ ((t ≡ none) ⊎ ((now : PromptTemplate) × (s ≡ some now) × (t ≡ some (set_finalizers l now))))
update-stored none pt l = inl refl
update-stored (some now) pt l = inr (inr (now, refl, refl))

patch_status-stored :
    (s : Store) (pt pt' : PromptTemplate)
    → let t = (templates.patch_status pt pt' s).1 in
      (t ≡ s)
      ⊎ ((now : PromptTemplate) × (s ≡ some now)
          × (now.status ≡ pt.status → t ≡ some (set_status now pt')))
patch_status-stored none pt pt' = inl refl
patch_status-stored (some now) pt pt' = inr (now, refl, λ same. refl)

templates-IsServer : IsServer templates key (λ s. s)
templates-IsServer = record {
  stored-get = λ s pt e. ground arith;
  stored-update = update-stored;
  stored-patch_status = patch_status-stored;
}

abbrev checker : Reconciler Store Text
checker = record {
  templates = templates;
  endpoints = record {
    get = λ k s. found endpoint;
    update = λ a s. (ok tt, s);
    patch_status = λ a b s. (ok tt, s);
  };
  finalizers = finalizers;
  parse = λ name t. if t == lit "{{" then err (lit "unclosed action") else ok t;
  quote = λ t. t;
}

abbrev first : PromptTemplate
first = record template { meta = record template.meta { finalizers = finalizer_name ∷ [] } }

abbrev broken : PromptTemplate
broken = record first {
  meta = record first.meta { generation = pos 2 };
  spec = record first.spec { template = lit "{{" };
}

abbrev nothing : Run Store
nothing = record { cluster = none; reading = none }

abbrev ended : Run Store
ended = record { cluster = (resume checker key 500 501 first (some broken)).1; reading = none }

pos-injective : pos 2 ≡ pos 1 → ⊥
pos-injective e = ground arith

steps : Steps checker key (λ s. s) nothing ended
steps =
    next
      (next (next (next here (made (some first) first refl refl refl refl)) (read first refl refl))
        (changed (some broken) first broken refl refl (omega arith) (λ e. absurd (pos-injective e))
          refl))
      (resumed 500 501 first refl)

abbrev last : PromptTemplate
last = set_status broken (
    with_verdicts (template_verdict {Tmpl = Text} (ok first.spec.template))
      (record {
        holds = true;
        reason = lit "EndpointFound";
        message = lit "ModelEndpoint haiku is available";
      })
      500 501 first)

ended_last : ended.cluster ≡ some last
unfolding validate endpoint_verdict finalizer_name text_eq lit
ended_last = refl

Steps-IsHonest_example : IsHonest checker last
Steps-IsHonest_example =
    Steps-IsHonest checker key (λ s. s) templates-IsServer nothing ended last refl refl steps
      ended_last
