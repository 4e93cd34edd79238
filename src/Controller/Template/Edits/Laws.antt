-- ===== src/Controller/Template/Edits/Laws.antt =====
-- Edits of a template during reconciles, and the status that they leave
-- (internal/controller/prompttemplate_controller.go).
use k8s_ai_operator.Base.{
  lit, ≤ℤ_of_lt, ℕ, Text, Option, none, some, List, ◌≡◌, inl, inr, arith, sym, ◌∙◌, subst, nat_eq,
  Result-cases, Bool-cases,
}
use k8s_ai_operator.Api.Meta.{ObjectKey, finalizer_name}
use k8s_ai_operator.Api.Template.{PromptTemplate}
use k8s_ai_operator.Controller.Template.{
  Reconciler, set_finalizers, Verdict, template_verdict, endpoint_verdict, with_verdicts,
  handle_deletion, add_finalizer, validate,
}
use k8s_ai_operator.Controller.Template.Laws.{set_status, is_deleted}
use k8s_ai_operator.Controller.Template.Edits.{
  IsServer, resume, Run, Step, made, changed, removed, elsewhere, read, resumed, restarted, Steps,
  here, next,
}
use k8s_ai_operator.Controller.Template.Edits.Honest.{
  IsHonest, IsOlder, IsOlder-refl, IsOlder-trans, IsHonest-IsOlder, IsHonest-set_finalizers,
  with_verdicts-IsHonest,
}

module _ {S Tmpl : Type 0} (r : Reconciler S Tmpl) (key : ObjectKey)
    (stored : S → Option PromptTemplate) (server : IsServer r.templates key stored) where
  -- Every template that is stored is honest.
  abbrev AreHonest : S → Type 0
  AreHonest s = (pt : PromptTemplate) → stored s ≡ some pt → IsHonest r pt

  AreHonest-same : (s t : S) → stored t ≡ stored s → AreHonest s → AreHonest t
  AreHonest-same s t same h pt e = h pt (sym same ∙ e)

  update-AreHonest :
      (s : S) (pt : PromptTemplate) (l : List Text)
      → AreHonest s
      → AreHonest (r.templates.update (set_finalizers l pt) s).1
  update-AreHonest s pt l h = elim (server.stored-update s pt l) [
    | inl same ↦ AreHonest-same s (r.templates.update (set_finalizers l pt) s).1 same h
    | inr (inl gone) ↦ λ pt' e. absurd (ground arith)
    | inr (inr (now, there, left)) ↦ λ pt' e.
        let same : set_finalizers l now ≡ pt' = ground arith in
        rw (← same) (IsHonest-set_finalizers r l now (h now there))
  ]

  module _ (valid_at ready_at : ℕ) (pt : PromptTemplate) (s : S) (h : AreHonest s)
      (old : (now : PromptTemplate) → stored s ≡ some now → IsOlder r pt now) where
    patch-AreHonest :
        (v : Verdict)
        → AreHonest
            (r.templates.patch_status pt
              (with_verdicts
                (template_verdict (r.parse (lit "validate") pt.spec.template))
                v
                valid_at
                ready_at
                pt)
              s).1
    patch-AreHonest v =
        let pt' =
          with_verdicts (template_verdict (r.parse (lit "validate") pt.spec.template)) v valid_at
            ready_at pt in
        elim (server.stored-patch_status s pt pt') [
          | inl same ↦ AreHonest-same s (r.templates.patch_status pt pt' s).1 same h
          | inr (now, there, left) ↦ λ pt2 e.
              let k = old now there in
              let wrote = left k.status in
              let same : set_status now pt' ≡ pt2 = ground arith in
              rw (← same) (with_verdicts-IsHonest r v valid_at ready_at pt now k)
        ]

    validate-AreHonest : AreHonest (validate r valid_at ready_at key pt s).1
    unfolding validate
    validate-AreHonest =
        let target : ObjectKey = record {
          namespace = key.namespace;
          name = pt.spec.model_endpoint_ref.name;
        } in
        elim (Result-cases (endpoint_verdict r.quote (r.endpoints.get target s))) [
          | inl (v, e) ↦
              let pt' =
                with_verdicts (template_verdict (r.parse (lit "validate") pt.spec.template)) v
                  valid_at ready_at pt in
              let left : (validate r valid_at ready_at key pt s).1
                  ≡ (r.templates.patch_status pt pt' s).1 =
                ground arith in
              subst AreHonest (sym left) (patch-AreHonest v)
          | inr (m, e) ↦
              let left : (validate r valid_at ready_at key pt s).1 ≡ s = ground arith in
              subst AreHonest (sym left) h
        ]

    deletion-AreHonest : AreHonest (handle_deletion r pt s).1
    unfolding handle_deletion
    deletion-AreHonest =
        let l = r.finalizers.remove pt.meta.finalizers finalizer_name in
        elim (Bool-cases (r.finalizers.contains pt.meta.finalizers finalizer_name)) [
          | inl has ↦
              let left : (handle_deletion r pt s).1
                  ≡ (r.templates.update (set_finalizers l pt) s).1 =
                ground arith in
              subst AreHonest (sym left) (update-AreHonest s pt l h)
          | inr without ↦
              let left : (handle_deletion r pt s).1 ≡ s = ground arith in
              subst AreHonest (sym left) h
        ]

    add_finalizer-AreHonest : AreHonest (add_finalizer r pt s).1
    unfolding add_finalizer
    add_finalizer-AreHonest =
        let l = r.finalizers.add pt.meta.finalizers finalizer_name in
        let left : (add_finalizer r pt s).1 ≡ (r.templates.update (set_finalizers l pt) s).1 =
          ground arith in
        subst AreHonest (sym left) (update-AreHonest s pt l h)

    resume-AreHonest : AreHonest (resume r key valid_at ready_at pt s).1
    resume-AreHonest = elim (Bool-cases (is_deleted pt)) [
      | inl dead ↦ rw dead deletion-AreHonest
      | inr live ↦ elim (Bool-cases (r.finalizers.contains pt.meta.finalizers finalizer_name)) [
        | inl has ↦ rw (live, has) validate-AreHonest
        | inr without ↦ rw (live, without) add_finalizer-AreHonest
      ]
    ]

  -- What holds whenever a step has been made.
  record IsSound (p : Run S) : Type 0 where
    honest : AreHonest p.cluster
    older :
        (pt now : PromptTemplate)
        → p.reading ≡ some pt
        → stored p.cluster ≡ some now
        → IsOlder r pt now

  Step-IsSound : {p q : Run S} → Step r key stored p q → IsSound p → IsSound q
  Step-IsSound {p} (made t pt idle absent fresh e) h = record {
    honest = λ pt' e'.
        let same : pt ≡ pt' = ground arith in
        let (below, apart) = ≤ℤ_of_lt pt.status.observed_generation pt.meta.generation fresh in
        rw (← same) (record { observed = below; valid = λ equal. absurd (apart equal) });
    older = λ pt' now reading e'. absurd (ground arith);
  }
  Step-IsSound {p} (changed t pt pt' there status up spec e) h =
      let k : IsOlder r pt pt' = record { status = status; generation = up; spec = spec } in
      record {
        honest = λ now e'.
            let same : pt' ≡ now = ground arith in
            rw (← same) (IsHonest-IsOlder r pt pt' (h.honest pt there) k);
        older = λ old now reading e'.
            let same : pt' ≡ now = ground arith in
            rw (← same) (IsOlder-trans r old pt pt' (h.older old pt reading there) k);
      }
  Step-IsSound {p} (removed t gone) h = record {
    honest = λ pt e. absurd (ground arith);
    older = λ old now reading e. absurd (ground arith);
  }
  Step-IsSound {p} (elsewhere t same) h = record {
    honest = AreHonest-same p.cluster t same h.honest;
    older = λ old now reading e. h.older old now reading (sym same ∙ e);
  }
  Step-IsSound {p} (read pt idle got) h = record {
    honest = h.honest;
    older = λ old now reading e.
        let there = server.stored-get p.cluster pt got in
        let first : pt ≡ old = ground arith in
        let second : pt ≡ now = ground arith in rw (← first, ← second) (IsOlder-refl r pt);
  }
  Step-IsSound {p} (resumed valid_at ready_at pt reading) h = record {
    honest =
        resume-AreHonest valid_at ready_at pt p.cluster h.honest
          (λ now e. h.older pt now reading e);
    older = λ old now none_read e. absurd (ground arith);
  }
  Step-IsSound {p} restarted h = record {
    honest = h.honest;
    older = λ old now none_read e. absurd (ground arith);
  }

  Steps-IsSound : {p q : Run S} → Steps r key stored p q → IsSound p → IsSound q
  Steps-IsSound here h = h
  Steps-IsSound (next steps st) h = Step-IsSound st (Steps-IsSound steps h)

  -- From the time before a template was made, however users change it while reconciles of it run: its
  -- status never claims a generation that is not there yet, and where it claims the present one, its
  -- condition TemplateValid is there and is True exactly if the present text parses.
  pub Steps-IsHonest :
      (p q : Run S) (pt : PromptTemplate)
      → stored p.cluster ≡ none
      → p.reading ≡ none
      → Steps r key stored p q
      → stored q.cluster ≡ some pt
      → IsHonest r pt
  Steps-IsHonest p q pt absent idle steps there =
      (Steps-IsSound steps (record {
        honest = λ pt' e. absurd (ground arith);
        older = λ old now reading e. absurd (ground arith);
      })).honest
        pt there
