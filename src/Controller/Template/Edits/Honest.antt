-- ===== src/Controller/Template/Edits/Honest.antt =====
-- What it means that a template's status is true of it, and what keeps it so.
use k8s_ai_operator.Base.{
  lit, ≤ℤ_refl, ≤ℤ_trans, ≤ℤ_antisym, ℕ, ◌≤ℤ◌, Text, List, ◌≡◌, refl, sym, ◌∙◌, ap, nat_eq,
}
use k8s_ai_operator.Api.Template.{PromptTemplate}
use k8s_ai_operator.Controller.Template.{
  Reconciler, set_finalizers, condition_template_valid, Verdict, template_verdict, with_verdicts,
}
use k8s_ai_operator.Controller.Conditions.Laws.{find_condition}
use k8s_ai_operator.Controller.Template.Laws.{
  set_status, parses, Marks, with_verdicts-Marks, template_verdict-holds,
}

module _ {S Tmpl : Type 0} (r : Reconciler S Tmpl) where
  -- The observed generation is never ahead, and at the present generation the condition TemplateValid is
  -- there, and true exactly if the text parses.
  pub record IsHonest (pt : PromptTemplate) : Type 0 where
    pub observed : pt.status.observed_generation ≤ℤ pt.meta.generation
    pub valid :
        pt.status.observed_generation ≡ pt.meta.generation
        → Marks condition_template_valid (parses (r.parse (lit "validate") pt.spec.template)) pt

  -- How what was read relates to what is stored now.
  pub record IsOlder (old now : PromptTemplate) : Type 0 where
    pub status : now.status ≡ old.status
    pub generation : old.meta.generation ≤ℤ now.meta.generation
    pub spec : now.meta.generation ≡ old.meta.generation → now.spec ≡ old.spec

  pub IsOlder-refl : (pt : PromptTemplate) → IsOlder pt pt
  IsOlder-refl pt = record {
    status = refl;
    generation = ≤ℤ_refl pt.meta.generation;
    spec = λ e. refl;
  }

  -- From an older template to a newer one, and on to one that is newer still.
  pub IsOlder-trans : (a b c : PromptTemplate) → IsOlder a b → IsOlder b c → IsOlder a c
  IsOlder-trans a b c h k = record {
    status = k.status ∙ h.status;
    generation =
        ≤ℤ_trans a.meta.generation b.meta.generation c.meta.generation h.generation k.generation;
    spec = λ e.
        let low : b.meta.generation ≤ℤ a.meta.generation = rw (← e) k.generation in
        let same = ≤ℤ_antisym b.meta.generation a.meta.generation low h.generation in
        k.spec (e ∙ sym same) ∙ h.spec same;
  }

  pub IsHonest-IsOlder : (a b : PromptTemplate) → IsHonest a → IsOlder a b → IsHonest b
  IsHonest-IsOlder a b h k =
      let observed : b.status.observed_generation ≡ a.status.observed_generation =
        ap (λ s. s.observed_generation) k.status in
      record {
        observed = rw observed (
            ≤ℤ_trans a.status.observed_generation a.meta.generation b.meta.generation h.observed
              k.generation);
        valid = λ e.
            let low : b.meta.generation ≤ℤ a.meta.generation = rw (← e, observed) h.observed in
            let same = ≤ℤ_antisym b.meta.generation a.meta.generation low k.generation in
            let text : b.spec.template ≡ a.spec.template = ap (λ s. s.template) (k.spec same) in
            let (c, there, status) = h.valid (sym observed ∙ e ∙ same) in
            (
              c,
              ap (λ s. find_condition condition_template_valid s.conditions) k.status ∙ there,
              rw text status,
            );
      }

  pub IsHonest-set_finalizers :
      (l : List Text) (pt : PromptTemplate) → IsHonest pt → IsHonest (set_finalizers l pt)
  IsHonest-set_finalizers l pt h = record { observed = h.observed; valid = h.valid }

  -- The verdicts on an older template are honest about the one that is stored now.
  pub with_verdicts-IsHonest :
      (v : Verdict) (valid_at ready_at : ℕ) (pt now : PromptTemplate)
      → IsOlder pt now
      → IsHonest (
          set_status now (
            with_verdicts
              (template_verdict (r.parse (lit "validate") pt.spec.template))
              v
              valid_at
              ready_at
              pt))
  unfolding with_verdicts
  with_verdicts-IsHonest v valid_at ready_at pt now k =
      let syntax = template_verdict (r.parse (lit "validate") pt.spec.template) in
      record {
        observed = k.generation;
        valid = λ e.
            let text : now.spec.template ≡ pt.spec.template =
              ap (λ s. s.template) (k.spec (sym e)) in
            rw (text, ← template_verdict-holds (r.parse (lit "validate") pt.spec.template))
              (with_verdicts-Marks syntax v valid_at ready_at pt).0;
      }
