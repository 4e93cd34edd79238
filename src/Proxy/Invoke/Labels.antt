-- ===== src/Proxy/Invoke/Labels.antt =====
-- The metric calls of HandleInvoke name every label of their metrics.
use k8s_ai_operator.Base.{Text, refl, Bool, Bool-cases, inl, inr, List, [], ◌∷◌, All, text_eq}
use k8s_ai_operator.Bedrock.Cost.{CostResult, cost, unknown_model}
use k8s_ai_operator.Bedrock.Converse.{InvokeOutput}
use k8s_ai_operator.Metrics.{MetricOp, HasLabels, is_refused, made, label_names}
use k8s_ai_operator.Proxy.Http.{Outside}
use k8s_ai_operator.Proxy.Invoke.{cost_ops, success_ops, failure_ops}

abbrev pub AreLabelled : {Float : Type 0} → List (MetricOp Float) → Type 0
AreLabelled = All HasLabels

pub made-AreLabelled :
    {Float : Type 0} (is_negative : Float → Bool) (ops : List (MetricOp Float))
    → AreLabelled ops
    → AreLabelled (made is_negative ops)
unfolding made
made-AreLabelled is_negative [] all = tt
made-AreLabelled is_negative (op ∷ ops) (own, rest) =
    elim (Bool-cases (is_refused is_negative op)) [
      | inl refused ↦ rw refused tt
      | inr accepted ↦ rw accepted (own, made-AreLabelled is_negative ops rest)
    ]

pub cost_ops-AreLabelled :
    {Float : Type 0} (a b m : Text) (c : CostResult Float)
    → AreLabelled (cost_ops (a ∷ b ∷ m ∷ []) c)
unfolding cost_ops label_names
cost_ops-AreLabelled a b m (cost c) = (refl, tt)
cost_ops-AreLabelled a b m (unknown_model _) = tt

module _ {Float Bucket Remote Tmpl : Type 0} (o : Outside Float Bucket Remote Tmpl) where
  pub success_ops-AreLabelled :
      (a b m : Text) (out : InvokeOutput) (c : CostResult Float) (d : Float)
      → AreLabelled (success_ops o (a ∷ b ∷ m ∷ []) out c d)
  unfolding success_ops label_names
  success_ops-AreLabelled a b m out c d =
      (refl, (refl, (refl, (refl, cost_ops-AreLabelled a b m c))))

  pub failure_ops-AreLabelled : (a b m : Text) → AreLabelled (failure_ops o (a ∷ b ∷ m ∷ []))
  unfolding failure_ops label_names
  failure_ops-AreLabelled a b m = (refl, (refl, tt))
