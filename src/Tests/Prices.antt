-- ===== src/Tests/Prices.antt =====
-- Costs of a model at concrete numbers of tokens.
use k8s_ai_operator.Base.{◌≤◌, pos, Text, lit, ◌≡◌, refl, arith, text_eq}
use k8s_ai_operator.Base.Dict
use k8s_ai_operator.Bedrock.Cost.{cost, calculate_cost, pricing, rows}
use k8s_ai_operator.Bedrock.Cost.Laws.{calculate_cost-mono}
use k8s_ai_operator.Tests.World.{fixed, fixed-IsRounded}

abbrev haiku : Text
haiku = lit "anthropic.claude-3-haiku-20240307-v1:0"

-- 1000 input tokens and 500 output tokens cost 0.000875 dollars.
haiku_cost : calculate_cost fixed haiku (pos 1000) (pos 500) ≡ cost 875000
unfolding calculate_cost pricing rows Dict.get text_eq lit
haiku_cost = refl

haiku_cost_more : calculate_cost fixed haiku (pos 2000) (pos 500) ≡ cost 1125000
unfolding calculate_cost pricing rows Dict.get text_eq lit
haiku_cost_more = refl

calculate_cost-mono_example : ◌≤◌ 875000 1125000
calculate_cost-mono_example =
    calculate_cost-mono fixed ◌≤◌ fixed-IsRounded haiku (pos 1000) (pos 2000) (pos 500) (pos 500)
      875000 1125000 (omega arith) (omega arith) haiku_cost haiku_cost_more
