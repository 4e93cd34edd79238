-- ===== src/Bedrock/Cost.antt =====
-- internal/bedrock/cost.go
mod Table
pub mod Laws
pub use Table.{ModelPricing}
unfoldable pub use Table.{pricing, rows}
use k8s_ai_operator.Base.{ℤ, Text, Bool, Option, none, some, is_some, lit, ◌++◌, text_eq}
use k8s_ai_operator.Base.Dict
use k8s_ai_operator.Base.Floats.{FloatOps}

-- `(float64, error)`: the only error is ErrUnknownModel.
pub data CostResult (Float : Type 0) : Type 0 where
  cost : Float → CostResult Float
  unknown_model : Text → CostResult Float

-- ErrUnknownModel.Error, over `%q`
unfoldable pub unknown_model_error : (Text → Text) → Text → Text
unknown_model_error quote model_id =
    lit "no pricing data for model "
    ++ (quote model_id ++ lit "; cost tracking disabled for this invocation")

module _ {Float : Type 0} (fl : FloatOps Float) where
  unfoldable pub pricing_for_model : Text → Option (ModelPricing Float)
  pricing_for_model model_id = Dict.get model_id (pricing fl)

  unfoldable pub known_model : Text → Bool
  known_model model_id = is_some (Dict.get model_id (pricing fl))

  -- The total before rounding.
  unfoldable pub total_cost : ModelPricing Float → ℤ → ℤ → Float
  total_cost p input_tokens output_tokens =
      let million = fl.decimal 1000000 0 in
      let input_cost = fl.mul (fl.div (fl.of_int input_tokens) million) p.input_per_1m in
      let output_cost = fl.mul (fl.div (fl.of_int output_tokens) million) p.output_per_1m in
      fl.add input_cost output_cost

  unfoldable pub round_cost : Float → Float
  round_cost total =
      let million = fl.decimal 1000000 0 in fl.div (fl.round (fl.mul total million)) million

  unfoldable pub calculate_cost : Text → ℤ → ℤ → CostResult Float
  unfolding total_cost round_cost
  calculate_cost model_id input_tokens output_tokens = elim (Dict.get model_id (pricing fl)) [
    | none ↦ unknown_model model_id
    | some p ↦ cost (round_cost (total_cost p input_tokens output_tokens))
  ]
