-- ===== src/Industry/Values.antt =====
-- What a job is worth to the installation that runs it: libs/industry_resources/input_values.cpp and
-- job_values.cpp.
pub mod Priced
use eve_industry_planner.Prelude.{ℕ, ◌≡◌, Bool, Option, none, some, List, [], ◌∷◌, lookup, insert}
use eve_industry_planner.Double.{Double}
use eve_industry_planner.Industry.Recipes.{Production}

module _ {ℓ} {W : Type ℓ} ⦃d : Double W⦄ where
  -- the loop of `inputValue`, which calls `c` with the result or not at all
  unfoldable pub add_input_values : List (ℕ × W) → List (ℕ × ℕ) → W → Option W
  add_input_values adj_prices [] iv = some iv
  add_input_values adj_prices ((m, quantity) ∷ ms) iv = elim (lookup m adj_prices) [
    | some price ↦ add_input_values adj_prices ms (d.plus iv (d.times (d.of_nat quantity) price))
    | none ↦ none
  ]

  unfoldable pub input_value : List (ℕ × W) → List (ℕ × ℕ) → Option W
  input_value adj_prices materials = add_input_values adj_prices materials (d.literal 0 1)

  unfoldable pub input_values_from :
      List (Production W) → List (ℕ × W) → List (ℕ × W) → List (ℕ × W)
  input_values_from [] adj_prices iv = iv
  input_values_from (p ∷ ps) adj_prices iv = elim (input_value adj_prices p.materials) [
    | some v ↦ input_values_from ps adj_prices (insert p.product v iv)
    | none ↦ input_values_from ps adj_prices iv
  ]

  -- `inputValues(products, adjPrices)`
  unfoldable pub input_values : List (Production W) → List (ℕ × W) → List (ℕ × W)
  input_values products adj_prices = input_values_from products adj_prices []

  -- one round of `JobValues::setJobValues`
  unfoldable pub set_job_value : List (ℕ × W) → ℕ × ℕ → List (ℕ × W) → List (ℕ × W)
  set_job_value iv (bp, product) values = elim (lookup product iv) [
    | some v ↦ insert bp (d.times (d.literal 2 2) v) (insert product v values)
    | none ↦ values
  ]

  -- `bp_to_product` in the order of the iteration, which for an `unordered_map` is not specified
  unfoldable pub set_job_values : List (ℕ × W) → List (ℕ × ℕ) → List (ℕ × W) → List (ℕ × W)
  set_job_values iv [] values = values
  set_job_values iv (e ∷ es) values = set_job_values iv es (set_job_value iv e values)
