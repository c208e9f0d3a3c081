-- ===== src/Catalog/Types.antt =====
-- libs/industry_resources/types: which items are blueprints, and of which tech level. `Raw` has the
-- private tests, whose names end in `_` in the source, `Checked` the public ones, `Register` the
-- registration of a blueprint.
pub mod Raw
pub mod Levels
pub mod Checked
pub mod Register
use eve_industry_planner.Prelude.{ℕ, List, []}

pub record Types : Type 0 where
  pub blueprints : List ℕ
  pub manufacturing_outputs : List ℕ
  pub t1_blueprints : List ℕ
  pub t2_blueprints : List ℕ
  pub ancient_relics : List ℕ
  pub t3_blueprints : List ℕ
  pub t3_bp_to_relic : List (ℕ × ℕ)
  pub t2_bp_to_t1_bp : List (ℕ × ℕ)
  pub bp_to_product : List (ℕ × ℕ)
  pub product_to_bp : List (ℕ × ℕ)
  pub t1_bp_to_t2_bps : List (ℕ × ℕ)
  pub relic_to_t3_bps : List (ℕ × ℕ)

abbrev pub no_types : Types
no_types = record {
  blueprints = [];
  manufacturing_outputs = [];
  t1_blueprints = [];
  t2_blueprints = [];
  ancient_relics = [];
  t3_blueprints = [];
  t3_bp_to_relic = [];
  t2_bp_to_t1_bp = [];
  bp_to_product = [];
  product_to_bp = [];
  t1_bp_to_t2_bps = [];
  relic_to_t3_bps = [];
}
