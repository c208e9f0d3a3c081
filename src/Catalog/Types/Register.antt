-- ===== src/Catalog/Types/Register.antt =====
-- `Types::registerBlueprint` of libs/industry_resources/types/types.cpp. What the code asks of the YAML
-- node of a blueprint is a record: `none` where yaml-cpp throws.
pub mod Laws
use eve_industry_planner.Prelude.{
  ℕ, ◌≡◌, refl, Bool, true, false, Option, none, some, List, [], ◌∷◌, if◌then◌else◌, lookup, insert,
  contains, add, Result, ok, throw, ◌>>=◌, or_throw, runtime_error,
}
use eve_industry_planner.Catalog.Types.{Types}

pub record BlueprintNode : Type 0 where
  -- `["blueprintTypeID"]`
  pub blueprint_type_id : Option ℕ
  -- `["activities"]["manufacturing"]["products"][0]["typeID"]`
  pub manufacturing_product : Option ℕ
  -- the `["typeID"]` of each of `["activities"]["invention"]["products"]`, or no node
  pub invention_products : List (Option ℕ)

abbrev pub relic_ids : List ℕ
relic_ids = 971 ∷ 990 ∷ 991 ∷ 992 ∷ 993 ∷ 997 ∷ []

-- `binary_search` in a sorted array finds what is in it.
unfoldable pub is_ancient_relic : List (ℕ × ℕ) → ℕ → Bool
is_ancient_relic groups id = elim (lookup id groups) [
  | none ↦ false
  | some group ↦ contains group relic_ids
]

register_product : ℕ → Option ℕ → Types → Types
register_product bp none s = s
register_product bp (some p) s = record s {
  manufacturing_outputs = add p s.manufacturing_outputs;
  bp_to_product = insert bp p s.bp_to_product;
  product_to_bp = insert p bp s.product_to_bp;
}

register_t2 : ℕ → List (Option ℕ) → Types → Types
register_t2 bp [] s = s
register_t2 bp (none ∷ nodes) s = register_t2 bp nodes s
register_t2 bp (some p ∷ nodes) s = register_t2 bp nodes (record s {
  t1_blueprints = add bp s.t1_blueprints;
  t2_blueprints = add p s.t2_blueprints;
  t2_bp_to_t1_bp = insert p bp s.t2_bp_to_t1_bp;
  t1_bp_to_t2_bps = (bp, p) ∷ s.t1_bp_to_t2_bps;
})

register_t3 : ℕ → List (Option ℕ) → Types → Types
register_t3 bp [] s = s
register_t3 bp (none ∷ nodes) s = register_t3 bp nodes s
register_t3 bp (some p ∷ nodes) s = register_t3 bp nodes (record s {
  ancient_relics = add bp s.ancient_relics;
  t3_blueprints = add p s.t3_blueprints;
  t3_bp_to_relic = insert p bp s.t3_bp_to_relic;
  relic_to_t3_bps = (bp, p) ∷ s.relic_to_t3_bps;
})

unfoldable pub register_blueprint : List (ℕ × ℕ) → ℕ → BlueprintNode → Types → Result Types
unfolding register_product register_t2 register_t3
register_blueprint groups bp b s = do
  let made =
      register_product bp b.manufacturing_product (record s { blueprints = add bp s.blueprints })
  id ← or_throw b.blueprint_type_id runtime_error
  ok (
      if is_ancient_relic groups id
      then register_t3 bp b.invention_products made
      else register_t2 bp b.invention_products made)
