-- ===== src/Catalog/Types/Raw.antt =====
-- The private tests of `Types` in libs/industry_resources/types/types.cpp, and `checkItem`.
use eve_industry_planner.Prelude.{
  ℕ, ◌+◌, Bool, true, false, ◌&&◌, not, Option, none, some, ◌==◌, lookup, contains, Result, require,
  runtime_error,
}
use eve_industry_planner.Catalog.Types.{Types}

unfoldable pub is_bp : Types → ℕ → Bool
is_bp s t = contains t s.blueprints

unfoldable pub is_t2bp : Types → ℕ → Bool
is_t2bp s t = contains t s.t2_blueprints

unfoldable pub is_t3bp : Types → ℕ → Bool
is_t3bp s t = contains t s.t3_blueprints

unfoldable pub is_relic : Types → ℕ → Bool
is_relic s t = contains t s.ancient_relics

unfoldable pub is_t1bp : Types → ℕ → Bool
is_t1bp s t = is_bp s t && not (is_t2bp s t) && not (is_t3bp s t) && not (is_relic s t)

-- Does the blueprint that makes the item pass the test?
abbrev pub product_of : (ℕ → Bool) → Option ℕ → Bool
product_of test none = false
product_of test (some bp) = test bp

unfoldable pub is_t1 : Types → ℕ → Bool
is_t1 s t = product_of (is_t1bp s) (lookup t s.product_to_bp)

unfoldable pub is_t2 : Types → ℕ → Bool
is_t2 s t = product_of (is_t2bp s) (lookup t s.product_to_bp)

unfoldable pub is_t3 : Types → ℕ → Bool
is_t3 s t = product_of (is_t3bp s) (lookup t s.product_to_bp)

unfoldable pub is_product : Types → ℕ → Bool
is_product s t = contains t s.manufacturing_outputs

unfoldable pub is_base_item : Types → ℕ → Bool
is_base_item s t = not (is_bp s t) && not (is_product s t)

abbrev pub to_int : Bool → ℕ
to_int true = 1
to_int false = 0

-- In how many of the eight classes `checkItem` finds the item.
unfoldable pub class_count : Types → ℕ → ℕ
class_count s t =
    to_int (is_base_item s t)
    + to_int (is_t1 s t && is_product s t)
    + to_int (is_t2 s t && is_product s t)
    + to_int (is_t3 s t && is_product s t)
    + to_int (is_t1bp s t && is_bp s t)
    + to_int (is_t2bp s t && is_bp s t)
    + to_int (is_t3bp s t && is_bp s t)
    + to_int (is_relic s t && is_bp s t)

unfoldable pub check_item : Types → ℕ → Result (Unit {0})
check_item s t = require (class_count s t == 1) runtime_error
