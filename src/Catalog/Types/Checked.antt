-- ===== src/Catalog/Types/Checked.antt =====
-- The public tests of `Types` in libs/industry_resources/types/types.cpp: each checks the item first.
use eve_industry_planner.Prelude.{ℕ, Bool, if◌then◌else◌, Result, ok, throw, ◌>>◌, runtime_error}
use eve_industry_planner.Catalog.Types.{Types}
use eve_industry_planner.Catalog.Types.Raw
use eve_industry_planner.Catalog.Types.Raw.{check_item}

-- libs/industry_resources/tech_level.h
pub data TechLevel : Type 0 where
  t1 t2 t3 : TechLevel

abbrev checked : (Types → ℕ → Bool) → Types → ℕ → Result Bool
checked test s t = check_item s t >> ok (test s t)

unfoldable pub is_bp : Types → ℕ → Result Bool
is_bp = checked Raw.is_bp

unfoldable pub is_t1bp : Types → ℕ → Result Bool
is_t1bp = checked Raw.is_t1bp

pub is_t2bp : Types → ℕ → Result Bool
is_t2bp = checked Raw.is_t2bp

pub is_t3bp : Types → ℕ → Result Bool
is_t3bp = checked Raw.is_t3bp

pub is_relic : Types → ℕ → Result Bool
is_relic = checked Raw.is_relic

pub is_t1 : Types → ℕ → Result Bool
is_t1 = checked Raw.is_t1

pub is_t2 : Types → ℕ → Result Bool
is_t2 = checked Raw.is_t2

pub is_t3 : Types → ℕ → Result Bool
is_t3 = checked Raw.is_t3

pub is_product : Types → ℕ → Result Bool
is_product = checked Raw.is_product

pub is_base_item : Types → ℕ → Result Bool
is_base_item = checked Raw.is_base_item

abbrev pub first_level : Bool → Bool → Bool → Result TechLevel
first_level a b c =
    if a then ok t1 else if b then ok t2 else if c then ok t3 else throw runtime_error

unfoldable pub get_bp_tech_level : Types → ℕ → Result TechLevel
get_bp_tech_level s t =
    check_item s t >> first_level (Raw.is_t1bp s t) (Raw.is_t2bp s t) (Raw.is_t3bp s t)

unfoldable pub get_product_tech_level : Types → ℕ → Result TechLevel
get_product_tech_level s t =
    check_item s t >> first_level (Raw.is_t1 s t) (Raw.is_t2 s t) (Raw.is_t3 s t)
