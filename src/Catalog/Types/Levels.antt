-- ===== src/Catalog/Types/Levels.antt =====
-- What `checkItem` rules out, and when the tech levels of libs/industry_resources/types/types.cpp are
-- found.
use eve_industry_planner.Prelude.{
  ℕ, ◌+◌, ◌≡◌, ◌↔◌, refl, Bool, true, false, ◌&&◌, not, ok, throw, runtime_error, arith,
}
use eve_industry_planner.Catalog.Types.{Types}
use eve_industry_planner.Catalog.Types.Raw
use eve_industry_planner.Catalog.Types.Raw.{check_item, class_count, to_int}
use eve_industry_planner.Catalog.Types.Checked.{
  TechLevel, t1, t2, t3, get_bp_tech_level, get_product_tech_level, first_level,
}

check_item-count : (s : Types) (t : ℕ) → check_item s t ≡ ok tt → class_count s t ≡ 1
unfolding check_item
check_item-count s t h = ground arith

-- The four kinds of blueprints exclude one another.
kinds :
    (bp b2 b3 relic : Bool)
    → bp ≡ true
    → to_int ((bp && not b2 && not b3 && not relic) && bp)
        + to_int (b2 && bp)
        + to_int (b3 && bp)
        + to_int (relic && bp)
      ≡ 1
    → let b1 = bp && not b2 && not b3 && not relic in
      ((first_level b1 b2 b3 ≡ ok t1) ↔ (b1 ≡ true))
      × ((first_level b1 b2 b3 ≡ ok t2) ↔ (b2 ≡ true))
      × ((first_level b1 b2 b3 ≡ ok t3) ↔ (b3 ≡ true))
      × ((first_level b1 b2 b3 ≡ throw runtime_error) ↔ (relic ≡ true))
kinds bp b2 b3 relic e h = ground arith

level_count :
    (s : Types) (t : ℕ)
    → class_count s t ≡ 1
    → Raw.is_bp s t ≡ true
    → to_int (Raw.is_t1bp s t && Raw.is_bp s t)
        + to_int (Raw.is_t2bp s t && Raw.is_bp s t)
        + to_int (Raw.is_t3bp s t && Raw.is_bp s t)
        + to_int (Raw.is_relic s t && Raw.is_bp s t)
      ≡ 1
unfolding class_count Raw.is_t1bp
level_count s t h e = ground arith

-- For a blueprint that passes `checkItem`, the tech level that is found is the one kind that the
-- blueprint is of, and the search throws exactly for an ancient relic.
pub get_bp_tech_level_kinds :
    (s : Types) (t : ℕ)
    → check_item s t ≡ ok tt
    → Raw.is_bp s t ≡ true
    → ((get_bp_tech_level s t ≡ ok t1) ↔ (Raw.is_t1bp s t ≡ true))
      × ((get_bp_tech_level s t ≡ ok t2) ↔ (Raw.is_t2bp s t ≡ true))
      × ((get_bp_tech_level s t ≡ ok t3) ↔ (Raw.is_t3bp s t ≡ true))
      × ((get_bp_tech_level s t ≡ throw runtime_error) ↔ (Raw.is_relic s t ≡ true))
unfolding get_bp_tech_level Raw.is_t1bp
get_bp_tech_level_kinds s t h e = rw h (
    kinds (Raw.is_bp s t) (Raw.is_t2bp s t) (Raw.is_t3bp s t) (Raw.is_relic s t) e
      (level_count s t (check_item-count s t h) e))

some_level :
    (a b c : Bool)
    → to_int a + to_int b + to_int c ≡ 1
    → (l : TechLevel) × (first_level a b c ≡ ok l)
some_level true b c h = (t1, refl)
some_level false true c h = (t2, refl)
some_level false false true h = (t3, refl)
some_level false false false h = absurd (omega arith)

product_count :
    (s : Types) (t : ℕ)
    → class_count s t ≡ 1
    → Raw.is_product s t ≡ true
    → Raw.is_bp s t ≡ false
    → to_int (Raw.is_t1 s t) + to_int (Raw.is_t2 s t) + to_int (Raw.is_t3 s t) ≡ 1
unfolding class_count Raw.is_base_item
product_count s t h p e = ground arith

-- An item that passes `checkItem`, is manufactured and is no blueprint is of exactly one tech level,
-- and one is found.
pub get_product_tech_level_kinds :
    (s : Types) (t : ℕ)
    → check_item s t ≡ ok tt
    → Raw.is_product s t ≡ true
    → Raw.is_bp s t ≡ false
    → (to_int (Raw.is_t1 s t) + to_int (Raw.is_t2 s t) + to_int (Raw.is_t3 s t) ≡ 1)
      × (l : TechLevel) × (get_product_tech_level s t ≡ ok l)
unfolding get_product_tech_level
get_product_tech_level_kinds s t h p e =
    let one = product_count s t (check_item-count s t h) p e in
    let (l, found) = some_level (Raw.is_t1 s t) (Raw.is_t2 s t) (Raw.is_t3 s t) one in
    (one, l, rw h found)
