-- ===== src/Industry/Products.antt =====
-- libs/industry_resources/production/products.cpp: what blueprints produce, and the jobs for it.
pub mod Jobs
use eve_industry_planner.Prelude.{
  ℕ, ◌≡◌, Bool, true, false, ◌&&◌, ◌||◌, not, Option, none, some, List, [], ◌∷◌, ◌++◌,
  if◌then◌else◌, ◌==◌, any_of, lookup, remove_if, Result, ok, throw, ◌>>=◌, or_throw, out_of_range,
}
use eve_industry_planner.Text.{Text, codes, to_string}
use eve_industry_planner.Double.{Double}
use eve_industry_planner.Catalog.Names.{Names, get_name}
use eve_industry_planner.Catalog.Types.Checked.{TechLevel, t1, t2, t3, is_t1bp, get_bp_tech_level}
use eve_industry_planner.Catalog.Assets.{BlueprintWithEfficiency}
use eve_industry_planner.Industry.Skills.{
  Skills, SkillRequirement, get_skill_level, is_advanced_science_skill, is_racial_encryption_skill,
  is_manufacturing_time_modifier_science_skill, any_skill_too_low,
}
use eve_industry_planner.Industry.Recipes.{
  Activity, ActivityProduct, Production, BlueprintEfficiency,
}
use eve_industry_planner.Industry.Job.{Job, new_job}
use eve_industry_planner.Industry.Stuff.{Stuff, Tables, get_resource, get_bpo, get_bpc}

-- libs/industry_resources/tech_level.h
abbrev pub level_string : TechLevel → Text
level_string t1 = codes "T1"
level_string t2 = codes "T2"
level_string t3 = codes "T3"

module _ {ℓ} {W : Type ℓ} ⦃d : Double W⦄ where
  time_factor : Skills W → List SkillRequirement → W → W
  time_factor s [] factor = factor
  time_factor s ((skill, level) ∷ rest) factor = time_factor s rest (
      if is_advanced_science_skill s skill
        || is_racial_encryption_skill s skill
        || is_manufacturing_time_modifier_science_skill s skill
      then d.times factor
          (d.minus (d.literal 10 1) (d.times (d.of_nat (get_skill_level s skill)) (d.literal 1 2)))
      else factor)

  get_manufacturing_time_mod : List SkillRequirement → Skills W → W
  unfolding time_factor
  get_manufacturing_time_mod required s = time_factor s required (d.literal 10 1)

  abbrev pub is_unpriced : List (ℕ × W) → ℕ → Bool
  is_unpriced prices type = elim (lookup type prices) [ some p ↦ false | none ↦ true ]

  unfoldable pub is_pricable : List (ℕ × ℕ) → List (ℕ × W) → Bool
  is_pricable materials avg_prices = not (any_of (λ m. is_unpriced avg_prices m.0) materials)

  -- `Products::addManufacturingData`; the branches that only print leave the list as it is.
  unfoldable pub add_manufacturing_data :
      Option (Activity W) → ℕ → List (ℕ × W) → Skills W → List (Production W) → List (Production W)
  unfolding get_manufacturing_time_mod
  add_manufacturing_data none blueprint_id avg_prices s products = products
  add_manufacturing_data (some a) blueprint_id avg_prices s products = elim a.products [
    | none ↦ products
    | some [] ↦ products
    | some (p ∷ q ∷ rest) ↦ products
    | some (p ∷ []) ↦ elim a.materials [
      | none ↦ products
      | some materials ↦ elim a.time [
        | none ↦ products
        | some t ↦ elim a.skills [
          | none ↦ products
          | some required ↦
              if is_pricable materials avg_prices
              then products
                ++ (record {
                  blueprint = blueprint_id;
                  product = p.type_id;
                  produced_quantity = p.quantity;
                  materials = materials;
                  skills = required;
                  duration =
                      d.times
                        (d.times s.manufacturing_time_reduction
                          (get_manufacturing_time_mod required s))
                        (d.of_nat t);
                }
                    ∷ [])
              else products
        ]
      ]
    ]
  ]

  -- `Products::filter`
  unfoldable pub filter_products : Skills W → List (Production W) → List (Production W)
  filter_products s products = remove_if (λ p. any_skill_too_low s p.skills) products

  -- `Stuff::bpes`
  abbrev pub bpes : List (BlueprintEfficiency W)
  bpes =
      map_pairs (
        (98, 96) ∷ (100, 94) ∷ (96, 96) ∷ (97, 88) ∷ (95, 90) ∷ (96, 86) ∷ (97, 98) ∷ (99, 92) ∷ [])
    where
      map_pairs : List (ℕ × ℕ) → List (BlueprintEfficiency W)
      map_pairs [] = []
      map_pairs ((me, te) ∷ es) =
          record { material_efficiency = d.literal me 2; time_efficiency = d.literal te 2 }
          ∷ map_pairs es
