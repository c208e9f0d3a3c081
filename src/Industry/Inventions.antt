-- ===== src/Industry/Inventions.antt =====
-- libs/industry_resources/research/inventions.cpp: which blueprints can be invented from others.
pub mod Jobs
pub mod Moved
use eve_industry_planner.Prelude.{
  ℕ, ◌+◌, ◌^◌, ◌%◌, Bool, true, false, Option, none, some, List, [], ◌∷◌, ◌++◌, if◌then◌else◌, ◌==◌,
  any_of, lookup, remove_if,
}
use eve_industry_planner.Double.{Double}
use eve_industry_planner.Industry.Skills.{
  Skills, SkillRequirement, get_skill_level, is_advanced_science_skill, is_racial_encryption_skill,
  any_skill_too_low,
}
use eve_industry_planner.Industry.Recipes.{Activity, ActivityProduct, Research}
use eve_industry_planner.Industry.Products.{is_unpriced}

-- `t2Blueprints_` and `t3Blueprints_`
pub record Inventions {ℓ} (W : Type ℓ) : Type ℓ where
  pub t2_blueprints : List (Research W)
  pub t3_blueprints : List (Research W)

module _ {ℓ} {W : Type ℓ} where
  -- `racialSkill` and `scienceSkills`
  unfoldable pub sort_skills : Skills W → List SkillRequirement → List ℕ × List ℕ
  sort_skills s [] = ([], [])
  sort_skills s ((skill, level) ∷ rest) =
      let (racial, science) = sort_skills s rest in
      if is_racial_encryption_skill s skill
      then (skill ∷ racial, science)
      else if is_advanced_science_skill s skill
      then (racial, skill ∷ science)
      else (racial, science)

  unfoldable pub store_research : ℕ → Research W → Inventions W → Inventions W
  store_research racial r i =
      if racial == 3408
      then record i { t3_blueprints = i.t3_blueprints ++ (r ∷ []) }
      else record i { t2_blueprints = i.t2_blueprints ++ (r ∷ []) }

module _ {ℓ} {W : Type ℓ} ⦃d : Double W⦄ where
  abbrev pub prob_mod : Skills W → ℕ → ℕ → ℕ → W
  prob_mod s racial science1 science2 =
      d.plus
        (d.plus (d.of_nat 1) (
          d.divide
            (d.plus (d.of_nat (get_skill_level s science1)) (d.of_nat (get_skill_level s science2)))
            (d.of_nat 30)))
        (d.divide (d.of_nat (get_skill_level s racial)) (d.literal 400 1))

  -- The loop over the products. `required` is `required_skills`: an invention that is stored takes it by
  -- `std::move` and leaves it empty.
  unfoldable pub add_inventions :
      Activity W
      → ℕ
      → List (ℕ × W)
      → ℕ
      → W
      → List (ActivityProduct W)
      → List SkillRequirement
      → Inventions W
      → Inventions W
  add_inventions a blueprint_id avg_prices racial factor [] required i = i
  add_inventions a blueprint_id avg_prices racial factor (p ∷ ps) required i = elim p.probability [
    | none ↦ add_inventions a blueprint_id avg_prices racial factor ps required i
    | some base ↦ elim a.materials [
      | none ↦ add_inventions a blueprint_id avg_prices racial factor ps required i
      | some materials ↦ elim a.time [
        | none ↦ add_inventions a blueprint_id avg_prices racial factor ps required i
        | some t ↦
            let r : Research W = record {
              blueprint = blueprint_id;
              product = p.type_id;
              produced_quantity = p.quantity;
              materials = materials;
              skills = required;
              duration = t;
              base_probability = d.times base factor;
            } in
            if any_of (λ m. is_unpriced avg_prices m.0) materials
            then i
            else add_inventions a blueprint_id avg_prices racial factor ps []
                (store_research racial r i)
      ]
    ]
  ]

  -- The three skills that the probability depends on have to be there.
  unfoldable pub add_with_skills :
      Activity W
      → ℕ
      → List (ℕ × W)
      → Skills W
      → List (ActivityProduct W)
      → List SkillRequirement
      → List ℕ
      → List ℕ
      → Inventions W
      → Inventions W
  add_with_skills a blueprint_id avg_prices s products required (racial ∷ [])
        (science1 ∷ science2 ∷ []) i =
      add_inventions a blueprint_id avg_prices racial (prob_mod s racial science1 science2) products
        required i
  add_with_skills a blueprint_id avg_prices s products required racial science i = i

  unfoldable pub add_invention_data :
      Option (Activity W) → ℕ → List (ℕ × W) → Skills W → Inventions W → Inventions W
  add_invention_data none blueprint_id avg_prices s i = i
  add_invention_data (some a) blueprint_id avg_prices s i = elim a.products [
    | none ↦ i
    | some products ↦ elim a.skills [
      | none ↦ i
      | some required ↦
          let (racial, science) = sort_skills s required in
          add_with_skills a blueprint_id avg_prices s products required racial science i
    ]
  ]

  -- `Inventions::filter`
  unfoldable pub filter_inventions : Skills W → Inventions W → Inventions W
  filter_inventions s i = record {
    t2_blueprints = remove_if (λ r. any_skill_too_low s r.skills) i.t2_blueprints;
    t3_blueprints = remove_if (λ r. any_skill_too_low s r.skills) i.t3_blueprints;
  }
