-- ===== src/Industry/Skills.antt =====
-- libs/skills/skills.cpp: the levels of the player's skills, and what follows from them. The character
-- sheet is given as the pairs of numbers that the code reads from it.
pub mod Levels
use eve_industry_planner.Prelude.{
  ℕ, zero, suc, ◌+◌, ◌-◌, ◌^◌, ◌%◌, ◌<◌, ◌≡◌, Bool, true, false, ◌||◌, not, Option, none, some,
  List, [], ◌∷◌, if◌then◌else◌, ◌==◌, ltb, any_of, lookup, emplace, get_elem?, remove_if, Result,
  ok, throw, ◌>>=◌, or_throw, undefined,
}
use eve_industry_planner.Text.{Text, codes}
use eve_industry_planner.Double.{Double}
use eve_industry_planner.Catalog.Names.{Names, get_name, get_type_id}

pub record Skills {ℓ} (W : Type ℓ) : Type ℓ where
  pub override_skills : Bool
  pub production_lines : ℕ
  pub science_labs : ℕ
  pub manufacturing_time_reduction : W
  pub copy_time_reduction : W
  pub research_time_reduction : W
  pub cpu : W
  pub power : W
  pub racial_encryption_skills : List ℕ
  pub advanced_science_skills : List ℕ
  pub manufacturing_time_modifier_skills : List ℕ
  pub skill_levels : List (ℕ × ℕ)

-- a skill and the level of it that is required
abbrev pub SkillRequirement : Type 0
SkillRequirement = ℕ × ℕ

unfoldable pub contains_skill : ℕ → List ℕ → Bool
contains_skill skill skills = any_of (λ s. s == skill) skills

-- `skillLevels.insert` keeps the first entry of a skill.
insert_levels : Names → List (ℕ × ℕ) → List (ℕ × ℕ) → Result (List (ℕ × ℕ))
insert_levels names [] levels = ok levels
insert_levels names ((id, level) ∷ rest) levels =
    get_name names id >>= λ name. insert_levels names rest (emplace id level levels)

get_type_ids : Names → List Text → Result (List ℕ)
get_type_ids names [] = ok []
get_type_ids names (x ∷ xs) =
    get_type_id names x >>= λ i. get_type_ids names xs >>= λ is. ok (i ∷ is)

abbrev racial_encryption_names : List Text
racial_encryption_names =
    codes "Amarr Encryption Methods"
    ∷ codes "Caldari Encryption Methods"
    ∷ codes "Gallente Encryption Methods"
    ∷ codes "Minmatar Encryption Methods"
    ∷ codes "Sleeper Encryption Methods"
    ∷ []

abbrev advanced_science_names : List Text
advanced_science_names =
    codes "Amarr Starship Engineering"
    ∷ codes "Caldari Starship Engineering"
    ∷ codes "Gallente Starship Engineering"
    ∷ codes "Minmatar Starship Engineering"
    ∷ codes "Electromagnetic Physics"
    ∷ codes "Electronic Engineering"
    ∷ codes "Graviton Physics"
    ∷ codes "High Energy Physics"
    ∷ codes "Hydromagnetic Physics"
    ∷ codes "Laser Physics"
    ∷ codes "Mechanical Engineering"
    ∷ codes "Molecular Engineering"
    ∷ codes "Nanite Engineering"
    ∷ codes "Nuclear Physics"
    ∷ codes "Plasma Physics"
    ∷ codes "Quantum Physics"
    ∷ codes "Rocket Science"
    ∷ codes "Offensive Subsystem Technology"
    ∷ codes "Defensive Subsystem Technology"
    ∷ codes "Core Subsystem Technology"
    ∷ codes "Propulsion Subsystem Technology"
    ∷ []

abbrev manufacturing_time_modifier_names : List Text
manufacturing_time_modifier_names =
    codes "Advanced Small Ship Construction"
    ∷ codes "Advanced Medium Ship Construction"
    ∷ codes "Advanced Large Ship Construction"
    ∷ codes "Advanced Industrial Ship Construction"
    ∷ []

module _ {ℓ} {W : Type ℓ} where
  unfoldable pub get_skill_level : Skills W → ℕ → ℕ
  get_skill_level s skill =
      if s.override_skills
      then 5
      else elim (lookup skill s.skill_levels) [ some level ↦ level | none ↦ 0 ]

  unfoldable pub is_racial_encryption_skill : Skills W → ℕ → Bool
  is_racial_encryption_skill s skill = contains_skill skill s.racial_encryption_skills

  unfoldable pub is_advanced_science_skill : Skills W → ℕ → Bool
  is_advanced_science_skill s skill = contains_skill skill s.advanced_science_skills

  unfoldable pub is_manufacturing_time_modifier_science_skill : Skills W → ℕ → Bool
  is_manufacturing_time_modifier_science_skill s skill =
      contains_skill skill s.manufacturing_time_modifier_skills

  -- `skill_too_low` and `any_skill_too_low` of `filterBySkill`
  unfoldable pub skill_too_low : Skills W → SkillRequirement → Bool
  skill_too_low s (skill, level) = ltb (get_skill_level s skill) level

  unfoldable pub any_skill_too_low : Skills W → List SkillRequirement → Bool
  any_skill_too_low s required = any_of (skill_too_low s) required

module _ {ℓ} {W : Type ℓ} ⦃d : Double W⦄ where
  -- `1.0 - double(level) * step`, for a step of that many hundredths
  reduction : ℕ → ℕ → W
  reduction level step = d.minus (d.literal 10 1) (d.times (d.of_nat level) (d.literal step 2))

  abbrev power_levels : List W
  power_levels =
      d.literal 60000 1
      ∷ d.literal 90000 1
      ∷ d.literal 120000 1
      ∷ d.literal 150000 1
      ∷ d.literal 170000 1
      ∷ d.literal 190000 1
      ∷ []

  abbrev cpu_levels : List W
  cpu_levels =
      d.literal 16750 1
      ∷ d.literal 70570 1
      ∷ d.literal 121360 1
      ∷ d.literal 172150 1
      ∷ d.literal 213150 1
      ∷ d.literal 254150 1
      ∷ []

  load_skill_levels : Names → List (ℕ × ℕ) → Skills W → Result (Skills W)
  unfolding insert_levels get_type_ids reduction
  load_skill_levels names sheet s0 = do
    levels ← insert_levels names sheet s0.skill_levels
    let s : Skills W = record s0 { skill_levels = levels }
    let level_of : Text → Result ℕ =
        λ name. get_type_id names name >>= λ i. ok (get_skill_level s i)
    industry ← level_of (codes "Industry")
    science ← level_of (codes "Science")
    advanced_industry ← level_of (codes "Advanced Industry")
    command_center_upgrades ← level_of (codes "Command Center Upgrades")
    interplanetary_consolidation ← level_of (codes "Interplanetary Consolidation")
    mass_production ← level_of (codes "Mass Production")
    advanced_mass_production ← level_of (codes "Advanced Mass Production")
    laboratory_operation ← level_of (codes "Laboratory Operation")
    advanced_laboratory_operation ← level_of (codes "Advanced Laboratory Operation")
    cpu_level ← or_throw (get_elem? cpu_levels command_center_upgrades) undefined
    power_level ← or_throw (get_elem? power_levels command_center_upgrades) undefined
    racial ← get_type_ids names racial_encryption_names
    advanced ← get_type_ids names advanced_science_names
    modifiers ← get_type_ids names manufacturing_time_modifier_names
    let centers = d.of_nat ((1 + interplanetary_consolidation) % 2 ^ 64)
    ok (record s {
      production_lines = (1 + mass_production + advanced_mass_production) % 2 ^ 64;
      science_labs = (1 + laboratory_operation + advanced_laboratory_operation) % 2 ^ 64;
      manufacturing_time_reduction = d.times (reduction industry 4) (reduction advanced_industry 3);
      copy_time_reduction = d.times (reduction science 5) (reduction advanced_industry 3);
      research_time_reduction = reduction advanced_industry 3;
      cpu = d.times centers (
          d.minus cpu_level
            (d.times (d.literal 20 1) (d.plus (d.literal 36000 1) (d.literal 220 1))));
      power = d.times centers (
          d.minus power_level (d.times (d.literal 20 1) (d.plus (d.of_nat 700) (d.literal 150 1))));
      racial_encryption_skills = racial;
      advanced_science_skills = advanced;
      manufacturing_time_modifier_skills = modifiers;
    })
