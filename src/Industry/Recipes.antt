-- ===== src/Industry/Recipes.antt =====
-- What the blueprints and the planetary schematics offer: libs/industry_resources/production.h,
-- research.h, copying.h and planetary.h. The YAML node of an activity is given as the entries that the
-- code asks it for, `none` for one that is not defined. Durations are in seconds.
use eve_industry_planner.Prelude.{ℕ, Option, List}
use eve_industry_planner.Industry.Skills.{SkillRequirement}

-- an entry of `products`
pub record ActivityProduct {ℓ} (W : Type ℓ) : Type ℓ where
  pub type_id : ℕ
  pub quantity : ℕ
  pub probability : Option W

pub record Activity {ℓ} (W : Type ℓ) : Type ℓ where
  pub products : Option (List (ActivityProduct W))
  pub materials : Option (List (ℕ × ℕ))
  pub time : Option ℕ
  pub skills : Option (List SkillRequirement)

pub record Production {ℓ} (W : Type ℓ) : Type ℓ where
  pub blueprint : ℕ
  pub product : ℕ
  pub produced_quantity : ℕ
  pub materials : List (ℕ × ℕ)
  pub skills : List SkillRequirement
  pub duration : W

pub record Research {ℓ} (W : Type ℓ) : Type ℓ where
  pub blueprint : ℕ
  pub product : ℕ
  pub produced_quantity : ℕ
  pub materials : List (ℕ × ℕ)
  pub skills : List SkillRequirement
  pub duration : ℕ
  pub base_probability : W

pub record Copying : Type 0 where
  pub blueprint : ℕ
  pub duration : ℕ

pub record Planetary : Type 0 where
  pub product : ℕ
  pub produced_quantity : ℕ
  pub materials : List (ℕ × ℕ)
  pub duration : ℕ
  pub tier : ℕ

-- libs/industry_resources/blueprint_efficiency.h
pub record BlueprintEfficiency {ℓ} (W : Type ℓ) : Type ℓ where
  pub material_efficiency : W
  pub time_efficiency : W

-- libs/industry_resources/decryptor_property.h
pub record DecryptorProperty {ℓ} (W : Type ℓ) : Type ℓ where
  pub decryptor : Option ℕ
  pub material_efficiency : W
  pub time_efficiency : W
  pub run_modifier : ℕ
  pub probability_modifier : W
