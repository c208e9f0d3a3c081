-- ===== src/Industry/Filters.antt =====
-- What the filters of apps/main/src/jobs.cpp leave.
use eve_industry_planner.Prelude.{◌≡◌, List, All}
use eve_industry_planner.Industry.Skills.{Skills}
use eve_industry_planner.Industry.Skills.Levels.{HasSkills, filter_by_skill}
use eve_industry_planner.Industry.Recipes.{Production}
use eve_industry_planner.Industry.Products.{filter_products}
use eve_industry_planner.Industry.Inventions.{Inventions, filter_inventions}
use eve_industry_planner.Double.{Double}

module _ {ℓ} {W : Type ℓ} ⦃d : Double W⦄ where
  -- The filter of the products leaves only productions whose skills the player has at the levels
  -- required, and leaves the list as it is if the player has them for all.
  pub filter_products-HasSkills :
      (s : Skills W) (ps : List (Production W))
      → All (λ p. HasSkills s p.skills) (filter_products s ps)
        × (All (λ p. HasSkills s p.skills) ps → filter_products s ps ≡ ps)
  unfolding filter_products
  filter_products-HasSkills s ps = filter_by_skill s (λ p. p.skills) ps

  -- The filter of the inventions leaves only T2 and T3 inventions whose recorded skills the player has
  -- at the levels required.
  pub filter_inventions-HasSkills :
      (s : Skills W) (i : Inventions W)
      → All (λ r. HasSkills s r.skills) (filter_inventions s i).t2_blueprints
        × All (λ r. HasSkills s r.skills) (filter_inventions s i).t3_blueprints
  unfolding filter_inventions
  filter_inventions-HasSkills s i = (
    (filter_by_skill s (λ r. r.skills) i.t2_blueprints).0,
    (filter_by_skill s (λ r. r.skills) i.t3_blueprints).0,
  )
