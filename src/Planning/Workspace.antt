-- ===== src/Planning/Workspace.antt =====
-- `workspace` of apps/main/src/workspace.cpp, with `Jobs::filter` of apps/main/src/jobs.cpp: the
-- blueprints become jobs, which are then filtered and valued. The files that the constructor loads are given.
pub mod Unfed
use eve_industry_planner.Prelude.{
  ℕ, ◌≡◌, Bool, Option, none, some, List, [], ◌∷◌, Result, ok, throw, ◌>>=◌, min,
}
use eve_industry_planner.Double.{Double}
use eve_industry_planner.Catalog.Names.{Names, check_name}
use eve_industry_planner.Catalog.Types.{Types, no_types}
use eve_industry_planner.Catalog.Types.Register.{BlueprintNode, register_blueprint}
use eve_industry_planner.Industry.Skills.{Skills}
use eve_industry_planner.Industry.Recipes.{Activity, Production, Copying, Planetary}
use eve_industry_planner.Industry.Products.{add_manufacturing_data, filter_products}
use eve_industry_planner.Industry.Copies.{add_copying_data, filter_copies}
use eve_industry_planner.Industry.Inventions.{Inventions, add_invention_data, filter_inventions}
use eve_industry_planner.Industry.Values.{input_values, set_job_values}
use eve_industry_planner.Planning.Feed.{Jobs}

-- an entry of blueprints.yaml
pub record Blueprint {ℓ} (W : Type ℓ) : Type ℓ where
  pub id : ℕ
  pub node : BlueprintNode
  pub manufacturing : Option (Activity W)
  pub invention : Option (Activity W)
  pub copying : Option (Activity W)

-- the members that change after the files are loaded
pub record Workspace {ℓ} (W : Type ℓ) : Type ℓ where
  pub types : Types
  pub jobs : Jobs W
  pub values : List (ℕ × W)
  pub production_lines : ℕ
  pub science_labs : ℕ

module _ {ℓ} {W : Type ℓ} ⦃d : Double W⦄ (names : Names) (groups : List (ℕ × ℕ))
    (avg_prices adj_prices : List (ℕ × W)) (skills : Skills W) where
  unfoldable pub add_activities : Blueprint W → Jobs W → Jobs W
  add_activities b j = record j {
    products = add_manufacturing_data b.manufacturing b.id avg_prices skills j.products;
    inventions = add_invention_data b.invention b.id avg_prices skills j.inventions;
    copies = add_copying_data b.copying b.id avg_prices j.copies;
  }

  unfoldable pub process_blueprint : Blueprint W → Workspace W → Result (Workspace W)
  process_blueprint b w = register_blueprint groups b.id b.node w.types >>= λ types.
      elim (check_name names b.id) [
        | none ↦ ok (record w { types = types })
        | some name ↦ ok (record w { types = types; jobs = add_activities b w.jobs })
      ]

  unfoldable pub process_blueprints : List (Blueprint W) → Workspace W → Result (Workspace W)
  process_blueprints [] w = ok w
  process_blueprints (b ∷ bs) w = process_blueprint b w >>= λ w'. process_blueprints bs w'

  -- `Jobs::filter`
  unfoldable pub filter_jobs : W → Jobs W → Jobs W
  filter_jobs bpo_price_limit j = record j {
    products = filter_products skills j.products;
    copies = filter_copies avg_prices bpo_price_limit j.copies;
    inventions = filter_inventions skills j.inventions;
  }

  -- The constructor from `processBlueprints` on. Its `return` stands before the call of `feedPlanner`, so
  -- nothing follows `setJobValues`. `bp_to_product` is the map of `Types` in the order of its iteration.
  unfoldable pub construct : W → ℕ → ℕ → List Planetary → List (Blueprint W) → Result (Workspace W)
  construct bpo_price_limit lines labs schematics blueprints = do
    w ← process_blueprints blueprints record {
      types = no_types;
      jobs = record {
        copies = [];
        products = [];
        inventions = record { t2_blueprints = []; t3_blueprints = [] };
        schematics = schematics;
      };
      values = [];
      production_lines = min lines skills.production_lines;
      science_labs = min labs skills.science_labs;
    }
    let iv = input_values w.jobs.products adj_prices
    ok (record w {
      jobs = filter_jobs bpo_price_limit w.jobs;
      values = set_job_values iv w.types.bp_to_product w.values;
    })
