-- ===== src/Planning/Feed.antt =====
-- `PlannerAndStuff` of apps/main/src/workspace.cpp: the jobs of every kind are made with the resources of
-- `Stuff`, and added to the planner before the next kind is made.
use eve_industry_planner.Prelude.{ℕ, List, Option, Result, ok, ◌>>=◌}
use eve_industry_planner.Double.{Double}
use eve_industry_planner.Industry.Job.{Job}
use eve_industry_planner.Industry.Stuff.{Stuff, Tables, new_stuff}
use eve_industry_planner.Industry.Skills.{Skills}
use eve_industry_planner.Industry.Recipes.{Production, Copying, Planetary}
use eve_industry_planner.Industry.Products.Jobs.{Terms, get_manufacturing_jobs}
use eve_industry_planner.Industry.Copies.{get_copy_jobs}
use eve_industry_planner.Industry.Inventions.{Inventions}
use eve_industry_planner.Industry.Inventions.Jobs.{get_t2_invention_jobs, get_t3_invention_jobs}
use eve_industry_planner.Industry.Market.{MarketOrder, get_market_jobs}
use eve_industry_planner.Industry.Schematics.Jobs.{get_planetary_jobs}
use eve_industry_planner.Planning.Lp.{NameSet, ColSet, Column, Solution}
use eve_industry_planner.Planning.Planner.{Planner, new_planner, add_jobs}
use eve_industry_planner.Planning.Planner.Solve.{Range, Report, solve}

-- `Jobs` of apps/main/src/jobs.h
pub record Jobs {ℓ} (W : Type ℓ) : Type ℓ where
  pub copies : List Copying
  pub products : List (Production W)
  pub inventions : Inventions W
  pub schematics : List Planetary

-- what a `workspace` holds for the planner
pub record Plan {ℓ} (W : Type ℓ) : Type ℓ where
  pub tables : Tables W
  pub planetary_assets : List (ℕ × ℕ)
  pub terms : Terms W
  pub skills : Skills W
  pub jobs : Jobs W
  pub sell_orders : List (MarketOrder W)
  pub buy_orders : List (MarketOrder W)
  pub brokers_fee : W
  pub sales_tax : W
  pub invention_tax : W
  pub copy_tax : W
  pub time_frame : W
  pub science_labs : ℕ
  pub production_lines : ℕ
  pub buy_in : W

module _ {ℓ} {W N C : Type ℓ} ⦃d : Double W⦄ ⦃n : NameSet N⦄ ⦃c : ColSet W C⦄ where
  -- one of the `add...` members, for the jobs that it makes
  unfoldable pub add_kind :
      (Stuff W → Result (List (Job W) × Stuff W))
      → Planner W N C × Stuff W
      → Result (Planner W N C × Stuff W)
  add_kind make (p, s) = do
    (js, s1) ← make s
    (p', store) ← add_jobs js (p, s1.store)
    ok (p', record s1 { store = store })

  unfoldable pub feed : Plan W → Planner W N C × Stuff W → Result (Planner W N C × Stuff W)
  feed w x0 = do
    x1 ←
        add_kind
          (get_planetary_jobs w.tables w.planetary_assets w.jobs.schematics w.skills.cpu
            w.skills.power w.time_frame)
          x0
    x2 ← add_kind (get_market_jobs w.tables w.brokers_fee w.sales_tax w.sell_orders w.buy_orders) x1
    x3 ← add_kind (get_manufacturing_jobs w.tables w.terms w.jobs.products) x2
    x4 ←
        add_kind
          (get_t2_invention_jobs w.tables w.invention_tax w.terms.values
            w.skills.research_time_reduction w.jobs.inventions.t2_blueprints)
          x3
    x5 ←
        add_kind
          (get_t3_invention_jobs w.tables w.invention_tax w.terms.values
            w.skills.research_time_reduction w.jobs.inventions.t3_blueprints)
          x4
    add_kind
        (get_copy_jobs w.tables w.terms.avg_prices w.terms.values w.skills.copy_time_reduction
          w.copy_tax w.terms.bpo_price_limit w.jobs.copies)
        x5

-- `PlannerAndStuff(ws)`, then `feedPlanner()`; the classes of the solver are named, since nothing else tells them
unfoldable pub feed_planner {ℓ} :
    {W : Type ℓ} (N C : Type ℓ) ⦃d : Double W⦄ ⦃n : NameSet N⦄ ⦃c : ColSet W C⦄
    → (List (Column W) → ℕ)
    → (List (Column W) → ℕ → List (Range W) → Option (Solution W))
    → Plan W
    → Result (Option (Report W))
feed_planner {W = W} N C num_rows lp_solve w = do
  (p, s) ← feed w (
    new_planner {W = W} {N = N} {C = C},
    new_stuff w.time_frame w.science_labs w.production_lines,
  )
  solve num_rows lp_solve w.buy_in (p, s.store)
