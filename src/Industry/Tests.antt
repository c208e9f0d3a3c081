-- ===== src/Industry/Tests.antt =====
-- The theorems about libs/industry_resources, libs/market_data and libs/skills, at concrete recipes and prices.
use eve_industry_planner.Prelude.{
  ℕ, ◌≤◌, ◌+◌, ◌≡◌, refl, true, false, not, some, [], ◌∷◌, lookup, All, arith, ok, none, List,
  Result, throw, ◌++◌,
}
use eve_industry_planner.Text.{codes}
use eve_industry_planner.Double.{cents_double}
use eve_industry_planner.Catalog.Types.{no_types}
use eve_industry_planner.Industry.Stuff.{Stuff, Tables, new_stuff}
use eve_industry_planner.Industry.Job.{Job}
use eve_industry_planner.Industry.Skills.{Skills}
use eve_industry_planner.Industry.Stuff.Items.{HasItems}
use eve_industry_planner.Industry.Market.{MarketOrder, get_market_jobs}
use eve_industry_planner.Industry.Market.Listed.{IsBuy, IsSell, Lists, get_market_jobs-Lists}
use eve_industry_planner.Industry.Recipes.{Planetary, Research, Activity}
use eve_industry_planner.Industry.Products.Jobs.{Terms}
use eve_industry_planner.Industry.Inventions.{Inventions, add_invention_data}
use eve_industry_planner.Industry.Inventions.Moved.{asking_in, add_invention_data-asking}
use eve_industry_planner.Industry.Schematics.{Row, load_schematics, get_material_fee_and_tier}
use eve_industry_planner.Industry.Schematics.Fees.{get_material_fee_and_tier-loaded}
use eve_industry_planner.Industry.Values.{set_job_values}
use eve_industry_planner.Industry.Values.Priced.{IsNoBlueprint, set_job_values-product}

abbrev tables : Tables ℕ
tables = record {
  names = record {
    names = (34, codes "Tritanium") ∷ (587, codes "Rifter") ∷ (691, codes "Rifter Blueprint") ∷ [];
    type_ids =
        (codes "Tritanium", 34) ∷ (codes "Rifter", 587) ∷ (codes "Rifter Blueprint", 691) ∷ [];
  };
  assets = (34, 250) ∷ [];
  owned_bpcs = [];
  types = record no_types {
    blueprints = 691 ∷ [];
    manufacturing_outputs = 587 ∷ [];
    bp_to_product = (691, 587) ∷ [];
    product_to_bp = (587, 691) ∷ [];
  };
}

abbrev start : Stuff ℕ
start = new_stuff 100 10 11

abbrev terms : Terms ℕ
terms = record {
  ignore_list = [];
  bpo_price_limit = 1000000;
  production_tax = 10;
  avg_prices = (691, 90000) ∷ (34, 5) ∷ [];
  values = (587, 1500) ∷ [];
}

abbrev pilot : Skills ℕ
pilot = record {
  override_skills = false;
  production_lines = 11;
  science_labs = 11;
  manufacturing_time_reduction = 80;
  copy_time_reduction = 75;
  research_time_reduction = 85;
  cpu = 0;
  power = 0;
  racial_encryption_skills = 21791 ∷ [];
  advanced_science_skills = 11433 ∷ 11441 ∷ [];
  manufacturing_time_modifier_skills = [];
  skill_levels = (3380, 5) ∷ [];
}

abbrev wolf : Research ℕ
wolf = record {
  blueprint = 691;
  product = 587;
  produced_quantity = 1;
  materials = (34, 2) ∷ [];
  skills = (3380, 1) ∷ [];
  duration = 60;
  base_probability = 30;
}

abbrev offer : MarketOrder ℕ
offer = record {
  id = 4681236211;
  type = 34;
  price = 5;
  volume = 300;
  station_id = 60003760;
  station_name = codes "Jita";
}

abbrev researches : Inventions ℕ
researches = record { t2_blueprints = wolf ∷ []; t3_blueprints = [] }

abbrev invention : Activity ℕ
invention = record {
  products = some (
      record { type_id = 11372; quantity = 1; probability = some 30 }
      ∷ record { type_id = 11401; quantity = 1; probability = some 30 }
      ∷ []);
  materials = some ((34, 2) ∷ []);
  time = some 60;
  skills = some ((21791, 1) ∷ (11433, 1) ∷ (11441, 1) ∷ []);
}

add_invention_data-asking_example :
    asking_in (add_invention_data (some invention) 691 terms.avg_prices pilot researches)
    ≤ asking_in researches + 1
add_invention_data-asking_example =
    add_invention_data-asking (some invention) 691 terms.avg_prices pilot researches

rifter-IsNoBlueprint : IsNoBlueprint 587 ((691, 587) ∷ [])
rifter-IsNoBlueprint = ((λ e. omega (arith, e)), tt)

set_job_values-product_example :
    lookup {V = ℕ} 587 (set_job_values ((587, 1500) ∷ []) ((691, 587) ∷ []) []) ≡ some 1500
unfolding lookup
set_job_values-product_example =
    set_job_values-product ((587, 1500) ∷ []) ((691, 587) ∷ []) 587 1500 [] refl refl
      rifter-IsNoBlueprint

abbrev water : Row
water = record {
  schematic_id = 121;
  type_id = 3645;
  quantity = 20;
  is_input = 0;
  market_group = 1334;
  cycle_time = 1800;
}

abbrev liquid : Row
liquid = record {
  schematic_id = 121;
  type_id = 2268;
  quantity = 3000;
  is_input = 1;
  market_group = 1333;
  cycle_time = 1800;
}

abbrev water_schematic : Planetary
water_schematic = record {
  product = 3645;
  produced_quantity = 20;
  materials = (2268, 3000) ∷ [];
  duration = 1800;
  tier = 0;
}

water-loaded : load_schematics (liquid ∷ water ∷ []) ≡ ok (water_schematic ∷ [])
unfolding load_schematics eve_industry_planner.Industry.Schematics.load_rows
    eve_industry_planner.Industry.Schematics.load_row
    eve_industry_planner.Industry.Schematics.load_output
    eve_industry_planner.Industry.Schematics.tier_of
    eve_industry_planner.Industry.Schematics.make_schematics eve_industry_planner.Prelude.emplace
    eve_industry_planner.Industry.Schematics.inputs_of
water-loaded = refl

get_material_fee_and_tier-loaded_example :
    All (λ s. s.tier ≤ 3) (water_schematic ∷ [])
    × ((id : ℕ)
        → (fee : ℕ) × (tier : ℕ) × (get_material_fee_and_tier (water_schematic ∷ []) id
            ≡ ok (fee, tier))
          × (tier ≤ 4))
get_material_fee_and_tier-loaded_example =
    get_material_fee_and_tier-loaded (liquid ∷ water ∷ []) (water_schematic ∷ []) water-loaded

abbrev or_start : Result (List (Job ℕ) × Stuff ℕ) → List (Job ℕ) × Stuff ℕ
or_start (ok x) = x
or_start (throw e) = ([], start)

-- an order of sale and one of purchase of the same item
abbrev traded : List (Job ℕ) × Stuff ℕ
traded = or_start (get_market_jobs tables 3 5 (offer ∷ []) (offer ∷ []) start)

traded-ok : get_market_jobs tables 3 5 (offer ∷ []) (offer ∷ []) start ≡ ok traded
unfolding get_market_jobs new_stuff eve_industry_planner.Industry.Market.market_jobs_of
    eve_industry_planner.Industry.Market.market_job eve_industry_planner.Catalog.Names.check_name
    eve_industry_planner.Catalog.Types.Checked.is_bp
    eve_industry_planner.Catalog.Types.Raw.check_item
    eve_industry_planner.Catalog.Types.Raw.class_count
    eve_industry_planner.Catalog.Types.Raw.is_base_item eve_industry_planner.Catalog.Types.Raw.is_bp
    eve_industry_planner.Prelude.contains eve_industry_planner.Catalog.Types.Raw.is_product
    eve_industry_planner.Catalog.Types.Raw.is_t1 eve_industry_planner.Catalog.Types.Raw.is_t2
    eve_industry_planner.Catalog.Types.Raw.is_t3 eve_industry_planner.Catalog.Types.Raw.is_t1bp
    eve_industry_planner.Catalog.Types.Raw.is_t2bp eve_industry_planner.Catalog.Types.Raw.is_t3bp
    eve_industry_planner.Catalog.Assets.count_asset eve_industry_planner.Catalog.Names.get_name
    eve_industry_planner.Catalog.Types.Raw.is_relic eve_industry_planner.Industry.Job.new_buy
    eve_industry_planner.Industry.Job.new_sell eve_industry_planner.Industry.Market.buy_from
    eve_industry_planner.Industry.Market.sell_to eve_industry_planner.Industry.Resource.make_shared
    eve_industry_planner.Industry.Resource.new_resource
    eve_industry_planner.Industry.Stuff.get_resource eve_industry_planner.Prelude.insert
    eve_industry_planner.Text.digits eve_industry_planner.Text.to_string lookup
traded-ok = refl

start-HasItems : HasItems tables start
unfolding new_stuff lookup
start-HasItems id p e = cc e

get_market_jobs-Lists_example :
    HasItems tables traded.1
    × ((buys sells : List (Job ℕ)) × (traded.0 ≡ buys ++ sells)
        × Lists tables (IsBuy tables 3 traded.1) (offer ∷ []) buys
        × Lists tables (IsSell tables 3 5 traded.1) (offer ∷ []) sells)
get_market_jobs-Lists_example =
    get_market_jobs-Lists tables 3 5 (offer ∷ []) (offer ∷ []) start traded.1 traded.0
      start-HasItems traded-ok
