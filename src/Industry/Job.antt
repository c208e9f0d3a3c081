-- ===== src/Industry/Job.antt =====
-- `Job` of libs/industry_resources/job.h, and its subclasses `Buy` and `Sell` of libs/market_data: what
-- goes in and comes out of one run, in units of the resources, and what the run earns.
use eve_industry_planner.Prelude.{ℕ, Option, none, List, [], ◌∷◌, ◌++◌}
use eve_industry_planner.Text.{Text, codes, to_string}
use eve_industry_planner.Double.{Double}
use eve_industry_planner.Industry.Resource.{Resource}

-- Which class it is, with the members that `Buy` and `Sell` add.
pub data Kind : Type 0 where
  plain : Kind
  buy : (resource station_id : ℕ) (station_name : Text) → Kind
  sell : (resource station_id : ℕ) (station_name : Text) → Kind

pub record Job {ℓ} (W : Type ℓ) : Type ℓ where
  pub inputs : List (ℕ × W)
  pub outputs : List (ℕ × W)
  pub cost : W
  pub lower_limit : W
  pub upper_limit : W
  pub name : Text
  pub full_name : Text
  pub kind : Kind
  pub col_id : Option ℕ

module _ {ℓ} {W : Type ℓ} ⦃d : Double W⦄ where
  -- the constructor with no upper limit; `l` is 0 in every call
  unfoldable pub new_job : List (ℕ × W) → List (ℕ × W) → W → Text → Text → Job W
  new_job inputs outputs cost name full_name = record {
    inputs = inputs;
    outputs = outputs;
    cost = cost;
    lower_limit = d.of_nat 0;
    upper_limit = d.infinity;
    name = name;
    full_name = full_name;
    kind = plain;
    col_id = none;
  }

  -- `Buy(r, id, b, l, stationID, stationName)`; the names come from the resource.
  unfoldable pub new_buy : Resource W → ℕ → ℕ → W → W → ℕ → Text → Job W
  new_buy res r id cost limit station station_name = record {
    inputs = [];
    outputs = (r, d.of_nat 1) ∷ [];
    cost = cost;
    lower_limit = d.of_nat 0;
    upper_limit = limit;
    name = codes "Buy_" ++ (res.name ++ (codes "_" ++ to_string id));
    full_name = codes "Buy " ++ (res.full_name ++ (codes " at " ++ station_name));
    kind = buy r station station_name;
    col_id = none;
  }

  -- `Sell(r, id, s, l, stationID, stationName)`
  unfoldable pub new_sell : Resource W → ℕ → ℕ → W → W → ℕ → Text → Job W
  new_sell res r id cost limit station station_name = record {
    inputs = (r, d.of_nat 1) ∷ [];
    outputs = [];
    cost = cost;
    lower_limit = d.of_nat 0;
    upper_limit = limit;
    name = codes "Sell_" ++ (res.name ++ (codes "_" ++ to_string id));
    full_name = codes "Sell " ++ (res.full_name ++ (codes " at " ++ station_name));
    kind = sell r station station_name;
    col_id = none;
  }
