-- ===== src/Industry/Market.antt =====
-- libs/market_data: the orders of the market, as the jobs of buying and selling. The rows of the
-- database are given as the orders that the code makes from their columns.
pub mod Listed
use eve_industry_planner.Prelude.{
  ℕ, Bool, true, false, Option, none, some, List, [], ◌∷◌, ◌++◌, if◌then◌else◌, get_elem?, insert,
  contains, Result, ok, throw, ◌>>=◌, ◌>>◌, require, or_throw, assertion, undefined,
}
use eve_industry_planner.Text.{Text}
use eve_industry_planner.Double.{Double}
use eve_industry_planner.Catalog.Names.{Names, check_name, ensure_name}
use eve_industry_planner.Catalog.Types.Checked.{is_bp}
use eve_industry_planner.Industry.Job.{Job, new_buy, new_sell}
use eve_industry_planner.Industry.Stuff.{Stuff, Tables, get_resource}

-- libs/market_data/order.h
pub record MarketOrder {ℓ} (W : Type ℓ) : Type ℓ where
  pub id : ℕ
  pub type : ℕ
  pub price : W
  pub volume : ℕ
  pub station_id : ℕ
  pub station_name : Text

-- an entry of prices.json; `none` for `null`
pub record PriceEntry {ℓ} (W : Type ℓ) : Type ℓ where
  pub id : ℕ
  pub average_price : Option W
  pub adjusted_price : Option W
  pub name : Text

pub record Prices {ℓ} (W : Type ℓ) : Type ℓ where
  pub avg_prices : List (ℕ × W)
  pub adj_prices : List (ℕ × W)

module _ {ℓ} {W : Type ℓ} where
  abbrev insert_price : ℕ → Option W → List (ℕ × W) → List (ℕ × W)
  insert_price id none prices = prices
  insert_price id (some p) prices = insert id p prices

  unfoldable pub load_prices : List (PriceEntry W) → Prices W × Names → Prices W × Names
  load_prices [] st = st
  load_prices (e ∷ es) (p, names) = load_prices es (
    record {
      avg_prices = insert_price e.id e.average_price p.avg_prices;
      adj_prices = insert_price e.id e.adjusted_price p.adj_prices;
    },
    ensure_name names e.id e.name,
  )

  -- one of the two loops of `loadOrdersFromDB`
  unfoldable pub load_orders : Names → List (MarketOrder W) → List (MarketOrder W)
  load_orders names [] = []
  load_orders names (o ∷ os) =
      let rest = load_orders names os in
      elim (check_name names o.type) [ none ↦ rest | some name ↦ o ∷ rest ]

module _ {ℓ} {W : Type ℓ} ⦃d : Double W⦄ (tables : Tables W) where
  -- the constructors read the names of the resource
  unfoldable pub market_job :
      (ℕ → MarketOrder W → Stuff W → Result (Job W))
      → MarketOrder W
      → Stuff W
      → Result (List (Job W) × Stuff W)
  market_job make o s = do
    name ← or_throw (check_name tables.names o.type) assertion
    bp ← is_bp tables.types o.type
    if bp
        then ok ([], s)
        else (do (r, s1) ← get_resource tables o.type s; j ← make r o s1; ok (j ∷ [], s1))

  unfoldable pub market_jobs_of :
      (ℕ → MarketOrder W → Stuff W → Result (Job W))
      → List (MarketOrder W)
      → Stuff W
      → Result (List (Job W) × Stuff W)
  market_jobs_of make [] s = ok ([], s)
  market_jobs_of make (o ∷ os) s = do
    (js, s1) ← market_job make o s
    (rest, s2) ← market_jobs_of make os s1
    ok (js ++ rest, s2)

  module _ (brokers_fee sales_tax : W) where
    unfoldable pub buy_from : ℕ → MarketOrder W → Stuff W → Result (Job W)
    buy_from r o s = or_throw (get_elem? s.store r) undefined >>= λ res. ok (
        new_buy res r o.id (d.times (d.neg o.price) (d.plus (d.literal 10 1) brokers_fee))
          (d.of_nat o.volume) o.station_id o.station_name)

    unfoldable pub sell_to : ℕ → MarketOrder W → Stuff W → Result (Job W)
    sell_to r o s = or_throw (get_elem? s.store r) undefined >>= λ res. ok (
        new_sell res r o.id
          (d.times o.price (d.minus (d.minus (d.literal 10 1) brokers_fee) sales_tax))
          (d.of_nat o.volume) o.station_id o.station_name)

    unfoldable pub get_market_jobs :
        List (MarketOrder W) → List (MarketOrder W) → Stuff W → Result (List (Job W) × Stuff W)
    get_market_jobs sell_orders buy_orders s = do
      (buys, s1) ← market_jobs_of buy_from sell_orders s
      (sells, s2) ← market_jobs_of sell_to buy_orders s1
      ok (buys ++ sells, s2)
