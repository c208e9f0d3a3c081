-- ===== src/Planning/Planner/Solve.antt =====
-- `Planner::solve` of apps/main/src/planner.cpp: the range of every row, and what is printed of an
-- optimum. `num_rows` and `lp_solve` stand for the solver: the number of the rows that `addColsReal` makes
-- of the columns, and from the columns, the number of the rows and their ranges to an optimum. What lies
-- outside a `DVector` or the rows of the solver is undefined.
use eve_industry_planner.Prelude.{
  ℕ, zero, suc, ltb, length, Bool, Option, none, some, List, [], ◌∷◌, ◌++◌, if◌then◌else◌, ◌==◌,
  get_elem?, Result, ok, ◌>>=◌, ◌>>◌, require, or_throw, logic_error, undefined, emplace,
}
use eve_industry_planner.Text.{Text, codes}
use eve_industry_planner.Double.{Double}
use eve_industry_planner.Industry.Resource.{Resource, Store}
use eve_industry_planner.Industry.Job.{Job, Kind, plain, buy, sell}
use eve_industry_planner.Planning.Lp.{NameSet, ColSet, Column, Solution}
use eve_industry_planner.Planning.Planner.{State}

-- `changeRangeReal(row, lower, upper)`
pub record Range {ℓ} (W : Type ℓ) : Type ℓ where
  pub row : Option ℕ
  pub at_least : W
  pub at_most : W

-- an entry of the two lists that are sorted by station: a count of an item
pub record Trade : Type 0 where
  pub station : ℕ
  pub count : ℕ
  pub item : Text

abbrev pub new_trade : ℕ → ℕ → Text → Trade
new_trade station count item = record { station = station; count = count; item = item }

pub record Trades : Type 0 where
  pub shopping_list : List Trade
  pub sell_list : List Trade
  pub stations : List (ℕ × Text)

abbrev pub no_trades : Trades
no_trades = record { shopping_list = []; sell_list = []; stations = [] }

pub record Report {ℓ} (W : Type ℓ) : Type ℓ where
  pub duals : List (Text × W)
  pub primals : List (Text × W × W)
  pub trades : Trades

module _ {ℓ} {W : Type ℓ} ⦃d : Double W⦄ where
  unfoldable pub is_shown : W → Bool
  is_shown v = d.lt (d.literal 1 16) (d.abs v)

  unfoldable pub row_range : Resource W → Range W
  row_range r = record {
    row = r.row_id;
    at_least =
        if d.eq (d.neg r.lower_limit) (d.of_nat 0)
        then d.neg r.lower_limit
        else d.neg r.upper_limit;
    at_most = d.neg r.lower_limit;
  }

  -- the range of the row of the money
  unfoldable pub buy_in_range : W → Option ℕ → Range W
  buy_in_range buy_in row = record { row = row; at_least = d.neg d.infinity; at_most = buy_in }

  -- `changeRangeReal`, where the solver has as many rows
  unfoldable pub change_range : ℕ → Range W → Result (Range W)
  change_range rows r = do row ← or_throw r.row undefined; require (ltb row rows) undefined; ok r

  unfoldable pub row_ranges : ℕ → List ℕ → Store W → Result (List (Range W))
  row_ranges rows [] store = ok []
  row_ranges rows (p ∷ ps) store = do
    r ← or_throw (get_elem? store p) undefined
    x ← change_range rows (row_range r)
    rs ← row_ranges rows ps store
    ok (x ∷ rs)

  -- a `DVector` that is filled from the index `k` on
  unfoldable pub d_vector : ℕ → ℕ → (ℕ → W) → List W
  d_vector zero k f = []
  d_vector (suc n) k f = f k ∷ d_vector n (suc k) f

  unfoldable pub list_duals : List W → List ℕ → Store W → Result (List (Text × W))
  list_duals dual [] store = ok []
  list_duals dual (p ∷ ps) store = do
    r ← or_throw (get_elem? store p) undefined
    row ← or_throw r.row_id undefined
    v ← or_throw (get_elem? dual row) undefined
    rest ← list_duals dual ps store
    ok (if is_shown v then (r.full_name, v) ∷ rest else rest)

  -- `objReal` reads the objective of a column.
  unfoldable pub list_primals :
      List W → List (Column W) → List (Job W) → Result (List (Text × W × W))
  list_primals prim cols [] = ok []
  list_primals prim cols (j ∷ js) = do
    i ← or_throw j.col_id undefined
    v ← or_throw (get_elem? prim i) undefined
    rest ← list_primals prim cols js
    if is_shown v
        then (or_throw (get_elem? cols i) undefined >>= λ col.
            ok ((j.full_name, v, col.objective) ∷ rest))
        else ok rest

  -- one job in the loop that fills `shoppinglist`, `sell_list` and `stations`
  unfoldable pub add_trade : W → Kind → Store W → Trades → Result Trades
  add_trade v plain store t = ok t
  add_trade v (buy p station name) store t = do
    r ← or_throw (get_elem? store p) undefined
    let trade = new_trade station (d.llround v) r.full_name
    ok (record t {
      shopping_list = t.shopping_list ++ (trade ∷ []);
      stations = emplace station name t.stations;
    })
  add_trade v (sell p station name) store t = do
    r ← or_throw (get_elem? store p) undefined
    let trade = new_trade station (d.llround v) r.full_name
    ok (record t {
      sell_list = t.sell_list ++ (trade ∷ []);
      stations = emplace station name t.stations;
    })

  unfoldable pub list_trades : List W → List (Job W) → Store W → Trades → Result Trades
  list_trades prim [] store t = ok t
  list_trades prim (j ∷ js) store t = do
    i ← or_throw j.col_id undefined
    v ← or_throw (get_elem? prim i) undefined
    t' ← if is_shown v then add_trade v j.kind store t else ok t
    list_trades prim js store t'

  unfoldable pub report :
      List W → List W → List (Column W) → List ℕ → List (Job W) → Store W → Result (Report W)
  report prim dual cols resources jobs store = do
    money ← or_throw (get_elem? dual 0) undefined
    duals ← list_duals dual resources store
    primals ← list_primals prim cols jobs
    trades ← list_trades prim jobs store no_trades
    ok record {
      duals = if is_shown money then (codes "BuyIn", money) ∷ duals else duals;
      primals = primals;
      trades = trades;
    }

module _ {ℓ} {W N C : Type ℓ} ⦃d : Double W⦄ ⦃n : NameSet N⦄ ⦃c : ColSet W C⦄
    (num_rows : List (Column W) → ℕ)
    (lp_solve : List (Column W) → ℕ → List (Range W) → Option (Solution W)) where
  -- Nothing is reported where the solver finds no optimum.
  unfoldable pub solve : W → State W N C → Result (Option (Report W))
  solve buy_in (s, store) = do
    require (c.is_consistent s.cols) logic_error
    let cols = c.columns s.cols
    let rows = num_rows cols
    money ← change_range rows (buy_in_range buy_in s.buy_in)
    ranges ← row_ranges rows s.resources store
    elim (lp_solve cols rows (money ∷ ranges)) [
      | none ↦ ok none
      | some x ↦
          report (d_vector (length cols) 0 x.primal) (d_vector rows 0 x.dual) cols s.resources
            s.jobs store
          >>= λ r. ok (some r)
    ]

-- `equal_range` of a station, as it is printed under its name
unfoldable pub trades_at : ℕ → List Trade → List Trade
trades_at station [] = []
trades_at station (t ∷ ts) =
    let rest = trades_at station ts in if t.station == station then t ∷ rest else rest
