-- ===== src/OrderReader/Tables.antt =====
-- `OrderHandler3::SingleOrderHandler` of apps/order_reader.cpp, and the tables of create_orders.sql that it
-- writes. A statement may fail in SQLite for reasons that are not the program's; which of the three of a
-- handler does is an argument. A text that `strptime` refuses, and a value that is not of the kind asked
-- for, make the constructor throw.
pub mod Written
use eve_industry_planner.Prelude.{
  ℕ, zero, suc, ◌+◌, ◌^◌, Bool, true, false, ◌&&◌, Option, none, some, List, [], ◌∷◌, ltb, ◌==◌,
  if◌then◌else◌, lookup, insert, emplace, add, Result, ok, throw, ◌>>=◌, ◌>>◌, require,
  runtime_error,
}
use eve_industry_planner.Text.{Text}

-- a row of `orders`, whose key is the order's id
pub record OrderRow : Type 0 where
  pub type : ℕ
  pub station : ℕ
  pub volume_entered : ℕ
  pub duration : ℕ
  pub min_volume : ℕ
  pub active : ℕ

-- a row of `order_views`, whose key is the time and the order's id
pub record ViewRow {ℓ} (W : Type ℓ) : Type ℓ where
  pub view_time : ℕ
  pub id : ℕ
  pub price : W
  pub volume : ℕ
  pub start_date : ℕ

pub record Tables {ℓ} (W : Type ℓ) : Type ℓ where
  pub orders : List (ℕ × OrderRow)
  pub buy_orders : List (ℕ × Text)
  pub sell_orders : List ℕ
  pub order_views : List (ViewRow W)

-- the members of the handler that the constructor sets
pub record SingleOrderHandler {ℓ} (W : Type ℓ) : Type ℓ where
  pub id : ℕ
  pub type : ℕ
  pub station : ℕ
  pub volume_entered : ℕ
  pub start_date : ℕ
  pub duration : ℕ
  pub range : Text
  pub price : W
  pub volume : ℕ
  pub min_volume : ℕ
  pub buy : Bool

module _ {ℓ} {W : Type ℓ} where
  -- `insert or replace into orders`
  unfoldable pub ins_order : SingleOrderHandler W → Tables W → Tables W
  ins_order h t = record t {
    orders =
        insert h.id
          (record {
            type = h.type;
            station = h.station;
            volume_entered = h.volume_entered;
            duration = h.duration;
            min_volume = h.min_volume;
            active = 1;
          })
          t.orders;
  }

  -- `insert or ignore`
  unfoldable pub ins_buy_order : SingleOrderHandler W → Tables W → Tables W
  ins_buy_order h t = record t { buy_orders = emplace h.id h.range t.buy_orders }

  unfoldable pub ins_sell_order : SingleOrderHandler W → Tables W → Tables W
  ins_sell_order h t = record t { sell_orders = add h.id t.sell_orders }

  unfoldable pub drop_view : ℕ → ℕ → List (ViewRow W) → List (ViewRow W)
  drop_view time id [] = []
  drop_view time id (v ∷ vs) =
      let rest = drop_view time id vs in
      if v.view_time == time && v.id == id then rest else v ∷ rest

  -- `insert or replace into order_views`, at the time that the database has
  unfoldable pub ins_order_view : ℕ → SingleOrderHandler W → Tables W → Tables W
  ins_order_view now h t = record t {
    order_views =
        (record {
          view_time = now;
          id = h.id;
          price = h.price;
          volume = h.volume;
          start_date = h.start_date;
        })
        ∷ drop_view now h.id t.order_views;
  }

  -- `run`, and with it `onSqlError`: the member `step` when it ends, which is 3 if nothing was thrown,
  -- and the tables. What was written before an exception stays.
  unfoldable pub run : (ℕ → Bool) → ℕ → SingleOrderHandler W → Tables W → ℕ × Tables W
  run fails now h t =
      if fails 0
      then (0, t)
      else (let t1 = ins_order h t in
          if fails 1
          then (1, t1)
          else (let t2 = if h.buy then ins_buy_order h t1 else ins_sell_order h t1 in
              if fails 2 then (2, t2) else (3, ins_order_view now h t2)))
