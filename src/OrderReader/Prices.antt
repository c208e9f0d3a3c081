-- ===== src/OrderReader/Prices.antt =====
-- `getMaxPriceInStation`, `getMinPriceInStation` and `OrderHandler` of apps/order_reader.cpp: the best price
-- of a type in the main station, and the two transactions of a type, which get it and write it. What
-- JsonCpp makes of a response, and of a member that is asked for as a number, are arguments; its
-- exceptions are `runtime_error` here. The queue is that of the writer's thread.
pub mod Compared
pub mod Best
pub mod Released
pub mod Save
mod Tests
use eve_industry_planner.Prelude.{
  ℕ, ◌+◌, Bool, true, false, ◌&&◌, Option, none, some, List, [], ◌∷◌, ◌++◌, ◌==◌, if◌then◌else◌,
  not, lookup, insert, Result, ok, throw, ◌>>=◌,
}
use eve_industry_planner.Double.{Double}
use eve_industry_planner.Requests.Http.{Response, Call, handle_response, on_http_error}

-- `BuyTransaction` reads the buy orders, to which one sells, `SellTransaction` the sell orders.
pub data Side : Type 0 where
  buy_orders sell_orders : Side

-- `std::numeric_limits<double>` and `std::isnan`
pub record Limits {ℓ} (W : Type ℓ) : Type ℓ where
  pub quiet_nan : W
  pub is_nan : W → Bool
  pub lowest : W
  pub greatest : W

-- `v["location"]["id"]`, `v["minVolume"]` and `v["price"]` of an element of `items`
pub record Offer {ℓ} (W : Type ℓ) : Type ℓ where
  pub location : Result ℕ
  pub min_volume : Result ℕ
  pub price : Result W

-- a row of `robust_price`, whose key is the type; null is `none`
pub record RobustPrice {ℓ} (W : Type ℓ) : Type ℓ where
  pub buy : Option W
  pub sell : Option W
  pub date : ℕ

-- A transaction that was passed to `withConnection`, with its price.
pub record Query {ℓ} (W : Type ℓ) : Type ℓ where
  pub side : Side
  pub type : ℕ
  pub price : W

pub record OrderHandler {ℓ} (W : Type ℓ) : Type ℓ where
  pub count : ℕ
  pub queue : List (Query W)
  pub robust_price : List (ℕ × RobustPrice W)

module _ {ℓ} {W : Type ℓ} ⦃d : Double W⦄ where
  abbrev pub worst : Side → W
  worst buy_orders = d.neg d.infinity
  worst sell_orders = d.infinity

  -- `std::max` and `std::min`
  unfoldable pub best : Side → W → W → W
  best buy_orders a b = if d.lt a b then b else a
  best sell_orders a b = if d.lt b a then b else a

  -- `p1 && p2`, both of which are computed, and the test of the minimum
  unfoldable pub is_counted : Side → ℕ → Offer W → Result Bool
  is_counted buy_orders station v = do
    location ← v.location
    min_volume ← v.min_volume
    ok (location == station && min_volume == 1)
  is_counted sell_orders station v = do location ← v.location; ok (location == station)

  -- `accumulate`, from the price a
  unfoldable pub price_from : Side → ℕ → W → List (Offer W) → Result W
  price_from side station a [] = ok a
  price_from side station a (v ∷ vs) = is_counted side station v >>= λ counted.
      (if counted then (v.price >>= λ b. ok (best side a b)) else ok a) >>= λ a'.
      price_from side station a' vs

  unfoldable pub price_in_station : Side → ℕ → List (Offer W) → Result W
  price_in_station side station vs = price_from side station (worst side) vs

  module _ (limits : Limits W) where
    unfoldable pub finalize : OrderHandler W → OrderHandler W
    finalize s = record s { count = s.count + 1 }

    -- `handleResponse`: `maxBuy` or `minSell` is NaN before, and stays so at an exception.
    unfoldable pub price_response :
        (Response → Result (List (Offer W))) → Side → ℕ → Response → OrderHandler W → OrderHandler W
    price_response parse side type response s =
        elim (parse response >>= price_in_station side 60003760) [
          | throw e ↦
              (let s' = finalize s in
                if not (limits.is_nan limits.quiet_nan)
                then record s' {
                  queue =
                      s'.queue
                      ++ (record { side = side; type = type; price = limits.quiet_nan } ∷ []);
                }
                else s')
          | ok price ↦
              if not (limits.is_nan price)
              then record s {
                queue = s.queue ++ (record { side = side; type = type; price = price } ∷ []);
              }
              else s
        ]

    -- `handleResponse` or `onHttpError`, which finalizes
    unfoldable pub answer :
        (Response → Result (List (Offer W))) → Side → ℕ → Call → OrderHandler W → OrderHandler W
    answer parse side type (handle_response response) s = price_response parse side type response s
    answer parse side type (on_http_error e) s = finalize s

    unfoldable pub answers :
        (Response → Result (List (Offer W)))
        → Side
        → ℕ
        → List Call
        → OrderHandler W
        → OrderHandler W
    answers parse side type [] s = s
    answers parse side type (c ∷ cs) s = answers parse side type cs (answer parse side type c s)

    -- what is bound to the statement: null if no order was counted
    unfoldable pub bound : Side → W → Option W
    bound buy_orders price = if d.lt price limits.lowest then none else some price
    bound sell_orders price = if d.lt limits.greatest price then none else some price

    -- The columns that the statements select keep what they have, null if there is no row.
    abbrev pub kept : (RobustPrice W → Option W) → Option (RobustPrice W) → Option W
    kept column none = none
    kept column (some row) = column row

    unfoldable pub insert_price :
        Side → ℕ → Option W → ℕ → List (ℕ × RobustPrice W) → List (ℕ × RobustPrice W)
    insert_price buy_orders type price now rows =
        insert type
          (record { buy = kept (λ row. row.buy) (lookup type rows); sell = price; date = now }) rows
    insert_price sell_orders type price now rows =
        insert type
          (record { buy = price; sell = kept (λ row. row.sell) (lookup type rows); date = now })
          rows

    -- `run`, or `onSqlError` if the statement fails, of the transaction in front of the queue
    unfoldable pub run_query : Bool → ℕ → Query W → List (Query W) → OrderHandler W → OrderHandler W
    run_query fails now q rest s =
        if fails
        then finalize (record s { queue = rest })
        else finalize (record s {
          queue = rest;
          robust_price = insert_price q.side q.type (bound q.side q.price) now s.robust_price;
        })
