-- ===== src/Pricing/Order.antt =====
-- apps/pricing/order.h: an order, a change of an order, and the comparison that the writer makes.
-- `int8_t` members are their bit patterns, so -1 is 255.
use eve_industry_planner.Prelude.{ℕ, ◌<◌, ◌^◌, Bool, ◌&&◌, ◌==◌}
use eve_industry_planner.Double.{Double}

pub record Order {ℓ} (W : Type ℓ) : Type ℓ where
  pub buy : ℕ
  pub issued : ℕ
  pub price : W
  pub volume_entered : ℕ
  pub station_id : ℕ
  pub volume : ℕ
  pub range : ℕ
  pub min_volume : ℕ
  pub duration : ℕ
  pub type : ℕ
  pub id : ℕ

-- `Diff{{2}, price, volume}`; the member `buy` is the tag 2.
pub record Diff {ℓ} (W : Type ℓ) : Type ℓ where
  pub buy : ℕ
  pub price : W
  pub volume : ℕ

-- The members are in the ranges of their types, and `buy` is 0 or 1.
pub record IsOrder {ℓ} {W : Type ℓ} (o : Order W) : Type 0 where
  pub buy_lt : o.buy < 2
  pub issued_lt : o.issued < 2 ^ 32
  pub volume_entered_lt : o.volume_entered < 2 ^ 32
  pub station_id_lt : o.station_id < 2 ^ 64
  pub volume_lt : o.volume < 2 ^ 32
  pub range_lt : o.range < 2 ^ 8
  pub min_volume_lt : o.min_volume < 2 ^ 32
  pub duration_lt : o.duration < 2 ^ 32
  pub type_lt : o.type < 2 ^ 32
  pub id_lt : o.id < 2 ^ 64

module _ {ℓ} {W : Type ℓ} ⦃d : Double W⦄ where
  -- A value-initialised order, as `std::vector<Order>(n)` makes.
  unfoldable pub zero_order : Order W
  zero_order = record {
    buy = 0;
    issued = 0;
    price = d.literal 0 0;
    volume_entered = 0;
    station_id = 0;
    volume = 0;
    range = 0;
    min_volume = 0;
    duration = 0;
    type = 0;
    id = 0;
  }

  unfoldable pub equal_ignoring_issued : Order W → Order W → Bool
  equal_ignoring_issued a b =
      a.buy == b.buy
      && d.eq a.price b.price
      && a.volume_entered == b.volume_entered
      && a.station_id == b.station_id
      && a.volume == b.volume
      && a.range == b.range
      && a.min_volume == b.min_volume
      && a.duration == b.duration
      && a.type == b.type
      && a.id == b.id

-- What a change record does to the stored order.
unfoldable pub apply_diff {ℓ} : {W : Type ℓ} → Diff W → Order W → Order W
apply_diff d o = record o { volume = d.volume; price = d.price }
