-- ===== src/Pricing/Analysis.antt =====
-- `TritaniumBuyAnalysis` of apps/pricing/main.cpp: what has changed between two views of the sell orders
-- of one type in one station. Times are those up to 2038, which fit into 31 bits; what the streams
-- print of a comparison is its members.
pub mod Balance
pub mod Complete
use eve_industry_planner.Prelude.{
  ℕ, ◌+◌, ◌-◌, ◌^◌, ◌%◌, Bool, true, false, ◌&&◌, Option, none, some, List, [], ◌∷◌, ltb, leb, ◌==◌,
  not, if◌then◌else◌, Result, ok, throw, ◌>>=◌, assertion,
}
use eve_industry_planner.Double.{Double}
use eve_industry_planner.Pricing.Order.{Order}

-- `Diff::type` and the notes
pub data Kind : Type 0 where
  new_kind old_kind unchanged_kind : Kind

pub data Note : Type 0 where
  price_increase_and_volume_change : Note
  price_decrease_and_volume_change : Note
  price_increase : Note
  price_decrease : Note
  volume_change : Note
  new_order : Note
  cleared_order : Note
  unchanged_order : Note

pub record OrderDiff {ℓ} (W : Type ℓ) : Type ℓ where
  pub order : Order W
  pub kind : Kind
  pub note : Note

pub record Comparison {ℓ} (W : Type ℓ) : Type ℓ where
  pub diffs : List (OrderDiff W)
  pub price_changes : List (W × W × ℕ)
  pub new_prices : List W
  pub sold_volume : ℕ
  pub new_count : ℕ
  pub new_sum : ℕ

pub record Analysis {ℓ} (W : Type ℓ) : Type ℓ where
  pub last_viewtime : ℕ
  pub last_orders : List (Order W)

module _ {ℓ} {W : Type ℓ} where
  abbrev pub no_change : Comparison W
  no_change = record {
    diffs = [];
    price_changes = [];
    new_prices = [];
    sold_volume = 0;
    new_count = 0;
    new_sum = 0;
  }

  -- an order of the last view that is gone
  unfoldable pub cleared : Order W → Comparison W → Comparison W
  cleared a c = record c {
    diffs = (record { order = a; kind = old_kind; note = cleared_order }) ∷ c.diffs;
    sold_volume = a.volume + c.sold_volume;
  }

  unfoldable pub added : Order W → Comparison W → Comparison W
  added b c = record c {
    diffs = (record { order = b; kind = new_kind; note = new_order }) ∷ c.diffs;
    new_prices = b.price ∷ c.new_prices;
    new_count = c.new_count + 1;
    new_sum = b.volume + c.new_sum;
  }

  unfoldable pub old_and_new : Note → Order W → Order W → List (OrderDiff W) → List (OrderDiff W)
  old_and_new n a b ds =
      (record { order = a; kind = old_kind; note = n })
      ∷ (record { order = b; kind = new_kind; note = n })
      ∷ ds

  module _ ⦃d : Double W⦄ where
    unfoldable pub add_diffs : Order W → Order W → List (OrderDiff W) → List (OrderDiff W)
    add_diffs a b ds =
        let volumes_differ = not (a.volume == b.volume) in
        if d.lt a.price b.price && volumes_differ
        then old_and_new price_increase_and_volume_change a b ds
        else if d.lt b.price a.price && volumes_differ
        then old_and_new price_decrease_and_volume_change a b ds
        else if d.lt a.price b.price
        then old_and_new price_increase a b ds
        else if d.lt b.price a.price
        then old_and_new price_decrease a b ds
        else if volumes_differ
        then old_and_new volume_change a b ds
        else (record { order = a; kind = unchanged_kind; note = unchanged_order }) ∷ ds

    -- The difference of the volumes is one of `std::uint32_t`.
    unfoldable pub matched : Order W → Order W → Comparison W → Comparison W
    matched a b c = record c {
      diffs = add_diffs a b c.diffs;
      price_changes = (a.price, b.price, a.range) ∷ c.price_changes;
      sold_volume = (a.volume + 2 ^ 32 - b.volume) % 2 ^ 32 + c.sold_volume;
    }

    -- the loops over the last orders and those of the view
    unfoldable pub compare_orders : List (Order W) → List (Order W) → Comparison W
    compare_orders [] [] = no_change
    compare_orders [] (b ∷ ys) = added b (compare_orders [] ys)
    compare_orders (a ∷ xs) [] = cleared a (compare_orders xs [])
    compare_orders (a ∷ xs) (b ∷ ys) = elim (a.id == b.id) [
      | true ↦ matched a b (compare_orders xs ys)
      | false ↦ elim (ltb a.id b.id) [
        | true ↦ cleared a (compare_orders xs (b ∷ ys))
        | false ↦ added b (compare_orders (a ∷ xs) ys)
      ]
    ]

    -- `step`: nothing, unless the views are half an hour apart, give or take two minutes
    unfoldable pub step : ℕ → List (Order W) → Analysis W → Result (Option (Comparison W))
    step viewtime view s =
        if leb (s.last_viewtime + 1680) viewtime && leb viewtime (s.last_viewtime + 1920)
        then elim view [
          | [] ↦ throw assertion
          | b ∷ rest ↦ ok (some (compare_orders s.last_orders (b ∷ rest)))
        ]
        else ok none

    unfoldable pub step_and_update :
        ℕ → List (Order W) → Analysis W → Result (Option (Comparison W) × Analysis W)
    step_and_update viewtime view s = do
      report ← elim s.last_orders [ [] ↦ ok none | a ∷ rest ↦ step viewtime view s ]
      ok (report, record { last_viewtime = viewtime; last_orders = view })

    -- `copy_if` and `sort`
    unfoldable pub insert_by_id : Order W → List (Order W) → List (Order W)
    insert_by_id o [] = o ∷ []
    insert_by_id o (x ∷ xs) =
        let more = insert_by_id o xs in if ltb x.id o.id then x ∷ more else o ∷ (x ∷ xs)

    unfoldable pub select : List (Order W) → List (Order W)
    select [] = []
    select (o ∷ os) =
        let rest = select os in
        if o.buy == 0 && ltb 0 o.volume && o.type == 1248 && o.station_id == 60003760
        then insert_by_id o rest
        else rest

    -- `operator()`
    unfoldable pub analyze_view :
        ℕ → List (Order W) → Analysis W → Result (Option (Comparison W) × Analysis W)
    analyze_view viewtime view s = step_and_update viewtime (select view) s
