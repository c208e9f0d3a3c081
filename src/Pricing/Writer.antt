-- ===== src/Pricing/Writer.antt =====
-- `JsonWriter` of apps/pricing/json_writer.cpp: the encoder of the archive. A view of the market is
-- stored as the changes since the last one. `written` is what stands between `start_` and `current_`;
-- the mapped file behind it is full of zeros, and its end, `stop_`, is never consulted by the source.
pub mod Extract
pub mod Mirror
pub mod PastEnd
pub mod Write
use eve_industry_planner.Prelude.{
  ℕ, zero, suc, ◌+◌, ◌-◌, ◌^◌, ◌≡◌, refl, Bool, true, false, ◌&&◌, ◌||◌, not, Option, none, some,
  List, [], ◌∷◌, ◌++◌, arith, ltb, leb, ◌==◌, if◌then◌else◌, length, get_elem?, set, take, drop,
  lookup, emplace, erase, Result, ok, throw, ◌>>=◌, ◌>>◌, or_throw, require, undefined,
  runtime_error, assertion,
}
use eve_industry_planner.Double.{Double}
use eve_industry_planner.Pricing.Order.{Order, Diff, equal_ignoring_issued}
use eve_industry_planner.Pricing.Codec.Bytes.{le_bytes}
use eve_industry_planner.Pricing.Codec.{write_order, write_diff}
use eve_industry_planner.Pricing.Reader.{Reader, read_step, modify}
use eve_industry_planner.Pricing.Reader.Finalize.{finalize}

pub record Writer {ℓ} (W : Type ℓ) : Type ℓ where
  pub active_orders : List (Order W)
  pub active_orders2 : List (Order W)
  pub index : List (ℕ × ℕ)
  pub free_list : List ℕ
  pub written : List ℕ
  pub reader : Reader W
  -- how much of the file the reader's `text` has passed; `started` is `reader_it_.reader_ != nullptr`
  pub consumed : ℕ
  pub started : Bool

module _ {ℓ} {W : Type ℓ} where
  -- The slot of a new order, the slots with it stored, and the free slots that are left. With no free
  -- slot the source returns the size of the vector after `push_back`.
  unfoldable pub new_index :
      List ℕ → List (Order W) → Order W → Result (ℕ × List (Order W) × List ℕ)
  new_index [] slots o = let slots' = slots ++ (o ∷ []) in ok (length slots', slots', [])
  new_index (i ∷ free) slots o = do slots ← modify slots i (λ _. o); ok (i, slots, free)

module _ {ℓ} {W : Type ℓ} ⦃d : Double W⦄ where
  -- The branch of `extract2` for an order that is not in the last view.
  unfoldable pub write_new : Writer W → Order W → Result (Writer W)
  write_new w o = elim (lookup o.id w.index) [
    | some slot ↦ throw runtime_error
    | none ↦ do
      (slot, slots, free) ← new_index w.free_list w.active_orders2 o
      ok (record w {
        active_orders2 = slots;
        free_list = free;
        index = emplace o.id slot w.index;
        written = w.written ++ (le_bytes 4 slot ++ write_order o);
      })
  ]

  -- The branch for an order whose price or volume has changed.
  unfoldable pub write_changed : Writer W → Order W → Result (Writer W)
  write_changed w o = do
    slot ← or_throw (lookup o.id w.index) runtime_error
    slots ← modify w.active_orders2 slot (λ _. o)
    ok (record w {
      active_orders2 = slots;
      written =
          w.written
          ++ (le_bytes 4 slot
              ++ write_diff (record { buy = 2; price = o.price; volume = o.volume }));
    })

  -- The branch for an order that is gone.
  unfoldable pub write_removed : Writer W → Order W → Result (Writer W)
  write_removed w o = do
    slot ← or_throw (lookup o.id w.index) runtime_error
    slots ← modify w.active_orders2 slot (λ x. record x { volume = 0 })
    ok (record w {
      active_orders2 = slots;
      free_list = w.free_list ++ (slot ∷ []);
      index = erase o.id w.index;
      written =
          w.written
          ++ (le_bytes 4 slot ++ write_diff (record { buy = 2; price = o.price; volume = 0 }));
    })

  -- `std::mismatch` over the first `n` orders of both lists; the lists have as many.
  all_equal : ℕ → List (Order W) → List (Order W) → Bool
  all_equal zero xs ys = true
  all_equal (suc n) (x ∷ xs) (y ∷ ys) = equal_ignoring_issued x y && all_equal n xs ys
  all_equal (suc n) xs ys = false

  -- `check(start, stop, order_count)`, for the bytes between `start` and `stop`
  unfoldable pub check : Writer W → List ℕ → ℕ → Result (Writer W)
  unfolding all_equal
  check w doc order_count = do
    (r, _) ← read_step w.reader doc
    r ← finalize r
    require (leb order_count (length r.active_orders)) runtime_error
    require (leb order_count (length w.active_orders)) assertion
    require (all_equal order_count r.active_orders w.active_orders) runtime_error
    ok (record w { reader = r })
