-- ===== src/Pricing/Reader/Records.antt =====
-- One record of the archive, as apps/pricing/json_reader.cpp reads what json_writer.cpp has written.
use mathlib.Core.List.{append_assoc}
use eve_industry_planner.Prelude.{
  ℕ, ◌%◌, ◌^◌, ◌≤◌, ◌<◌, ◌≡◌, refl, List, ◌++◌, some, arith, length, get_elem?, set, ok, ◌==◌, true,
  false, get_elem?_in_range, lt-length_of_get_elem?,
}
use eve_industry_planner.Double.{Double, IsBitwise}
use eve_industry_planner.Pricing.Order.{Order, Diff, IsOrder, apply_diff}
use eve_industry_planner.Pricing.Codec.Bytes.{le_bytes, read_le-le_bytes}
use eve_industry_planner.Pricing.Codec.{write_order, write_diff}
use eve_industry_planner.Pricing.Codec.RoundTrip.{read_order-write_order, read_diff-write_diff}
use eve_industry_planner.Pricing.Reader.{
  Reader, read_step, step_diff, step_order, to_size, front, modify-some,
}

to_size_small : (n : ℕ) → n < 2 ^ 31 → to_size n ≡ n
unfolding to_size
to_size_small n h = ground arith

module _ {ℓ} {W : Type ℓ} ⦃d : Double W⦄ where
  front-write_order : (o : Order W) (s : List ℕ) → front (write_order o ++ s) ≡ ok (o.buy % 256)
  unfolding front write_order le_bytes
  front-write_order o s = refl

  front-write_diff : (x : Diff W) (s : List ℕ) → front (write_diff x ++ s) ≡ ok (x.buy % 256)
  unfolding front write_diff le_bytes
  front-write_diff x s = refl

  module _ (laws : IsBitwise W) (r : Reader W) (slot : ℕ)
      (small : length r.active_orders ≤ 2 ^ 31) where
    -- The record of an order, the slot in four bytes and the order, makes `read_step` store the order
    -- in that slot and leaves what follows the record, if the slot is there, the slots are at most 2 ^
    -- 31, the order is in the ranges of its members, and the eight bytes of a `double` determine it.
    pub read_step-order :
        (o : Order W) (s : List ℕ)
        → slot < length r.active_orders
        → IsOrder o
        → read_step r ((le_bytes 4 slot ++ write_order o) ++ s)
          ≡ ok (record r { active_orders = set r.active_orders slot o }, s)
    unfolding read_step step_order
    read_step-order o s h v =
        let (x, e) = get_elem?_in_range r.active_orders slot h in
        let tag : (o.buy % 256 == 2) ≡ false = ground arith in
        rw (
          append_assoc (le_bytes 4 slot) (write_order o) s,
          read_le-le_bytes 4 slot _ (omega arith),
          front-write_order o s,
          to_size_small slot (omega arith),
          tag,
          read_order-write_order laws o s v,
          modify-some r.active_orders slot _ e,
        )

    -- The record of a change, the slot in four bytes and the change, makes `read_step` set the price
    -- and the volume of the order in that slot and leaves what follows the record, if the slot is
    -- there, the slots are at most 2 ^ 31, the tag is 2, the volume is below 2 ^ 32, and the eight
    -- bytes of a `double` determine it.
    pub read_step-diff :
        (x : Diff W) (o : Order W) (s : List ℕ)
        → get_elem? r.active_orders slot ≡ some o
        → x.buy ≡ 2
        → x.volume < 2 ^ 32
        → read_step r ((le_bytes 4 slot ++ write_diff x) ++ s)
          ≡ ok (record r { active_orders = set r.active_orders slot (apply_diff x o) }, s)
    unfolding read_step step_diff
    read_step-diff x o s e b v =
        let h : slot < length r.active_orders = lt-length_of_get_elem? r.active_orders slot e in
        let tag : (x.buy % 256 == 2) ≡ true = ground arith in
        rw (
          append_assoc (le_bytes 4 slot) (write_diff x) s,
          read_le-le_bytes 4 slot _ (omega arith),
          front-write_diff x s,
          to_size_small slot (omega arith),
          tag,
          read_diff-write_diff laws x s (omega arith) v,
          modify-some r.active_orders slot _ e,
        )
