-- ===== src/Pricing/Codec/RoundTrip.antt =====
-- What the writer of apps/pricing stores, the reader gets back: `write_order` and `write_diff` of
-- json_writer_util.cpp against `read_order` and `read_diff` of json_reader.cpp.
use mathlib.Core.List.{append_assoc}
use eve_industry_planner.Prelude.{ℕ, ◌<◌, ◌^◌, ◌≡◌, List, ◌++◌, some, arith, length, length-append}
use eve_industry_planner.Double.{Double, IsBitwise}
use eve_industry_planner.Pricing.Order.{Order, Diff, IsOrder}
use eve_industry_planner.Pricing.Codec.Bytes.{read_le-le_bytes, length-le_bytes}
use eve_industry_planner.Pricing.Codec.{write_order, write_diff, read_order, read_diff}

module _ {ℓ} {W : Type ℓ} ⦃d : Double W⦄ (laws : IsBitwise W) where
  open laws use {bits-lt, of_bits-bits}

  -- An order whose members are in the ranges of their types is read back as it was written, from the
  -- front of any bytes that follow it, if the eight bytes of a `double` determine it.
  pub read_order-write_order :
      (o : Order W) (s : List ℕ) → IsOrder o → read_order (write_order o ++ s) ≡ some (o, s)
  unfolding read_order write_order
  read_order-write_order o s v = simp append_assoc (
      rw (
        read_le-le_bytes 1 o.buy _ (omega arith),
        read_le-le_bytes 4 o.issued _ (omega arith),
        read_le-le_bytes 8 (d.bits o.price) _ (omega (arith, bits-lt o.price)),
        read_le-le_bytes 4 o.volume_entered _ (omega arith),
        read_le-le_bytes 8 o.station_id _ (omega arith),
        read_le-le_bytes 4 o.volume _ (omega arith),
        read_le-le_bytes 1 o.range _ (omega arith),
        read_le-le_bytes 4 o.min_volume _ (omega arith),
        read_le-le_bytes 4 o.duration _ (omega arith),
        read_le-le_bytes 4 o.type _ (omega arith),
        read_le-le_bytes 8 o.id s (omega arith),
        of_bits-bits o.price,
      ))

  -- A change record with a tag below 2 ^ 8 and a volume below 2 ^ 32 is read back as it was written,
  -- from the front of any bytes that follow it, if the eight bytes of a `double` determine it.
  pub read_diff-write_diff :
      (x : Diff W) (s : List ℕ)
      → x.buy < 2 ^ 8
      → x.volume < 2 ^ 32
      → read_diff (write_diff x ++ s) ≡ some (x, s)
  unfolding read_diff write_diff
  read_diff-write_diff x s b v = simp append_assoc (
      rw (
        read_le-le_bytes 1 x.buy _ (omega arith),
        read_le-le_bytes 8 (d.bits x.price) _ (omega (arith, bits-lt x.price)),
        read_le-le_bytes 4 x.volume s (omega arith),
        of_bits-bits x.price,
      ))

module _ {ℓ} {W : Type ℓ} ⦃d : Double W⦄ where
  -- An order takes 50 bytes.
  pub length-write_order : (o : Order W) → length (write_order o) ≡ 50
  unfolding write_order
  length-write_order o = simp (length-append, length-le_bytes)

  -- A change takes 13 bytes.
  pub length-write_diff : (x : Diff W) → length (write_diff x) ≡ 13
  unfolding write_diff
  length-write_diff x = simp (length-append, length-le_bytes)
