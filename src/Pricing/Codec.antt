-- ===== src/Pricing/Codec.antt =====
-- The bytes of orders and changes: `write_impl` and `write_tuple` of json_writer_util.cpp, `read_impl`
-- of json_reader.cpp. The program copies the objects as they lie in memory, which is little endian on
-- the machines that it is built for, member after member without padding. `none` stands for a read
-- past the end of the view.
pub mod Bytes
pub mod RoundTrip
use mathlib.Core.Option
use eve_industry_planner.Prelude.{ℕ, ◌≡◌, List, [], ◌∷◌, ◌++◌, Option, none, some}
use eve_industry_planner.Double.{Double}
use eve_industry_planner.Pricing.Order.{Order, Diff}
use Bytes.{le_bytes, read_le, ◌>>=◌}

module _ {ℓ} {W : Type ℓ} ⦃d : Double W⦄ where
  unfoldable pub write_order : Order W → List ℕ
  write_order o =
      le_bytes 1 o.buy
      ++ (le_bytes 4 o.issued
          ++ (le_bytes 8 (d.bits o.price)
              ++ (le_bytes 4 o.volume_entered
                  ++ (le_bytes 8 o.station_id
                      ++ (le_bytes 4 o.volume
                          ++ (le_bytes 1 o.range
                              ++ (le_bytes 4 o.min_volume
                                  ++ (le_bytes 4 o.duration
                                      ++ (le_bytes 4 o.type ++ le_bytes 8 o.id)))))))))

  unfoldable pub write_diff : Diff W → List ℕ
  write_diff x = le_bytes 1 x.buy ++ (le_bytes 8 (d.bits x.price) ++ le_bytes 4 x.volume)

  -- The rest of the view stands beside what was read.
  unfoldable pub read_order : List ℕ → Option (Order W × List ℕ)
  read_order s = do
    (buy, s) ← read_le 1 s
    (issued, s) ← read_le 4 s
    (price, s) ← read_le 8 s
    (volume_entered, s) ← read_le 4 s
    (station_id, s) ← read_le 8 s
    (volume, s) ← read_le 4 s
    (range, s) ← read_le 1 s
    (min_volume, s) ← read_le 4 s
    (duration, s) ← read_le 4 s
    (type, s) ← read_le 4 s
    (id, s) ← read_le 8 s
    some (
      record {
        buy = buy;
        issued = issued;
        price = d.of_bits price;
        volume_entered = volume_entered;
        station_id = station_id;
        volume = volume;
        range = range;
        min_volume = min_volume;
        duration = duration;
        type = type;
        id = id;
      },
      s,
    )

  unfoldable pub read_diff : List ℕ → Option (Diff W × List ℕ)
  read_diff s = do
    (buy, s) ← read_le 1 s
    (price, s) ← read_le 8 s
    (volume, s) ← read_le 4 s
    some (record { buy = buy; price = d.of_bits price; volume = volume }, s)
