-- ===== src/Pricing/Json/Ranges.antt =====
-- What `convert` of apps/pricing/read_json_order.cpp returns is in the ranges of its members.
use eve_industry_planner.Prelude.{
  ℕ, ◌^◌, ◌<◌, ◌≡◌, true, Option, List, [], ◌∷◌, arith, ok, throw, >>=-eq-ok, ok-injective,
  if◌then◌else◌, subst, sym, runtime_error,
}
use eve_industry_planner.Text.{Text}
use eve_industry_planner.Pricing.Order.{Order, IsOrder}
use eve_industry_planner.Pricing.Json.{
  Value, Bits, Converted, set_bit, all_read, read_member, read_members, convert,
}
use eve_industry_planner.Pricing.Json.Moves.{
  Move, wrote_id, wrote_buy, wrote_type, wrote_price, wrote_range, wrote_issued, wrote_volume,
  wrote_duration, wrote_station, wrote_min_volume, wrote_entered, read_member-Moves,
}

module _ {ℓ} {W : Type ℓ} where
  -- Every member whose bit is set is in the range of its type.
  record AreInRange (o : Order W) (m : Bits) : Type 0 where
    id_read : m 0 ≡ true → o.id < 2 ^ 64
    buy_read : m 1 ≡ true → o.buy < 2
    type_read : m 2 ≡ true → o.type < 2 ^ 32
    range_read : m 4 ≡ true → o.range < 2 ^ 8
    issued_read : m 5 ≡ true → o.issued < 2 ^ 32
    volume_read : m 6 ≡ true → o.volume < 2 ^ 32
    duration_read : m 7 ≡ true → o.duration < 2 ^ 32
    station_read : m 8 ≡ true → o.station_id < 2 ^ 64
    min_volume_read : m 9 ≡ true → o.min_volume < 2 ^ 32
    entered_read : m 10 ≡ true → o.volume_entered < 2 ^ 32

  abbrev Fits : Converted W → Type 0
  Fits c = AreInRange c.order c.members_read

  Move-Fits : {c c' d' : Converted W} → Move c c c' d' → Fits c → Fits c'
  unfolding set_bit
  Move-Fits (wrote_id n h (e, _)) v = subst Fits (sym e) (ground arith)
  Move-Fits (wrote_buy n h (e, _)) v = subst Fits (sym e) (ground arith)
  Move-Fits (wrote_type n h (e, _)) v = subst Fits (sym e) (ground arith)
  Move-Fits (wrote_price x (e, _)) v = subst Fits (sym e) (ground arith)
  Move-Fits (wrote_range n h (e, _)) v = subst Fits (sym e) (ground arith)
  Move-Fits (wrote_issued n h (e, _)) v = subst Fits (sym e) (ground arith)
  Move-Fits (wrote_volume n h (e, _)) v = subst Fits (sym e) (ground arith)
  Move-Fits (wrote_duration n h (e, _)) v = subst Fits (sym e) (ground arith)
  Move-Fits (wrote_station n h (e, _)) v = subst Fits (sym e) (ground arith)
  Move-Fits (wrote_min_volume n h (e, _)) v = subst Fits (sym e) (ground arith)
  Move-Fits (wrote_entered n h (e, _)) v = subst Fits (sym e) (ground arith)

  Fits-IsOrder : (o : Order W) (m : Bits) → AreInRange o m → all_read m ≡ true → IsOrder o
  unfolding all_read
  Fits-IsOrder o m v h = ground arith

  finished :
      (c : Converted W) {o : Order W}
      → Fits c
      → (if all_read c.members_read then ok c.order else throw runtime_error) ≡ ok o
      → IsOrder o
  finished c v h = ground (arith, Fits-IsOrder c.order c.members_read v)

  module _ (time : Text → Option ℕ) where
    read_members-Fits :
        (ms : List (Text × Value W)) (c : Converted W) {c' : Converted W}
        → Fits c
        → read_members time ms c ≡ ok c'
        → Fits c'
    unfolding read_members
    read_members-Fits [] c v h = subst Fits (ok-injective h) v
    read_members-Fits ((name, value) ∷ ms) c v h =
        let (c1, e, f) = >>=-eq-ok (read_member time name value c) _ h in
        let (d, _, mv) = read_member-Moves time name value c c e in
        read_members-Fits ms c1 (Move-Fits mv v) f

    -- Every member of an order that `convert` returns is in the range of its type, whatever the
    -- members of the object are.
    pub convert-IsOrder :
        (indeterminate : Order W) (members : List (Text × Value W)) {o : Order W}
        → convert time indeterminate members ≡ ok o
        → IsOrder o
    unfolding convert
    convert-IsOrder indeterminate members h =
        let (c, e, f) = >>=-eq-ok (read_members time members _) _ h in
        let v = read_members-Fits members _ (ground arith) e in finished c v f
