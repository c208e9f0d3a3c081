-- ===== src/Pricing/Json/Fresh.antt =====
-- What `convert` of apps/pricing/read_json_order.cpp returns holds nothing that was not in the object.
use eve_industry_planner.Prelude.{
  ℕ, ◌≡◌, refl, ap, subst, true, false, Option, List, [], ◌∷◌, arith, Result, ok, throw, >>=-eq-ok,
  ok-injective, if◌then◌else◌, runtime_error,
}
use eve_industry_planner.Text.{Text}
use eve_industry_planner.Pricing.Order.{Order}
use eve_industry_planner.Pricing.Json.{
  Value, Bits, Converted, set_bit, all_read, read_member, read_members, convert,
}
use eve_industry_planner.Pricing.Json.Moves.{
  Move, wrote_id, wrote_buy, wrote_type, wrote_price, wrote_range, wrote_issued, wrote_volume,
  wrote_duration, wrote_station, wrote_min_volume, wrote_entered, read_member-Moves,
}

module _ {ℓ} {W : Type ℓ} where
  -- The same bits are set, and the orders agree on the members whose bits are set.
  record Agree (c d : Converted W) : Type ℓ where
    bits : c.members_read ≡ d.members_read
    id_same : c.members_read 0 ≡ true → c.order.id ≡ d.order.id
    buy_same : c.members_read 1 ≡ true → c.order.buy ≡ d.order.buy
    type_same : c.members_read 2 ≡ true → c.order.type ≡ d.order.type
    price_same : c.members_read 3 ≡ true → c.order.price ≡ d.order.price
    range_same : c.members_read 4 ≡ true → c.order.range ≡ d.order.range
    issued_same : c.members_read 5 ≡ true → c.order.issued ≡ d.order.issued
    volume_same : c.members_read 6 ≡ true → c.order.volume ≡ d.order.volume
    duration_same : c.members_read 7 ≡ true → c.order.duration ≡ d.order.duration
    station_same : c.members_read 8 ≡ true → c.order.station_id ≡ d.order.station_id
    min_volume_same : c.members_read 9 ≡ true → c.order.min_volume ≡ d.order.min_volume
    entered_same : c.members_read 10 ≡ true → c.order.volume_entered ≡ d.order.volume_entered

  same_bits :
      (k : ℕ) {c d : Converted W} → Agree c d → set_bit k c.members_read ≡ set_bit k d.members_read
  same_bits k v = ap (set_bit k) v.bits

  Move-Agree : {c d c' d' : Converted W} → Move c d c' d' → Agree c d → Agree c' d'
  unfolding set_bit
  Move-Agree (wrote_id n h (e, f)) v = rw (e, f) (ground (arith, same_bits 0 v))
  Move-Agree (wrote_buy n h (e, f)) v = rw (e, f) (ground (arith, same_bits 1 v))
  Move-Agree (wrote_type n h (e, f)) v = rw (e, f) (ground (arith, same_bits 2 v))
  Move-Agree (wrote_price x (e, f)) v = rw (e, f) (ground (arith, same_bits 3 v))
  Move-Agree (wrote_range n h (e, f)) v = rw (e, f) (ground (arith, same_bits 4 v))
  Move-Agree (wrote_issued n h (e, f)) v = rw (e, f) (ground (arith, same_bits 5 v))
  Move-Agree (wrote_volume n h (e, f)) v = rw (e, f) (ground (arith, same_bits 6 v))
  Move-Agree (wrote_duration n h (e, f)) v = rw (e, f) (ground (arith, same_bits 7 v))
  Move-Agree (wrote_station n h (e, f)) v = rw (e, f) (ground (arith, same_bits 8 v))
  Move-Agree (wrote_min_volume n h (e, f)) v = rw (e, f) (ground (arith, same_bits 9 v))
  Move-Agree (wrote_entered n h (e, f)) v = rw (e, f) (ground (arith, same_bits 10 v))

  Agree-order : (c d : Converted W) → Agree c d → all_read c.members_read ≡ true → c.order ≡ d.order
  unfolding all_read
  Agree-order c d v h = ground arith

  Agree-all_read :
      (c d : Converted W) → Agree c d → all_read c.members_read ≡ all_read d.members_read
  Agree-all_read c d v = ap all_read v.bits

  finish : Converted W → Result (Order W)
  finish c = if all_read c.members_read then ok c.order else throw runtime_error

  Agree-finish : (c d : Converted W) {o : Order W} → Agree c d → finish c ≡ ok o → finish d ≡ ok o
  unfolding finish
  Agree-finish c d v h = ground (arith, Agree-all_read c d v, Agree-order c d v)

  module _ (time : Text → Option ℕ) where
    read_members-Agree :
        (ms : List (Text × Value W)) (c d : Converted W) {c' : Converted W}
        → Agree c d
        → read_members time ms c ≡ ok c'
        → (d' : Converted W) × (read_members time ms d ≡ ok d') × Agree c' d'
    unfolding read_members
    read_members-Agree [] c d v h = (d, refl, subst (λ x. Agree x d) (ok-injective h) v)
    read_members-Agree ((name, value) ∷ ms) c d v h =
        let (c1, e, f) = >>=-eq-ok (read_member time name value c) _ h in
        let (d1, g, mv) = read_member-Moves time name value c d e in
        let (d', k, w) = read_members-Agree ms c1 d1 (Move-Agree mv v) f in
        (d', rw (g, read_members) k, w)

    -- Where `convert` returns an order, it returns the same order from every memory that the
    -- declaration of the order may have found: no member of the result is left uninitialised.
    pub convert_fresh :
        (a b : Order W) (members : List (Text × Value W)) {o : Order W}
        → convert time a members ≡ ok o
        → convert time b members ≡ ok o
    unfolding convert finish
    convert_fresh a b members h =
        let start : Bits = λ k. false in
        let (c, e, f) = >>=-eq-ok (read_members time members _) finish h in
        let (d, g, v) =
          read_members-Agree members _ (record { order = b; members_read = start }) (ground arith)
            e in
        rw g (Agree-finish c d v f)
