-- ===== src/Pricing/Json/Members.antt =====
-- The object of an order, and what `convert` of apps/pricing/read_json_order.cpp makes of it.
use eve_industry_planner.Prelude.{
  ℕ, ◌^◌, ◌<◌, ◌≡◌, refl, true, false, Option, some, List, [], ◌∷◌, arith, Result, ok, throw, Error,
  runtime_error, ◌>>=◌, ◌==◌,
}
use eve_industry_planner.Text.{Text, codes}
use eve_industry_planner.Pricing.Order.{Order, IsOrder}
use eve_industry_planner.Pricing.Json.{
  Value, boolean, unsigned, real, string, Converted, set_bit, all_read, range_to_int8, convert,
  read_members, read_member, write_member, first_byte, get_uint, get_uint64, get_bool, get_double,
  get_string, parse_datetime, store,
}

uint-ok {ℓ} : (W : Type ℓ) (n : ℕ) → n < 2 ^ 32 → get_uint {W = W} (unsigned n) ≡ ok n
unfolding get_uint
uint-ok W n h = ground arith

uint64-ok {ℓ} : (W : Type ℓ) (n : ℕ) → n < 2 ^ 64 → get_uint64 {W = W} (unsigned n) ≡ ok n
unfolding get_uint64
uint64-ok W n h = ground arith

bool-ok {ℓ} : (W : Type ℓ) (n : ℕ) → n < 2 → get_bool {W = W} (boolean (n == 1)) ≡ ok n
unfolding get_bool
bool-ok W n h = ground arith

datetime-ok :
    (time : Text → Option ℕ) (s : Text) (n : ℕ)
    → time s ≡ some n
    → n < 2 ^ 32
    → parse_datetime time s ≡ ok n
unfolding parse_datetime
datetime-ok time s n e h = ground arith

module _ {ℓ} {W : Type ℓ} where
  -- The members of an order in the order of the comment in the source, with a value for the price.
  abbrev pub members_with : Value W → Order W → Text → Text → List (Text × Value W)
  members_with price o range issued =
      (codes "id", unsigned o.id)
      ∷ (codes "buy", boolean (o.buy == 1))
      ∷ (codes "type", unsigned o.type)
      ∷ (codes "price", price)
      ∷ (codes "range", string range)
      ∷ (codes "issued", string issued)
      ∷ (codes "volume", unsigned o.volume)
      ∷ (codes "duration", unsigned o.duration)
      ∷ (codes "stationID", unsigned o.station_id)
      ∷ (codes "minVolume", unsigned o.min_volume)
      ∷ (codes "volumeEntered", unsigned o.volume_entered)
      ∷ []

  abbrev pub members_of : Order W → Text → Text → List (Text × Value W)
  members_of o range issued = members_with (real o.price) o range issued

  write_throw {κ} :
      {A : Type κ} (k : ℕ) (m : Result A) (f : A → Order W → Order W) (c : Converted W) (x : Error)
      → m ≡ throw x
      → write_member k m f c ≡ throw x
  unfolding write_member
  write_throw k m f c x e = rw (e, write_member) refl

  write_ok {κ} :
      {A : Type κ} (k : ℕ) (m : Result A) (f : A → Order W → Order W) (c : Converted W) (a : A)
      → m ≡ ok a
      → write_member k m f c ≡ ok (store k (f a c.order) c)
  unfolding write_member
  write_ok k m f c a e = rw (e, write_member) refl

  module _ (time : Text → Option ℕ) where
    none_left : (c : Converted W) → read_members time [] c ≡ ok c
    unfolding read_members
    none_left c = refl

    next :
        (name : Text) (v : Value W) (ms : List (Text × Value W)) (c c' : Converted W)
        {r : Result (Converted W)}
        → read_member time name v c ≡ ok c'
        → read_members time ms c' ≡ r
        → read_members time ((name, v) ∷ ms) c ≡ r
    unfolding read_members
    next name v ms c c' e h = rw (e, read_members) h

    next_throws :
        (name : Text) (v : Value W) (ms : List (Text × Value W)) (c : Converted W) (x : Error)
        → read_member time name v c ≡ throw x
        → read_members time ((name, v) ∷ ms) c ≡ throw x
    unfolding read_members
    next_throws name v ms c x e = rw (e, read_members) refl

    integer_price_step :
        (n : ℕ) (c : Converted W)
        → read_member time (codes "price") (unsigned n) c ≡ throw runtime_error
    unfolding read_member first_byte get_double get_string
    integer_price_step n c =
        write_throw 3 (get_double (unsigned n)) (λ x o. record o { price = x }) c runtime_error refl

    convert_throws :
        (indeterminate : Order W) (ms : List (Text × Value W)) (x : Error)
        → read_members time ms (record { order = indeterminate; members_read = λ k. false })
          ≡ throw x
        → convert time indeterminate ms ≡ throw x
    unfolding convert
    convert_throws indeterminate ms x e = rw e refl

    module _ (o : Order W) (range issued : Text) (i : IsOrder o) (r : range_to_int8 range ≡ o.range)
        (t : time issued ≡ some o.issued) where
      id_step :
          (c : Converted W)
          → read_member time (codes "id") (unsigned o.id) c
            ≡ ok (store 0 (record c.order { id = o.id }) c)
      unfolding read_member first_byte get_double get_string
      id_step c =
          write_ok 0 (get_uint64 (unsigned o.id)) (λ n x. record x { id = n }) c o.id
            (uint64-ok W o.id i.id_lt)

      buy_step :
          (c : Converted W)
          → read_member time (codes "buy") (boolean (o.buy == 1)) c
            ≡ ok (store 1 (record c.order { buy = o.buy }) c)
      unfolding read_member first_byte get_double get_string
      buy_step c =
          write_ok 1 (get_bool (boolean (o.buy == 1))) (λ n x. record x { buy = n }) c o.buy
            (bool-ok W o.buy i.buy_lt)

      type_step :
          (c : Converted W)
          → read_member time (codes "type") (unsigned o.type) c
            ≡ ok (store 2 (record c.order { type = o.type }) c)
      unfolding read_member first_byte get_double get_string
      type_step c =
          write_ok 2 (get_uint (unsigned o.type)) (λ n x. record x { type = n }) c o.type
            (uint-ok W o.type i.type_lt)

      price_step :
          (c : Converted W)
          → read_member time (codes "price") (real o.price) c
            ≡ ok (store 3 (record c.order { price = o.price }) c)
      unfolding read_member first_byte get_double get_string
      price_step c =
          write_ok 3 (get_double (real o.price)) (λ n x. record x { price = n }) c o.price refl

      range_step :
          (c : Converted W)
          → read_member time (codes "range") (string range) c
            ≡ ok (store 4 (record c.order { range = range_to_int8 range }) c)
      unfolding read_member first_byte get_double get_string
      range_step c =
          write_ok 4 (get_string {W = W} (string range))
            (λ s x. record x { range = range_to_int8 s }) c range refl

      issued_step :
          (c : Converted W)
          → read_member time (codes "issued") (string issued) c
            ≡ ok (store 5 (record c.order { issued = o.issued }) c)
      unfolding read_member first_byte get_double get_string
      issued_step c =
          write_ok 5 (get_string {W = W} (string issued) >>= parse_datetime time)
            (λ n x. record x { issued = n }) c o.issued
            (datetime-ok time issued o.issued t i.issued_lt)

      volume_step :
          (c : Converted W)
          → read_member time (codes "volume") (unsigned o.volume) c
            ≡ ok (store 6 (record c.order { volume = o.volume }) c)
      unfolding read_member first_byte get_double get_string
      volume_step c =
          write_ok 6 (get_uint (unsigned o.volume)) (λ n x. record x { volume = n }) c o.volume
            (uint-ok W o.volume i.volume_lt)

      duration_step :
          (c : Converted W)
          → read_member time (codes "duration") (unsigned o.duration) c
            ≡ ok (store 7 (record c.order { duration = o.duration }) c)
      unfolding read_member first_byte get_double get_string
      duration_step c =
          write_ok 7 (get_uint (unsigned o.duration)) (λ n x. record x { duration = n }) c
            o.duration (uint-ok W o.duration i.duration_lt)

      station_id_step :
          (c : Converted W)
          → read_member time (codes "stationID") (unsigned o.station_id) c
            ≡ ok (store 8 (record c.order { station_id = o.station_id }) c)
      unfolding read_member first_byte get_double get_string
      station_id_step c =
          write_ok 8 (get_uint64 (unsigned o.station_id)) (λ n x. record x { station_id = n }) c
            o.station_id (uint64-ok W o.station_id i.station_id_lt)

      min_volume_step :
          (c : Converted W)
          → read_member time (codes "minVolume") (unsigned o.min_volume) c
            ≡ ok (store 9 (record c.order { min_volume = o.min_volume }) c)
      unfolding read_member first_byte get_double get_string
      min_volume_step c =
          write_ok 9 (get_uint (unsigned o.min_volume)) (λ n x. record x { min_volume = n }) c
            o.min_volume (uint-ok W o.min_volume i.min_volume_lt)

      volume_entered_step :
          (c : Converted W)
          → read_member time (codes "volumeEntered") (unsigned o.volume_entered) c
            ≡ ok (store 10 (record c.order { volume_entered = o.volume_entered }) c)
      unfolding read_member first_byte get_double get_string
      volume_entered_step c =
          write_ok 10 (get_uint (unsigned o.volume_entered))
            (λ n x. record x { volume_entered = n }) c o.volume_entered
            (uint-ok W o.volume_entered i.volume_entered_lt)

      finished :
          (indeterminate : Order W) (c : Converted W)
          → read_members time
              (members_of o range issued)
              (record { order = indeterminate; members_read = λ k. false })
            ≡ ok c
          → all_read c.members_read ≡ true
          → c.order ≡ o
          → convert time indeterminate (members_of o range issued) ≡ ok o
      unfolding convert
      finished indeterminate c e h q = rw e (ground arith)

      members_converted :
          (indeterminate : Order W) → convert time indeterminate (members_of o range issued) ≡ ok o
      unfolding set_bit all_read
      members_converted indeterminate =
          finished indeterminate
            (record {
              order = record o { range = range_to_int8 range };
              members_read =
                  (set_bit 10 (
                    set_bit 9 (
                      set_bit 8 (
                        set_bit 7 (
                          set_bit 6 (
                            set_bit 5 (
                              set_bit 4
                                (set_bit 3 (set_bit 2 (set_bit 1 (set_bit 0 (λ k. false))))))))))));
            })
            (next _ _ _ _ _ (id_step _) (
              next _ _ _ _ _ (buy_step _) (
                next _ _ _ _ _ (type_step _) (
                  next _ _ _ _ _ (price_step _) (
                    next _ _ _ _ _ (range_step _) (
                      next _ _ _ _ _ (issued_step _) (
                        next _ _ _ _ _ (volume_step _) (
                          next _ _ _ _ _ (duration_step _) (
                            next _ _ _ _ _ (station_id_step _) (
                              next _ _ _ _ _ (min_volume_step _)
                                (next _ _ _ _ _ (volume_entered_step _) (none_left _))))))))))))
            refl (ground (arith, r))

      -- From the object of an order, with its members in the order of the comment in the source and
      -- its price written with a fraction or an exponent, `convert` makes the order, whatever the
      -- memory held before; where the price is written as an integer, as in the object of that
      -- comment, it throws. Conditions: the members are in the ranges of their types, the text of the
      -- range stands for the range of the order, and the text of the date for its date.
      pub convert-members :
          (indeterminate : Order W) (n : ℕ)
          → (convert time indeterminate (members_of o range issued) ≡ ok o)
            × (convert time indeterminate (members_with (unsigned n) o range issued)
                ≡ throw runtime_error)
      convert-members indeterminate n = (
        members_converted indeterminate,
        convert_throws indeterminate _ runtime_error (
            next _ _ _ _ _ (id_step _) (
              next _ _ _ _ _ (buy_step _) (
                next _ _ _ _ _ (type_step _)
                  (next_throws _ _ _ _ runtime_error (integer_price_step n _))))),
      )
