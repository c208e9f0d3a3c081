-- ===== src/Pricing/Json.antt =====
-- apps/pricing/read_json_order.cpp: an order from the members of a JSON object. Of a value only what
-- the code asks for is kept: an unsigned number passes `IsUint` or `IsUint64` if it fits, and a number
-- with a fraction or an exponent, and no other, passes `IsDouble`.
pub mod Moves
pub mod Ranges
pub mod Fresh
pub mod Members
use eve_industry_planner.Prelude.{
  ℕ, ◌+◌, ◌-◌, ◌*◌, ◌^◌, ◌%◌, Bool, true, false, ◌&&◌, ◌||◌, Option, none, some, List, [], ◌∷◌, ltb,
  ◌==◌, if◌then◌else◌, length, Result, ok, throw, ◌>>=◌, or_throw, runtime_error,
}
use eve_industry_planner.Text.{Text}
use eve_industry_planner.Pricing.Order.{Order}

pub data Value {ℓ} (W : Type ℓ) : Type ℓ where
  boolean : Bool → Value W
  unsigned : ℕ → Value W
  real : W → Value W
  string : Text → Value W
  -- null, a negative number, an array, an object
  other : Value W

-- `x[0]`, or 0 where there is none
unfoldable pub first_byte : Text → ℕ
first_byte [] = 0
first_byte (c ∷ s) = c

-- An `int8_t` is its bit pattern: -1 is 255.
unfoldable pub range_to_int8 : Text → ℕ
unfolding first_byte
range_to_int8 x =
    if length x == 1
    then (first_byte x + (256 - b'0')) % 256
    else if length x == 2
    then 10 * (first_byte x + (256 - b'0')) % 256
    else if length x == 6
    then 255
    else if length x == 7
    then 253
    else 254

module _ {ℓ} {W : Type ℓ} where
  unfoldable pub get_uint64 : Value W → Result ℕ
  get_uint64 (unsigned n) = if ltb n (2 ^ 64) then ok n else throw runtime_error
  get_uint64 _ = throw runtime_error

  unfoldable pub get_uint : Value W → Result ℕ
  get_uint (unsigned n) = if ltb n (2 ^ 32) then ok n else throw runtime_error
  get_uint _ = throw runtime_error

  unfoldable pub get_bool : Value W → Result ℕ
  get_bool (boolean true) = ok 1
  get_bool (boolean false) = ok 0
  get_bool _ = throw runtime_error

  unfoldable pub get_double : Value W → Result W
  get_double (real x) = ok x
  get_double _ = throw runtime_error

  unfoldable pub get_string : Value W → Result Text
  get_string (string s) = ok s
  get_string _ = throw runtime_error

-- The bits of `members_read`, and `members_read |= 1U << k`
abbrev pub Bits : Type 0
Bits = ℕ → Bool

unfoldable pub set_bit : ℕ → Bits → Bits
set_bit k m j = k == j || m j

unfoldable pub all_read : Bits → Bool
all_read m = m 0 && m 1 && m 2 && m 3 && m 4 && m 5 && m 6 && m 7 && m 8 && m 9 && m 10

-- `order` and `members_read`
pub record Converted {ℓ} (W : Type ℓ) : Type ℓ where
  pub order : Order W
  pub members_read : Bits

-- `time` is `timegm` of what `strptime` makes of a text with the format "%FT%T", `none` where it fails.
unfoldable pub parse_datetime : (Text → Option ℕ) → Text → Result ℕ
parse_datetime time x = or_throw (time x) runtime_error >>= λ t. ok (t % 2 ^ 32)

module _ {ℓ} {W : Type ℓ} where
  abbrev pub store : ℕ → Order W → Converted W → Converted W
  store k o c = record { order = o; members_read = set_bit k c.members_read }

  -- A case of the `switch`: the value is written into its member, and the member's bit is set.
  unfoldable pub write_member {κ} :
      {A : Type κ} → ℕ → Result A → (A → Order W → Order W) → Converted W → Result (Converted W)
  write_member k value write c = value >>= λ a. ok (store k (write a c.order) c)

  module _ (time : Text → Option ℕ) where
    -- `switch (name.size())`
    unfoldable pub read_member : Text → Value W → Converted W → Result (Converted W)
    read_member name value =
        if length name == 2
        then write_member 0 (get_uint64 value) (λ n o. record o { id = n })
        else if length name == 3
        then write_member 1 (get_bool value) (λ n o. record o { buy = n })
        else if length name == 4
        then write_member 2 (get_uint value) (λ n o. record o { type = n })
        else if length name == 5
        then (if first_byte name == b'p'
            then write_member 3 (get_double value) (λ x o. record o { price = x })
            else write_member 4 (get_string value) (λ s o. record o { range = range_to_int8 s }))
        else if length name == 6
        then (if first_byte name == b'i'
            then write_member 5 (get_string value >>= parse_datetime time)
                (λ t o. record o { issued = t })
            else write_member 6 (get_uint value) (λ n o. record o { volume = n }))
        else if length name == 8
        then write_member 7 (get_uint value) (λ n o. record o { duration = n })
        else if length name == 9
        then (if first_byte name == b's'
            then write_member 8 (get_uint64 value) (λ n o. record o { station_id = n })
            else write_member 9 (get_uint value) (λ n o. record o { min_volume = n }))
        else write_member 10 (get_uint value) (λ n o. record o { volume_entered = n })

    unfoldable pub read_members : List (Text × Value W) → Converted W → Result (Converted W)
    read_members [] c = ok c
    read_members ((name, value) ∷ ms) c = read_member name value c >>= λ c'. read_members ms c'

    -- `indeterminate` is what the declaration `Order order;` leaves in the members.
    unfoldable pub convert : Order W → List (Text × Value W) → Result (Order W)
    convert indeterminate members =
        read_members members (record { order = indeterminate; members_read = λ k. false }) >>= λ c.
        if all_read c.members_read then ok c.order else throw runtime_error
