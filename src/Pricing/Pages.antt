-- ===== src/Pricing/Pages.antt =====
-- `convertOrders`, `filterOrders` and `readOrders` of apps/pricing/json_writer_util.cpp. An archive is
-- given as its entries in the order in which the iterator finds them, each with its path and with what
-- rapidjson makes of its text.
pub mod Caught
pub mod Placed
pub mod Ready
use eve_industry_planner.Prelude.{
  ℕ, ◌+◌, ◌-◌, ◌^◌, ◌<◌, Bool, true, false, Option, none, some, List, [], ◌∷◌, ◌++◌, ltb, leb, ◌==◌,
  if◌then◌else◌, length, set, replicate, remove_if, Error, runtime_error, logic_error, out_of_range,
  assertion, undefined, no_fuel, Result, ok, throw, ◌>>=◌,
}
use eve_industry_planner.Text.{Text}
use eve_industry_planner.Pricing.Order.{Order}
use eve_industry_planner.Pricing.Json.{Value, convert}
use eve_industry_planner.Pricing.Paths.{parse_file_name}

-- an element of the array `items`
pub data Item {ℓ} (W : Type ℓ) : Type ℓ where
  object : List (Text × Value W) → Item W
  no_object : Item W

-- `unparsed` is the null that `parseOrders` returns for a text that is no JSON. Without an array
-- `items` an assertion of rapidjson fails.
pub data Document {ℓ} (W : Type ℓ) : Type ℓ where
  unparsed : Document W
  items : List (Item W) → Document W
  no_items : Document W

pub record Entry {ℓ} (W : Type ℓ) : Type ℓ where
  pub path : Text
  pub document : Document W

abbrev pub is_empty {ℓ} : {A : Type ℓ} → List A → Bool
is_empty [] = true
is_empty (x ∷ xs) = false

-- `docs.resize(n)` for an n that is at least the size
unfoldable pub resize {ℓ} : {A : Type ℓ} → List (List A) → ℕ → List (List A)
resize docs n = docs ++ replicate (n - length docs) []

abbrev pub Pages {ℓ} : Type ℓ → Type ℓ
Pages W = List (List (Order W))

-- `catch (const std::exception&)` around the loop, which keeps what is in `docs` by then
unfoldable pub caught {ℓ} : {W : Type ℓ} → Error → Pages W → Result (Pages W)
caught runtime_error docs = ok docs
caught logic_error docs = ok docs
caught out_of_range docs = ok docs
caught assertion docs = throw assertion
caught undefined docs = throw undefined
caught no_fuel docs = throw no_fuel

-- The vector when `docs[page]` is assigned, where a vector can be resized to `capacity` pages, and
-- `resize` throws from there on. The sizes are compared as `std::int64_t`; for a page from 2 ^ 63 - 1 on
-- the addition overflows or the right one is not positive, and the access is out of bounds.
unfoldable pub grow {ℓ} : {W : Type ℓ} → ℕ → Pages W → ℕ → Result (Pages W)
grow capacity docs page =
    if ltb page (2 ^ 63 - 1)
    then (if ltb (length docs) (page + 1)
        then (if leb (page + 1) capacity then ok (resize docs (page + 1)) else throw runtime_error)
        else ok docs)
    else throw undefined

unfoldable pub filter_orders {ℓ} : {W : Type ℓ} → List (Order W) → List (Order W)
filter_orders docs = remove_if (λ o. o.volume == 0) docs

-- `time` is that of `parse_datetime`, `indeterminate` is what memory holds before it is written.
module _ {ℓ} {W : Type ℓ} (time : Text → Option ℕ) (indeterminate : Order W) where
  unfoldable pub convert_item : Item W → Result (Order W)
  convert_item (object members) = convert time indeterminate members
  convert_item no_object = throw runtime_error

  unfoldable pub convert_items : List (Item W) → Result (List (Order W))
  convert_items [] = ok []
  convert_items (i ∷ is) = do o ← convert_item i; os ← convert_items is; ok (o ∷ os)

  unfoldable pub convert_orders : Document W → Result (List (Order W))
  convert_orders unparsed = ok []
  convert_orders (items is) = convert_items is
  convert_orders no_items = throw assertion

  unfoldable pub read_page : Document W → Result (List (Order W))
  read_page d = convert_orders d >>= λ os. ok (filter_orders os)

  module _ (capacity : ℕ) where
    unfoldable pub read_entries : Pages W → List (Entry W) → Result (Pages W)
    read_entries docs [] = ok docs
    read_entries docs (e ∷ es) = elim (parse_file_name e.path) [
      | throw x ↦ caught x docs
      | ok none ↦ read_entries docs es
      | ok (some page) ↦ elim (grow capacity docs page) [
        | throw x ↦ caught x docs
        | ok docs' ↦ elim (read_page e.document) [
          | throw x ↦ caught x docs'
          | ok orders ↦ read_entries (set docs' page orders) es
        ]
      ]
    ]

    unfoldable pub read_orders : List (Entry W) → Result (Pages W)
    read_orders es = read_entries [] es >>= λ docs. ok (remove_if (λ doc. is_empty doc) docs)
