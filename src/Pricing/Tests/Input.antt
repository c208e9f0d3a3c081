-- ===== src/Pricing/Tests/Input.antt =====
-- The theorems about what apps/pricing reads, at a concrete order, page and directory.
use mathlib.Core.List.Permᴰ.{swap}
use eve_industry_planner.Prelude.{
  ℕ, ◌^◌, ◌<◌, ◌≡◌, refl, Bool, Option, some, List, [], ◌∷◌, ◌++◌, ◌-◌, All, arith, ok, remove_if,
  throw, runtime_error,
}
use eve_industry_planner.Text.{Text, codes, to_string}
use eve_industry_planner.Pricing.Order.{Order}
use eve_industry_planner.Pricing.Json.{Value, unsigned, range_to_int8, convert}
use eve_industry_planner.Pricing.Json.Fresh.{convert_fresh}
use eve_industry_planner.Pricing.Json.Members.{members_of, members_with, convert-members}
use eve_industry_planner.Pricing.Paths.{parse_file_name}
use eve_industry_planner.Pricing.Paths.Names.{parse_file_name-to_string}
use eve_industry_planner.Pricing.Pages.{
  Entry, items, object, is_empty, read_orders, read_entries, grow, resize, read_page,
  convert_orders, convert_items, convert_item, filter_orders,
}
use eve_industry_planner.Pricing.Pages.Placed.{
  IsReadable, page_at, last_of, pages_read, read_orders-placed,
}
use eve_industry_planner.Pricing.Pages.Ready.{IsPage, read_orders-IsPage}
use eve_industry_planner.Pricing.Writer.Write.{write}
use eve_industry_planner.Pricing.Writer.Write.Listing.{write-Perm}
use eve_industry_planner.Pricing.Tests.{flag_double, sale, sale-IsOrder, unused, fresh}

abbrev date : Text
date = codes "2016-12-01T00:05:13"

abbrev time : Text → Option ℕ
time s = some 1480550713

abbrev members : List (Text × Value Bool)
members = members_of sale (codes "station") date

station_range : range_to_int8 (codes "station") ≡ 253
unfolding range_to_int8
station_range = refl

members-sale : (o : Order Bool) → convert time o members ≡ ok sale
members-sale o =
    (convert-members time sale (codes "station") date sale-IsOrder station_range refl o 5).0

convert-members_example :
    (convert time unused (members_of sale (codes "station") date) ≡ ok sale)
    × (convert time unused (members_with (unsigned 5) sale (codes "station") date)
        ≡ throw runtime_error)
convert-members_example =
    convert-members time sale (codes "station") date sale-IsOrder station_range refl unused 5

convert_fresh_example : convert time sale members ≡ ok sale
convert_fresh_example = convert_fresh time unused sale members (members-sale unused)

parse_file_name-to_string_example :
    parse_file_name (codes "orders" ++ (b'/' ∷ (to_string 8 ++ codes ".json"))) ≡ ok (some 8)
parse_file_name-to_string_example = parse_file_name-to_string (codes "orders") 8 (omega arith)

abbrev page : Entry Bool
page = record {
  path = codes "orders" ++ (b'/' ∷ (to_string 1 ++ codes ".json"));
  document = items (object members ∷ []);
}

page_number : parse_file_name page.path ≡ ok (some 1)
page_number = parse_file_name-to_string (codes "orders") 1 (omega arith)

page_small : (p : ℕ) → parse_file_name page.path ≡ ok (some p) → p < 2 ^ 63 - 1
page_small p e = let q : 1 ≡ p = cc (page_number, e) in omega (arith, q)

pages-AreReadable : All (IsReadable time unused 100) (page ∷ [])
pages-AreReadable = (record { small = page_small; parsed = λ e. absurd (cc e) }, tt)

read_orders-placed_example :
    (docs : List (List (Order Bool))) × (read_orders time unused 100 (page ∷ [])
      ≡ ok (remove_if (λ doc. is_empty doc) docs))
    × ((p : ℕ) → page_at docs p ≡ last_of p [] (pages_read time unused 100 (page ∷ [])))
read_orders-placed_example = read_orders-placed time unused 100 (page ∷ []) pages-AreReadable

page_read : read_orders time unused 100 (page ∷ []) ≡ ok ((sale ∷ []) ∷ [])
unfolding read_orders read_entries grow resize read_page convert_orders convert_items convert_item
    filter_orders
page_read = rw (page_number, read_entries) (rw (members-sale unused, convert_item) refl)

read_orders-IsPage_example : All IsPage ((sale ∷ []) ∷ [])
read_orders-IsPage_example = read_orders-IsPage time unused 100 (page ∷ []) page_read

abbrev archive_a : Text
archive_a = codes "a.tgz"

abbrev archive_b : Text
archive_b = codes "b.tgz"

write-Perm_example :
    write time time unused 100 (λ path. page ∷ []) fresh (archive_a ∷ archive_b ∷ [])
    ≡ write time time unused 100 (λ path. page ∷ []) fresh (archive_b ∷ archive_a ∷ [])
write-Perm_example =
    write-Perm time time unused 100 (λ path. page ∷ []) fresh (archive_a ∷ archive_b ∷ [])
      (archive_b ∷ archive_a ∷ []) (swap refl refl)
