-- ===== src/Pricing/Paths.antt =====
-- apps/pricing/file_system.cpp, and `parsePageNumber` and `parseFileName` of json_writer_util.cpp: the
-- names of files. `std::from_chars` reads the digits at the front of a text and fails where there is
-- none or where the number does not fit into 64 bits.
pub mod Names
use eve_industry_planner.Prelude.{
  ℕ, ◌+◌, ◌-◌, ◌*◌, ◌^◌, ◌%◌, Bool, true, false, ◌&&◌, Option, none, some, List, [], ◌∷◌, ltb, leb,
  ◌==◌, if◌then◌else◌, length, drop, Result, ok, throw, ◌>>=◌, or_throw, runtime_error,
}
use eve_industry_planner.Text.{Text, codes, text_eq}

unfoldable pub is_tgz : Text → Bool
is_tgz path = leb 4 (length path) && text_eq (drop (length path - 4) path) (codes ".tgz")

-- what stands behind the last '/'
unfoldable pub behind_slash : Text → Option Text
behind_slash [] = none
behind_slash (c ∷ s) = elim (behind_slash s) [
  | some rest ↦ some rest
  | none ↦ if c == b'/' then some s else none
]

-- The length of the directory, on `std::size_t`, and the rest behind the last '/'. The directory
-- begins where the path does.
unfoldable pub split_directory_and_basename : Text → ℕ × Text
split_directory_and_basename s = elim (behind_slash s) [
  | some rest ↦ ((length s + 2 ^ 64 - length rest - 1) % 2 ^ 64, rest)
  | none ↦ (2 ^ 64 - 1, s)
]

-- before and behind the first '.'
unfoldable pub split_extension : Text → Text × Text
split_extension [] = ([], [])
split_extension (c ∷ s) =
    let (before, behind) = split_extension s in if c == b'.' then ([], s) else (c ∷ before, behind)

abbrev pub is_digit : ℕ → Bool
is_digit c = leb b'0' c && leb c b'9'

unfoldable pub read_digits : ℕ → Text → ℕ
read_digits n [] = n
read_digits n (c ∷ s) =
    let more = read_digits (n * 10 + (c - b'0')) s in if is_digit c then more else n

abbrev pub starts_with_digit : Text → Bool
starts_with_digit [] = false
starts_with_digit (c ∷ s) = is_digit c

unfoldable pub from_chars : Text → Option ℕ
from_chars s =
    let n = read_digits 0 s in
    if starts_with_digit s then (if ltb n (2 ^ 64) then some n else none) else none

unfoldable pub parse_page_number : Text → Result ℕ
parse_page_number f = or_throw (from_chars f) runtime_error

unfoldable pub parse_file_name : Text → Result (Option ℕ)
parse_file_name path =
    let (name, extension) = split_extension (split_directory_and_basename path).1 in
    if text_eq extension (codes "json")
    then (parse_page_number name >>= λ n. ok (some n))
    else ok none
