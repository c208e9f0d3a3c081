-- ===== src/Pricing/Paths/Names.antt =====
-- The names of the pages of an archive, and what json_writer_util.cpp and file_system.cpp of
-- apps/pricing find in them.
use mathlib.Core.List.{append-nil}
use eve_industry_planner.Prelude.{
  ℕ, zero, suc, ◌+◌, ◌-◌, ◌*◌, ◌/◌, ◌%◌, ◌^◌, ◌<◌, ◌≤◌, ◌≡◌, refl, sym, ap, ◌∙◌, true, false, none,
  some, [], ◌∷◌, ◌++◌, arith, ltb, length, length-append, All, ok, Bool-cases, inl, inr,
}
use eve_industry_planner.Text.{Text, codes, to_string, text_eq_refl, digits, to_string-eq-digits}
use eve_industry_planner.Pricing.Paths.{
  behind_slash, split_directory_and_basename, split_extension, is_digit, starts_with_digit,
  read_digits, from_chars, parse_page_number, parse_file_name,
}

abbrev AreDigits : Text → Type 0
AreDigits s = All (λ c. is_digit c ≡ true) s

digits_behind :
    (s : Text)
    → AreDigits s
    → (rest : Text) → behind_slash rest ≡ none
    → behind_slash (s ++ rest) ≡ none
unfolding behind_slash
digits_behind [] d rest h = h
digits_behind (c ∷ s) (a, d) rest h = ground (arith, digits_behind s d rest h)

pub behind_slash-append :
    (directory name : Text)
    → behind_slash name ≡ none
    → behind_slash (directory ++ (b'/' ∷ name)) ≡ some name
unfolding behind_slash
behind_slash-append [] name h = rw h refl
behind_slash-append (c ∷ s) name h = rw (behind_slash-append s name h) refl

-- The parts that a path is split into make up the path.
pub split_directory-append :
    (directory name : Text)
    → behind_slash name ≡ none
    → length (directory ++ (b'/' ∷ name)) < 2 ^ 64
    → split_directory_and_basename (directory ++ (b'/' ∷ name)) ≡ (length directory, name)
unfolding split_directory_and_basename
split_directory-append directory name h l =
    rw (behind_slash-append directory name h, split_directory_and_basename)
      (ground (arith, length-append directory (b'/' ∷ name)))

digits_split : (s ext : Text) → AreDigits s → split_extension (s ++ (b'.' ∷ ext)) ≡ (s, ext)
unfolding split_extension
digits_split [] ext d = refl
digits_split (c ∷ s) ext (a, d) = rw (digits_split s ext d) (ground arith)

digits-AreDigits : (fuel n : ℕ) (out : Text) → AreDigits out → AreDigits (digits fuel n out)
unfolding digits
digits-AreDigits zero n out d = d
digits-AreDigits (suc fuel) n out d = elim (Bool-cases (ltb n 10)) [
  | inl e ↦ rw (e, digits) (ground arith, d)
  | inr e ↦
      rw (e, digits) (digits-AreDigits fuel (n / 10) ((b'0' + n % 10) ∷ out) (ground arith, d))
]

length-digits : (fuel n : ℕ) (out : Text) → length out ≤ length (digits fuel n out)
unfolding digits
length-digits zero n out = omega arith
length-digits (suc fuel) n out = ground (arith, length-digits fuel (n / 10) ((b'0' + n % 10) ∷ out))

digits-pos : (fuel n : ℕ) → 0 < length (digits (suc fuel) n [])
unfolding digits
digits-pos fuel n = ground (arith, length-digits fuel (n / 10) ((b'0' + n % 10) ∷ []))

digits_start : (s rest : Text) → AreDigits s → 0 < length s → starts_with_digit (s ++ rest) ≡ true
digits_start [] rest d h = absurd (omega arith)
digits_start (c ∷ s) rest (a, d) h = a

last_digit : (n : ℕ) (out : Text) → read_digits (n / 10) ((b'0' + n % 10) ∷ out) ≡ read_digits n out
unfolding read_digits
last_digit n out =
    let e : n / 10 * 10 + (b'0' + n % 10 - b'0') ≡ n = omega arith in
    ground (arith, ap (λ (m : ℕ). read_digits m out) e)

read_digits-digits :
    (fuel n : ℕ) (out : Text)
    → n < 10 ^ fuel
    → read_digits 0 (digits fuel n out) ≡ read_digits n out
unfolding digits
read_digits-digits zero n out h = let e : n ≡ 0 = omega arith in rw e refl
read_digits-digits (suc fuel) n out h = elim (Bool-cases (ltb n 10)) [
  | inl e ↦
      rw (e, digits)
        (let z : n / 10 ≡ 0 = ground arith in
          (ap (λ (m : ℕ). read_digits m ((b'0' + n % 10) ∷ out)) (sym z)) ∙ last_digit n out)
  | inr e ↦
      rw (e, digits)
        (read_digits-digits fuel (n / 10) ((b'0' + n % 10) ∷ out) (omega arith) ∙ last_digit n out)
]

-- The digits end where something else begins.
read_digits-append :
    (s rest : Text) (n : ℕ)
    → AreDigits s
    → starts_with_digit rest ≡ false
    → read_digits n (s ++ rest) ≡ read_digits n s
unfolding read_digits
read_digits-append [] [] n d h = refl
read_digits-append [] (c ∷ rest) n d h = ground arith
read_digits-append (c ∷ s) rest n (a, d) h =
    ground (arith, read_digits-append s rest (n * 10 + (c - b'0')) d h)

to_string-AreDigits : (n : ℕ) → AreDigits (to_string n)
to_string-AreDigits n = rw (to_string-eq-digits n) (digits-AreDigits 20 n [] tt)

to_string-pos : (n : ℕ) → 0 < length (to_string n)
to_string-pos n = rw (to_string-eq-digits n) (digits-pos 19 n)

read_digits-to_string : (n : ℕ) → n < 2 ^ 64 → read_digits 0 (to_string n) ≡ n
unfolding read_digits
read_digits-to_string n h =
    rw (to_string-eq-digits n) (read_digits-digits 20 n [] (omega arith) ∙ nothing_left n)
  where
    nothing_left : (m : ℕ) → read_digits m [] ≡ m
    nothing_left m = refl

from_chars-to_string : (n : ℕ) → n < 2 ^ 64 → from_chars (to_string n) ≡ some n
unfolding from_chars
from_chars-to_string n h = ground (
  arith,
  read_digits-to_string n h,
  digits_start (to_string n) [] (to_string-AreDigits n) (to_string-pos n),
  append-nil (to_string n),
)

no_slash : (n : ℕ) → behind_slash (to_string n ++ codes ".json") ≡ none
unfolding behind_slash
no_slash n = digits_behind (to_string n) (to_string-AreDigits n) (codes ".json") ends
  where
    ends : behind_slash (codes ".json") ≡ none
    ends = ground arith

basename-append :
    (directory name : Text)
    → behind_slash name ≡ none
    → (split_directory_and_basename (directory ++ (b'/' ∷ name))).1 ≡ name
unfolding split_directory_and_basename
basename-append directory name h =
    rw (behind_slash-append directory name h, split_directory_and_basename) refl

-- The path of a file that is named by a number below 2 ^ 64 in decimal and the extension json is
-- parsed as this number, in every directory.
pub parse_file_name-to_string :
    (directory : Text) (n : ℕ)
    → n < 2 ^ 64
    → parse_file_name (directory ++ (b'/' ∷ (to_string n ++ codes ".json"))) ≡ ok (some n)
unfolding parse_file_name parse_page_number
parse_file_name-to_string directory n h =
    rw
      (
        basename-append directory _ (no_slash n),
        digits_split (to_string n) (codes "json") (to_string-AreDigits n),
        text_eq_refl (codes "json"),
        from_chars-to_string n h,
      )
      refl
