-- ===== src/Text.antt =====
-- `std::string` as the list of its bytes, and `std::to_string` of an unsigned number.
use Prim.Native.Char.{code}
use Prim.Native.String.{String}
use eve_industry_planner.Prelude.{
  ℕ, zero, suc, ◌+◌, ◌/◌, ◌%◌, ◌≡◌, refl, Bool, true, false, ◌&&◌, List, [], ◌∷◌, arith, ltb, ◌==◌,
  if◌then◌else◌,
}

abbrev pub Text : Type 0
Text = List ℕ

-- A string literal of the source.
abbrev pub codes : String → Text
codes String.[] = []
codes (String.◌∷◌ first rest) = code first ∷ codes rest

-- `==` on strings
unfoldable pub text_eq : Text → Text → Bool
text_eq [] [] = true
text_eq [] (y ∷ ys) = false
text_eq (x ∷ xs) [] = false
text_eq (x ∷ xs) (y ∷ ys) = x == y && text_eq xs ys

unfoldable pub digits : ℕ → ℕ → Text → Text
digits zero n out = out
digits (suc fuel) n out =
    let last = (b'0' + n % 10) ∷ out in
    let rest = digits fuel (n / 10) last in if ltb n 10 then last else rest

-- Twenty digits are enough for 64 bits.
unfoldable pub to_string : ℕ → Text
unfolding digits
to_string n = digits 20 n []

pub to_string-eq-digits : (n : ℕ) → to_string n ≡ digits 20 n []
unfolding to_string
to_string-eq-digits n = refl

to_string_runs : to_string 34203 ≡ codes "34203"
unfolding to_string
to_string_runs = refl

pub text_eq_iff : (xs ys : Text) → text_eq xs ys ≡ true → xs ≡ ys
unfolding text_eq
text_eq_iff [] [] h = refl
text_eq_iff [] (y ∷ ys) h = cc
text_eq_iff (x ∷ xs) [] h = cc
text_eq_iff (x ∷ xs) (y ∷ ys) h = ground (arith, text_eq_iff xs ys)

pub text_eq_refl : (xs : Text) → text_eq xs xs ≡ true
unfolding text_eq
text_eq_refl [] = refl
text_eq_refl (x ∷ xs) = ground (arith, text_eq_refl xs)
