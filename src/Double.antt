-- ===== src/Double.antt =====
-- All that the program does with a `double`: arithmetic, comparisons, decimal literals, `std::ceil`,
-- `std::fabs`, `std::llround`,
-- `std::to_string`, and the eight bytes that `std::memcpy` moves. There are no floating-point numbers
-- in the development: the modules take a type with these operations, and a theorem that needs more
-- than the operations names the law of IEEE 754 that it uses.
use eve_industry_planner.Prelude.{ℕ, ◌+◌, ◌*◌, ◌-◌, ◌/◌, ◌%◌, ◌^◌, ◌<◌, ◌≡◌, Bool, ltb, leb, ◌==◌}
use eve_industry_planner.Text.{Text, to_string}

pub record Double {ℓ} (W : Type ℓ) : Type ℓ where
  -- `literal m e` is the constant m / 10 ^ e of the source, rounded to a `double`.
  pub literal : ℕ → ℕ → W
  -- `double(n)` for an unsigned n
  pub of_nat : ℕ → W
  pub infinity : W
  pub neg : W → W
  pub plus : W → W → W
  pub minus : W → W → W
  pub times : W → W → W
  pub divide : W → W → W
  pub ceil : W → W
  pub lt : W → W → Bool
  pub le : W → W → Bool
  pub eq : W → W → Bool
  pub abs : W → W
  -- `std::llround`, converted to `std::size_t`
  pub llround : W → ℕ
  pub show : W → Text
  -- the object representation, as a 64-bit number
  pub bits : W → ℕ
  pub of_bits : ℕ → W

-- The eight bytes of a `double` determine it.
pub record IsBitwise {ℓ} (W : Type ℓ) ⦃d : Double W⦄ : Type ℓ where
  pub bits-lt : (w : W) → d.bits w < 2 ^ 64
  pub of_bits-bits : (w : W) → d.of_bits (d.bits w) ≡ w

-- A model of the operations and of their laws: whole numbers of hundredths, without a sign. It serves
-- the tests and the witnesses.
abbrev pub Cents : Type 0
Cents = ℕ

instance abbrev pub cents_double : Double ℕ
cents_double = record {
  literal = λ m e. m * 100 / 10 ^ e;
  of_nat = λ n. n * 100;
  infinity = 10 ^ 18;
  neg = λ a. a;
  plus = λ a b. a + b;
  minus = λ a b. a - b;
  times = λ a b. a * b / 100;
  divide = λ a b. a * 100 / b;
  ceil = λ a. (a + 99) / 100 * 100;
  lt = ltb;
  le = leb;
  eq = ◌==◌;
  abs = λ a. a;
  llround = λ a. (a + 50) / 100;
  show = λ a. to_string a;
  bits = λ a. a % 2 ^ 64;
  of_bits = λ n. n;
}
