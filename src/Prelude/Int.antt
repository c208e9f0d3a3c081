-- ===== src/Prelude/Int.antt =====
-- `std::int64_t` as an integer: its sum with an unsigned number, its difference, and its tests.
use Prim.Native.Nat.{ℕ, suc, ◌+◌, ◌-◌, ◌≤◌}
use mathlib.Core.Bool.{Bool}
use eve_industry_planner.Prelude.Tests.{leb, if◌then◌else◌}

-- `negsuc n` is -(n + 1).
pub data ℤ : Type 0 where
  pos : ℕ → ℤ
  negsuc : ℕ → ℤ

abbrev pub pos_part : ℤ → ℕ
pos_part (pos n) = n
pos_part (negsuc n) = 0

abbrev pub neg_part : ℤ → ℕ
neg_part (pos n) = 0
neg_part (negsuc n) = suc n

-- a - b, as an integer.
abbrev pub sub_ℕ : ℕ → ℕ → ℤ
sub_ℕ a b = if leb b a then pos (a - b) else negsuc (b - a - 1)

unfoldable pub add : ℤ → ℕ → ℤ
add z n = sub_ℕ (pos_part z + n) (neg_part z)

unfoldable pub sub : ℤ → ℕ → ℤ
sub z n = sub_ℕ (pos_part z) (neg_part z + n)

-- `n <= z` for an n that is not negative
abbrev pub nat_leb : ℕ → ℤ → Bool
nat_leb n z = leb (n + neg_part z) (pos_part z)

abbrev pub NatLe : ℕ → ℤ → Type 0
NatLe n z = n + neg_part z ≤ pos_part z
