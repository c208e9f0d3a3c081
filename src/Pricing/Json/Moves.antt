-- ===== src/Pricing/Json/Moves.antt =====
-- The cases of the `switch` in `convert` of apps/pricing/read_json_order.cpp, for two states of the
-- order at once.
use eve_industry_planner.Prelude.{
  ℕ, ◌^◌, ◌<◌, ◌≡◌, refl, Bool, true, false, Option, arith, Result, ok, throw, ◌>>=◌, if◌then◌else◌,
  length, ◌==◌,
}
use eve_industry_planner.Text.{Text}
use eve_industry_planner.Pricing.Order.{Order}
use eve_industry_planner.Pricing.Json.{
  Value, boolean, unsigned, real, string, other, Converted, first_byte, range_to_int8, get_uint64,
  get_uint, get_bool, get_double, get_string, parse_datetime, store, write_member, read_member,
}

range-lt : (s : Text) → range_to_int8 s < 2 ^ 8
unfolding range_to_int8
range-lt s = ground arith

datetime-lt :
    (time : Text → Option ℕ) (m : Result Text) {n : ℕ}
    → (m >>= parse_datetime time) ≡ ok n
    → n < 2 ^ 32
unfolding parse_datetime
datetime-lt time (ok s) h = ground arith
datetime-lt time (throw e) h = cc

module _ {ℓ} {W : Type ℓ} where
  abbrev pub Both : (c d c' d' : Converted W) → ℕ → (Order W → Order W) → Type ℓ
  Both c d c' d' k f = (c' ≡ store k (f c.order) c) × (d' ≡ store k (f d.order) d)

  -- One member has been read, with the same value into both.
  pub data Move (c d c' d' : Converted W) : Type ℓ where
    wrote_id : (n : ℕ) → n < 2 ^ 64 → Both c d c' d' 0 (λ o. record o { id = n }) → Move c d c' d'
    wrote_buy : (n : ℕ) → n < 2 → Both c d c' d' 1 (λ o. record o { buy = n }) → Move c d c' d'
    wrote_type :
        (n : ℕ) → n < 2 ^ 32 → Both c d c' d' 2 (λ o. record o { type = n }) → Move c d c' d'
    wrote_price : (x : W) → Both c d c' d' 3 (λ o. record o { price = x }) → Move c d c' d'
    wrote_range :
        (n : ℕ) → n < 2 ^ 8 → Both c d c' d' 4 (λ o. record o { range = n }) → Move c d c' d'
    wrote_issued :
        (n : ℕ) → n < 2 ^ 32 → Both c d c' d' 5 (λ o. record o { issued = n }) → Move c d c' d'
    wrote_volume :
        (n : ℕ) → n < 2 ^ 32 → Both c d c' d' 6 (λ o. record o { volume = n }) → Move c d c' d'
    wrote_duration :
        (n : ℕ) → n < 2 ^ 32 → Both c d c' d' 7 (λ o. record o { duration = n }) → Move c d c' d'
    wrote_station :
        (n : ℕ) → n < 2 ^ 64 → Both c d c' d' 8 (λ o. record o { station_id = n }) → Move c d c' d'
    wrote_min_volume :
        (n : ℕ) → n < 2 ^ 32 → Both c d c' d' 9 (λ o. record o { min_volume = n }) → Move c d c' d'
    wrote_entered :
        (n : ℕ)
        → n < 2 ^ 32
        → Both c d c' d' 10 (λ o. record o { volume_entered = n })
        → Move c d c' d'

  uint64-lt : (v : Value W) {n : ℕ} → get_uint64 v ≡ ok n → n < 2 ^ 64
  unfolding get_uint64
  uint64-lt (unsigned m) h = ground arith
  uint64-lt (boolean b) h = cc
  uint64-lt (real x) h = cc
  uint64-lt (string s) h = cc
  uint64-lt other h = cc

  uint-lt : (v : Value W) {n : ℕ} → get_uint v ≡ ok n → n < 2 ^ 32
  unfolding get_uint
  uint-lt (unsigned m) h = ground arith
  uint-lt (boolean b) h = cc
  uint-lt (real x) h = cc
  uint-lt (string s) h = cc
  uint-lt other h = cc

  bool-lt : (v : Value W) {n : ℕ} → get_bool v ≡ ok n → n < 2
  unfolding get_bool
  bool-lt (boolean true) h = ground arith
  bool-lt (boolean false) h = ground arith
  bool-lt (unsigned m) h = cc
  bool-lt (real x) h = cc
  bool-lt (string s) h = cc
  bool-lt other h = cc

  abbrev Moves : Converted W → Converted W → Converted W → Result (Converted W) → Type ℓ
  Moves c d c' m = (d' : Converted W) × (m ≡ ok d') × Move c d c' d'

  leaf {κ} :
      {A : Type κ} (k : ℕ) (m : Result A) (f : A → Order W → Order W) (c d : Converted W)
      {c' : Converted W}
      → ((a : A) (d' : Converted W) → m ≡ ok a → Both c d c' d' k (f a) → Move c d c' d')
      → write_member k m f c ≡ ok c'
      → Moves c d c' (write_member k m f d)
  unfolding write_member
  leaf k (ok a) f c d g h = (store k (f a d.order) d, refl, g a _ refl (ground arith, refl))
  leaf k (throw e) f c d g h = absurd (ground arith)

  branch :
      (b : Bool) (f g : Converted W → Result (Converted W)) (c d : Converted W) {c' : Converted W}
      → (f c ≡ ok c' → Moves c d c' (f d))
      → (g c ≡ ok c' → Moves c d c' (g d))
      → (if b then f else g) c ≡ ok c'
      → Moves c d c' ((if b then f else g) d)
  branch true f g c d p q = p
  branch false f g c d p q = q

  pub read_member-Moves :
      (time : Text → Option ℕ) (name : Text) (v : Value W) (c d : Converted W) {c' : Converted W}
      → read_member time name v c ≡ ok c'
      → Moves c d c' (read_member time name v d)
  unfolding read_member
  read_member-Moves time name v c d {c' = c'} =
      branch (length name == 2) _ _ c d
        (leaf 0 (get_uint64 v) _ c d (λ n d' q. wrote_id n (uint64-lt v q)))
        (branch (length name == 3) _ _ c d
          (leaf 1 (get_bool v) _ c d (λ n d' q. wrote_buy n (bool-lt v q)))
          (branch (length name == 4) _ _ c d
            (leaf 2 (get_uint v) _ c d (λ n d' q. wrote_type n (uint-lt v q)))
            (branch (length name == 5) _ _ c d
              (branch (first_byte name == b'p') _ _ c d
                (leaf 3 (get_double v) _ c d (λ x d' q. wrote_price x))
                (leaf 4 (get_string v) _ c d
                  (λ s d' q. wrote_range (range_to_int8 s) (range-lt s))))
              (branch (length name == 6) _ _ c d
                (branch (first_byte name == b'i') _ _ c d
                  (leaf 5 (get_string v >>= parse_datetime time) _ c d
                    (λ n d' q. wrote_issued n (datetime-lt time (get_string v) q)))
                  (leaf 6 (get_uint v) _ c d (λ n d' q. wrote_volume n (uint-lt v q))))
                (branch (length name == 8) _ _ c d
                  (leaf 7 (get_uint v) _ c d (λ n d' q. wrote_duration n (uint-lt v q)))
                  (branch (length name == 9) _ _ c d
                    (branch (first_byte name == b's') _ _ c d
                      (leaf 8 (get_uint64 v) _ c d (λ n d' q. wrote_station n (uint64-lt v q)))
                      (leaf 9 (get_uint v) _ c d (λ n d' q. wrote_min_volume n (uint-lt v q))))
                    (leaf 10 (get_uint v) _ c d (λ n d' q. wrote_entered n (uint-lt v q)))))))))
