-- ===== src/Pricing/Codec/Bytes.antt =====
-- `std::memcpy` of an integer of w bytes, least significant byte first, and its inverse.
use native.Mathlib.Nat.{pow-suc}
use eve_industry_planner.Prelude.{
  ℕ, zero, suc, ◌+◌, ◌*◌, ◌/◌, ◌%◌, ◌^◌, ◌≤◌, ◌<◌, ◌≡◌, refl, List, [], ◌∷◌, ◌++◌, Option, none,
  some, arith, length,
}

infixl 5 ◌>>=◌
abbrev pub ◌>>=◌ {ℓ κ} : {A : Type ℓ} {B : Type κ} → Option A → (A → Option B) → Option B
none >>= f = none
some a >>= f = f a

unfoldable pub le_bytes : ℕ → ℕ → List ℕ
le_bytes zero v = []
le_bytes (suc w) v = (v % 256) ∷ le_bytes w (v / 256)

unfoldable pub read_le : ℕ → List ℕ → Option (ℕ × List ℕ)
read_le zero s = some (0, s)
read_le (suc w) [] = none
read_le (suc w) (b ∷ s) = do (v, s) ← read_le w s; some (b + 256 * v, s)

pub length-le_bytes : (w v : ℕ) → length (le_bytes w v) ≡ w
unfolding le_bytes
length-le_bytes zero v = refl
length-le_bytes (suc w) v = omega (arith, length-le_bytes w (v / 256))

-- What is written is read back, with whatever follows it left over.
pub read_le-le_bytes :
    (w v : ℕ) (s : List ℕ) → v < 256 ^ w → read_le w (le_bytes w v ++ s) ≡ some (v, s)
unfolding le_bytes read_le
read_le-le_bytes zero v s h = ground arith
read_le-le_bytes (suc w) v s h =
    let small : v / 256 < 256 ^ w = omega (arith, pow-suc 256 w) in
    rw (read_le-le_bytes w (v / 256) s small) (ground arith)

pub >>=-eq-some {ℓ κ} :
    {A : Type ℓ} {B : Type κ} (m : Option A) (f : A → Option B) {b : B}
    → (m >>= f) ≡ some b
    → (a : A) × (m ≡ some a) × (f a ≡ some b)
>>=-eq-some none f h = cc
>>=-eq-some (some a) f h = (a, refl, h)

-- A read takes as many bytes as it is asked for.
pub length-read_le :
    (w : ℕ) (s : List ℕ) {v : ℕ} {t : List ℕ} → read_le w s ≡ some (v, t) → length s ≡ w + length t
unfolding read_le
length-read_le zero s h = ground arith
length-read_le (suc w) [] h = cc
length-read_le (suc w) (b ∷ s) h =
    let ((v, t), e, f) = >>=-eq-some (read_le w s) _ h in ground (arith, length-read_le w s e)

-- A read that goes on with `f` leaves no more bytes than `f` does.
pub length-le_of_read {ℓ} :
    {A : Type ℓ} (w : ℕ) (s : List ℕ) (f : ℕ × List ℕ → Option (A × List ℕ)) {a : A} {t : List ℕ}
    → (read_le w s >>= f) ≡ some (a, t)
    → ((v : ℕ) (s' : List ℕ) → f (v, s') ≡ some (a, t) → length t ≤ length s')
    → length t ≤ length s
length-le_of_read w s f h rest =
    let ((v, s'), e, k) = >>=-eq-some (read_le w s) f h in
    omega (arith, length-read_le w s e, rest v s' k)
