-- ===== src/Prelude/Lists.antt =====
-- Lists measured and indexed by native numbers, under the library's names.
use Prim.Native.Nat.{ℕ, zero, suc, ◌+◌, ◌<◌, ◌≤◌}
use mathlib.Core.Path.{◌≡◌, refl, ap}
use mathlib.Core.Logic.{◌≢◌, ◌⊎◌, inl, inr}
use mathlib.Core.Bool.{Bool, false, ◌||◌}
use mathlib.Core.List.{List, [], ◌∷◌, ◌++◌}
use mathlib.Core.Option.{Option, none, some}
use native.Mathlib.Omega.{arith}
use eve_industry_planner.Prelude.Tests.{if◌then◌else◌, Bool-cases}

module _ {ℓ} {A : Type ℓ} where
  abbrev pub length : List A → ℕ
  length [] = 0
  length (x ∷ xs) = suc (length xs)

  abbrev pub get_elem? : List A → ℕ → Option A
  get_elem? [] i = none
  get_elem? (x ∷ xs) zero = some x
  get_elem? (x ∷ xs) (suc i) = get_elem? xs i

  -- A write out of bounds changes nothing.
  abbrev pub set : List A → ℕ → A → List A
  set [] i v = []
  set (x ∷ xs) zero v = v ∷ xs
  set (x ∷ xs) (suc i) v = x ∷ set xs i v

  abbrev pub take : ℕ → List A → List A
  take zero xs = []
  take (suc n) [] = []
  take (suc n) (x ∷ xs) = x ∷ take n xs

  abbrev pub drop : ℕ → List A → List A
  drop zero xs = xs
  drop (suc n) [] = []
  drop (suc n) (x ∷ xs) = drop n xs

  abbrev pub replicate : ℕ → A → List A
  replicate zero a = []
  replicate (suc n) a = a ∷ replicate n a

  -- A predicate on every entry; it computes to a tuple.
  abbrev pub All {κ} : (A → Type κ) → List A → Type κ
  All P [] = Unit
  All P (x ∷ xs) = P x × All P xs

  -- `std::remove_if` and `erase`: what does not pass the test stays, in its order.
  abbrev pub remove_if : (A → Bool) → List A → List A
  remove_if p [] = []
  remove_if p (x ∷ xs) = if p x then remove_if p xs else x ∷ remove_if p xs

  abbrev pub any_of : (A → Bool) → List A → Bool
  any_of p [] = false
  any_of p (x ∷ xs) = p x || any_of p xs

  pub length-append : (xs ys : List A) → length (xs ++ ys) ≡ length xs + length ys
  length-append [] ys = omega arith
  length-append (x ∷ xs) ys = omega (arith, length-append xs ys)

  pub length-set : (xs : List A) (i : ℕ) (v : A) → length (set xs i v) ≡ length xs
  length-set [] i v = refl
  length-set (x ∷ xs) zero v = refl
  length-set (x ∷ xs) (suc i) v = ap suc (length-set xs i v)

  pub get_elem?-set_self :
      (xs : List A) (i : ℕ) (v : A) → i < length xs → get_elem? (set xs i v) i ≡ some v
  get_elem?-set_self [] i v h = elim h [ ]
  get_elem?-set_self (x ∷ xs) zero v h = refl
  get_elem?-set_self (x ∷ xs) (suc i) v h = get_elem?-set_self xs i v (omega arith)

  pub get_elem?-set_ne :
      (xs : List A) (i j : ℕ) (v : A) → i ≢ j → get_elem? (set xs i v) j ≡ get_elem? xs j
  get_elem?-set_ne [] i j v h = refl
  get_elem?-set_ne (x ∷ xs) zero zero v h = absurd (h refl)
  get_elem?-set_ne (x ∷ xs) zero (suc j) v h = refl
  get_elem?-set_ne (x ∷ xs) (suc i) zero v h = refl
  get_elem?-set_ne (x ∷ xs) (suc i) (suc j) v h = get_elem?-set_ne xs i j v (λ e. h (ap suc e))

  pub get_elem?_in_range :
      (xs : List A) (i : ℕ) → i < length xs → (x : A) × (get_elem? xs i ≡ some x)
  get_elem?_in_range [] i h = elim h [ ]
  get_elem?_in_range (x ∷ xs) zero h = (x, refl)
  get_elem?_in_range (x ∷ xs) (suc i) h = get_elem?_in_range xs i (omega arith)

  pub lt-length_of_get_elem? :
      (xs : List A) (i : ℕ) {x : A} → get_elem? xs i ≡ some x → i < length xs
  lt-length_of_get_elem? [] i e = cc
  lt-length_of_get_elem? (y ∷ xs) zero e = omega arith
  lt-length_of_get_elem? (y ∷ xs) (suc i) e = omega (arith, lt-length_of_get_elem? xs i e)

  pub get_elem?-append_left :
      (xs ys : List A) (i : ℕ) (x : A) → get_elem? xs i ≡ some x → get_elem? (xs ++ ys) i ≡ some x
  get_elem?-append_left [] ys i x e = cc
  get_elem?-append_left (z ∷ xs) ys zero x e = e
  get_elem?-append_left (z ∷ xs) ys (suc i) x e = get_elem?-append_left xs ys i x e

  pub get_elem?-append_end :
      (xs : List A) (y : A) (n : ℕ) → length xs ≡ n → get_elem? (xs ++ (y ∷ [])) n ≡ some y
  get_elem?-append_end [] y n e = rw (← e)
  get_elem?-append_end (z ∷ xs) y n e = rw (← e) (get_elem?-append_end xs y (length xs) refl)

  pub take-length_append : (xs ys : List A) → take (length xs) (xs ++ ys) ≡ xs
  take-length_append [] ys = refl
  take-length_append (x ∷ xs) ys = ap (◌∷◌ x) (take-length_append xs ys)

  pub drop-length_append : (xs ys : List A) → drop (length xs) (xs ++ ys) ≡ ys
  drop-length_append [] ys = refl
  drop-length_append (x ∷ xs) ys = drop-length_append xs ys

  pub length-take_of_le : (n : ℕ) (xs : List A) → n ≤ length xs → length (take n xs) ≡ n
  length-take_of_le zero xs h = refl
  length-take_of_le (suc n) [] h = absurd (omega arith)
  length-take_of_le (suc n) (x ∷ xs) h = ap suc (length-take_of_le n xs (omega arith))

  pub All-append {κ} : (P : A → Type κ) (xs ys : List A) → All P xs → All P ys → All P (xs ++ ys)
  All-append P [] ys p q = q
  All-append P (x ∷ xs) ys p q = (p.0, All-append P xs ys p.1 q)

  pub All-get_elem? {κ} :
      (P : A → Type κ) (xs : List A) (i : ℕ) (x : A) → All P xs → get_elem? xs i ≡ some x → P x
  All-get_elem? P [] i x p e = cc
  All-get_elem? P (y ∷ xs) zero x p e = ground (arith, p.0)
  All-get_elem? P (y ∷ xs) (suc i) x p e = All-get_elem? P xs i x p.1 e

  -- Nothing that passes the test is left.
  pub All-remove_if : (p : A → Bool) (xs : List A) → All (λ x. p x ≡ false) (remove_if p xs)
  All-remove_if p [] = tt
  All-remove_if p (x ∷ xs) = elim (Bool-cases (p x)) [
    | inl e ↦ rw e (All-remove_if p xs)
    | inr e ↦ rw e (e, All-remove_if p xs)
  ]

  pub remove_if_none :
      (p : A → Bool) (xs : List A) → All (λ x. p x ≡ false) xs → remove_if p xs ≡ xs
  remove_if_none p [] h = refl
  remove_if_none p (x ∷ xs) h = rw h.0 (ap (◌∷◌ x) (remove_if_none p xs h.1))

  -- An element of a list with one more at the end, or with one replaced, is an old or the new one.
  pub get_elem?-append_cases :
      (xs : List A) (y : A) (k : ℕ) (z : A)
      → get_elem? (xs ++ (y ∷ [])) k ≡ some z
      → (get_elem? xs k ≡ some z) ⊎ ((k ≡ length xs) × (z ≡ y))
  get_elem?-append_cases [] y zero z e = inr (refl, cc)
  get_elem?-append_cases [] y (suc k) z e = absurd (cc e)
  get_elem?-append_cases (x ∷ xs) y zero z e = inl e
  get_elem?-append_cases (x ∷ xs) y (suc k) z e = elim (get_elem?-append_cases xs y k z e) [
    | inl h ↦ inl h
    | inr (h, g) ↦ inr (ap suc h, g)
  ]

  pub get_elem?-set_cases :
      (xs : List A) (i j : ℕ) (v x : A)
      → get_elem? (set xs i v) j ≡ some x
      → ((i ≡ j) × (x ≡ v)) ⊎ ((i ≢ j) × (get_elem? xs j ≡ some x))
  get_elem?-set_cases [] i j v x e = absurd (cc e)
  get_elem?-set_cases (y ∷ xs) zero zero v x e = inl (refl, cc)
  get_elem?-set_cases (y ∷ xs) zero (suc j) v x e = inr ((λ h. absurd (cc h)), e)
  get_elem?-set_cases (y ∷ xs) (suc i) zero v x e = inr ((λ h. absurd (cc h)), e)
  get_elem?-set_cases (y ∷ xs) (suc i) (suc j) v x e = elim (get_elem?-set_cases xs i j v x e) [
    | inl (h, g) ↦ inl (ap suc h, g)
    | inr (h, g) ↦ inr ((λ f. h (omega (arith, f))), g)
  ]
