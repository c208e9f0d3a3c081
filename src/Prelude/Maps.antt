-- ===== src/Prelude/Maps.antt =====
-- `std::unordered_map` and `std::unordered_set` as association lists and lists. The order in which
-- a loop visits such a map is the list's; no theorem depends on which order that is.
use Prim.Native.Nat.{ℕ}
use mathlib.Core.Path.{◌≡◌, refl}
use mathlib.Core.Logic.{◌≢◌, ◌⊎◌}
use mathlib.Core.Bool.{Bool, false, ◌||◌}
use mathlib.Core.List.{List, [], ◌∷◌}
use mathlib.Core.Option.{Option, none, some}
use native.Mathlib.Omega.{arith}
use eve_industry_planner.Prelude.Tests.{if◌then◌else◌, ◌==◌}

-- Keys are compared by a test, since `==` on a key that holds a `double` has no laws.
module _ {ℓ κ} {K : Type ℓ} {V : Type κ} (same : K → K → Bool) where
  unfoldable pub lookup_by : K → List (K × V) → Option V
  lookup_by k [] = none
  lookup_by k ((j, v) ∷ m) = if same j k then some v else lookup_by k m

  unfoldable pub insert_by : K → V → List (K × V) → List (K × V)
  insert_by k v [] = (k, v) ∷ []
  insert_by k v ((j, w) ∷ m) = if same j k then (k, v) ∷ m else (j, w) ∷ insert_by k v m

-- What is found after a key was added that was not there: the new value, or what was found before.
pub lookup_by-insert_by_new {ℓ κ} :
    {K : Type ℓ} {V : Type κ} (same : K → K → Bool) (k j : K) (v w : V) (m : List (K × V))
    → lookup_by same k m ≡ none
    → lookup_by same j (insert_by same k v m) ≡ some w
    → (w ≡ v) ⊎ (lookup_by same j m ≡ some w)
unfolding lookup_by insert_by
lookup_by-insert_by_new same k j v w [] n h = ground arith
lookup_by-insert_by_new same k j v w ((i, x) ∷ m) n h =
    ground (arith, lookup_by-insert_by_new same k j v w m)

module _ {ℓ} {V : Type ℓ} where
  -- `find`
  unfoldable pub lookup : ℕ → List (ℕ × V) → Option V
  lookup k [] = none
  lookup k ((j, v) ∷ m) = if j == k then some v else lookup k m

  -- `m[k] = v`
  unfoldable pub insert : ℕ → V → List (ℕ × V) → List (ℕ × V)
  insert key value [] = (key, value) ∷ []
  insert key value ((k, old) ∷ rest) =
      if k == key then (key, value) ∷ rest else (k, old) ∷ insert key value rest

  -- `m.emplace(k, v)`: an entry that is there stays.
  unfoldable pub emplace : ℕ → V → List (ℕ × V) → List (ℕ × V)
  emplace k v [] = (k, v) ∷ []
  emplace k v ((j, w) ∷ m) = if j == k then (j, w) ∷ m else (j, w) ∷ emplace k v m

  -- `erase`; all entries of the key go, and a map has one at most.
  unfoldable pub erase : ℕ → List (ℕ × V) → List (ℕ × V)
  erase k [] = []
  erase k ((j, w) ∷ m) = if j == k then erase k m else (j, w) ∷ erase k m

  pub lookup-insert :
      (key asked : ℕ) (value : V) (entries : List (ℕ × V))
      → lookup asked (insert key value entries)
        ≡ (if key == asked then some value else lookup asked entries)
  unfolding lookup insert
  lookup-insert key asked value [] = refl
  lookup-insert key asked value ((k, old) ∷ rest) =
      ground (arith, lookup-insert key asked value rest)

  pub lookup-insert_self : (k : ℕ) (v : V) (m : List (ℕ × V)) → lookup k (insert k v m) ≡ some v
  lookup-insert_self k v m = ground (arith, lookup-insert k k v m)

  pub lookup-insert_ne :
      (k j : ℕ) (v : V) (m : List (ℕ × V)) → k ≢ j → lookup j (insert k v m) ≡ lookup j m
  lookup-insert_ne k j v m h = ground (arith, lookup-insert k j v m)

  pub lookup-emplace :
      (k j : ℕ) (v : V) (m : List (ℕ × V))
      → lookup k m ≡ none
      → lookup j (emplace k v m) ≡ (if k == j then some v else lookup j m)
  unfolding lookup emplace
  lookup-emplace k j v [] h = refl
  lookup-emplace k j v ((i, w) ∷ m) h = ground (arith, lookup-emplace k j v m)

  pub lookup-erase :
      (k j : ℕ) (m : List (ℕ × V)) → lookup j (erase k m) ≡ (if k == j then none else lookup j m)
  unfolding lookup erase
  lookup-erase k j [] = ground arith
  lookup-erase k j ((i, w) ∷ m) = ground (arith, lookup-erase k j m)

-- `count(k) > 0`, or `find(k) != end()`, on a set
unfoldable pub contains : ℕ → List ℕ → Bool
contains k [] = false
contains k (j ∷ s) = j == k || contains k s

unfoldable pub add : ℕ → List ℕ → List ℕ
add k s = if contains k s then s else k ∷ s

pub contains-add : (k j : ℕ) (s : List ℕ) → contains j (add k s) ≡ (k == j || contains j s)
unfolding contains add
contains-add k j s = ground arith
