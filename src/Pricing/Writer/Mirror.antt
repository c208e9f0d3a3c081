-- ===== src/Pricing/Writer/Mirror.antt =====
-- The relation between the encoder of apps/pricing/json_writer.cpp and the decoder of json_reader.cpp:
-- the market as an abstract map from ids to orders, the writer's index of slots, and the reader's slots.
pub mod Slots
pub mod Free
pub mod Steps
pub mod Replay
use eve_industry_planner.Prelude.{
  ℕ, suc, ◌+◌, ◌≤◌, ◌<◌, ◌≡◌, ◌≢◌, refl, Bool, true, false, Option, none, some, List, [], ◌∷◌, ◌++◌,
  arith, ◌==◌, if◌then◌else◌, length, get_elem?, All, lookup,
}
use eve_industry_planner.Pricing.Order.{Order, Diff}

-- The market as the archive's client sees it.
abbrev pub Market {ℓ} : Type ℓ → Type ℓ
Market W = ℕ → Option (Order W)

module _ {ℓ} {W : Type ℓ} where
  abbrev pub put : ℕ → Order W → Market W → Market W
  put id o v i = if id == i then some o else v i

  abbrev pub drop_id : ℕ → Market W → Market W
  drop_id id v i = if id == i then none else v i

  -- Every order of the market stands in the slot that the index gives for its id, no two ids share a
  -- slot, and what stands in any other slot is dead: its volume is 0.
  pub record IsStored (index : List (ℕ × ℕ)) (slots : List (Order W)) (v : Market W) : Type ℓ where
    pub held :
        (i s : ℕ)
        → lookup i index ≡ some s
        → (o : Order W) × (v i ≡ some o) × (get_elem? slots s ≡ some o)
    pub known : (i : ℕ) → lookup i index ≡ none → v i ≡ none
    pub apart : (i j s : ℕ) → lookup i index ≡ some s → lookup j index ≡ some s → i ≡ j
    pub dead :
        (s : ℕ) (o : Order W)
        → get_elem? slots s ≡ some o
        → ((i : ℕ) → lookup i index ≢ some s)
        → o.volume ≡ 0

abbrev pub Unused : List (ℕ × ℕ) → ℕ → Type 0
Unused index s = (i : ℕ) → lookup i index ≢ some s

abbrev pub Distinct : List ℕ → Type 0
Distinct [] = Unit {0}
Distinct (x ∷ xs) = All (λ y. x ≢ y) xs × Distinct xs

-- No slot is above the number of slots that were handed out; the free ones are distinct and unused.
pub record IsFree (index : List (ℕ × ℕ)) (free : List ℕ) (count : ℕ) : Type 0 where
  pub below : (i s : ℕ) → lookup i index ≡ some s → s ≤ count
  pub free_below : All (λ s. s ≤ count) free
  pub free_unused : All (Unused index) free
  pub free_distinct : Distinct free
