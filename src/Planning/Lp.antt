-- ===== src/Planning/Lp.antt =====
-- What the planner uses of the SoPlex library: sets of names and of columns that number their elements,
-- and the solver. SoPlex is not part of the repository; the two classes are parameters with the laws
-- that its documentation gives for a set from which nothing is removed.
use eve_industry_planner.Prelude.{
  ℕ, suc, ◌≡◌, Bool, true, false, Option, some, List, [], ◌∷◌, ◌++◌, length, ◌⊎◌,
}
use eve_industry_planner.Text.{Text}

-- `LPCol`: the row of an entry is `none` where the program passes the index -1 of an unset key.
pub record Column {ℓ} (W : Type ℓ) : Type ℓ where
  pub objective : W
  pub lower : W
  pub upper : W
  pub entries : List (Option ℕ × W)

-- `NameSet`: `add` gives the index that the key of the new name has, and leaves the key unset when the
-- set has the name.
pub record NameSet {ℓ} (N : Type ℓ) : Type ℓ where
  pub empty : N
  pub has : Text → N → Bool
  pub add : Text → N → Option ℕ × N
  pub size : N → ℕ

pub record IsNameSet {ℓ} (N : Type ℓ) ⦃n : NameSet N⦄ : Type ℓ where
  pub has-empty : (x : Text) → n.has x n.empty ≡ false
  pub size-empty : n.size n.empty ≡ 0
  pub add_new : (x : Text) (s : N) → n.has x s ≡ false → (n.add x s).0 ≡ some (n.size s)
  pub size-add : (x : Text) (s : N) → n.has x s ≡ false → n.size ((n.add x s).1) ≡ suc (n.size s)
  pub has-add_self : (x : Text) (s : N) → n.has x ((n.add x s).1) ≡ true
  pub has-add : (x y : Text) (s : N) → n.has y ((n.add x s).1) ≡ true → (x ≡ y) ⊎ (n.has y s ≡ true)

-- `LPColSetReal`
pub record ColSet {ℓ} (W C : Type ℓ) : Type ℓ where
  pub no_columns : C
  pub add_column : Column W → C → ℕ × C
  pub num : C → ℕ
  pub columns : C → List (Column W)
  pub is_consistent : C → Bool

pub record IsColSet {ℓ} (W C : Type ℓ) ⦃c : ColSet W C⦄ : Type ℓ where
  pub columns-no_columns : c.columns c.no_columns ≡ []
  pub columns-add :
      (x : Column W) (s : C) → c.columns ((c.add_column x s).1) ≡ c.columns s ++ (x ∷ [])
  pub index-add : (x : Column W) (s : C) → (c.add_column x s).0 ≡ length (c.columns s)
  pub num-length : (s : C) → c.num s ≡ length (c.columns s)

-- The optimum that the solver found: what `getPrimalReal` and `getDualReal` put at an index.
pub record Solution {ℓ} (W : Type ℓ) : Type ℓ where
  pub primal : ℕ → W
  pub dual : ℕ → W
