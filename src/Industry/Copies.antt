-- ===== src/Industry/Copies.antt =====
-- libs/industry_resources/copying/copies.cpp: which blueprints can be copied, and the jobs for it.
pub mod Filtered
use eve_industry_planner.Prelude.{
  ℕ, Bool, true, false, not, Option, none, some, List, [], ◌∷◌, ◌++◌, if◌then◌else◌, lookup,
  remove_if, Result, ok, throw, ◌>>=◌, ◌>>◌, require, or_throw, assertion,
}
use eve_industry_planner.Text.{Text, codes, to_string}
use eve_industry_planner.Double.{Double}
use eve_industry_planner.Catalog.Names.{get_name, check_name}
use eve_industry_planner.Catalog.Assets.{BlueprintWithEfficiency}
use eve_industry_planner.Industry.Recipes.{Activity, Copying}
use eve_industry_planner.Industry.Job.{Job, new_job}
use eve_industry_planner.Industry.Stuff.{Stuff, Tables, get_bpo, get_bpc}
use eve_industry_planner.Industry.Products.Jobs.{is_affordable, new_bpwe}

module _ {ℓ} {W : Type ℓ} where
  unfoldable pub add_copying_data :
      Option (Activity W) → ℕ → List (ℕ × W) → List Copying → List Copying
  add_copying_data none blueprint_id avg_prices copies = copies
  add_copying_data (some a) blueprint_id avg_prices copies = elim (lookup blueprint_id avg_prices) [
    | none ↦ copies
    | some price ↦ elim a.time [
      | none ↦ copies
      | some t ↦ copies ++ (record { blueprint = blueprint_id; duration = t } ∷ [])
    ]
  ]

module _ {ℓ} {W : Type ℓ} ⦃d : Double W⦄ where
  -- `bpo_too_expensive` of `filterCopies`
  unfoldable pub bpo_too_expensive : List (ℕ × W) → W → Copying → Bool
  bpo_too_expensive avg_prices limit c = elim (lookup c.blueprint avg_prices) [
    | none ↦ true
    | some price ↦ d.lt limit price
  ]

  -- `Copies::filter`
  unfoldable pub filter_copies : List (ℕ × W) → W → List Copying → List Copying
  filter_copies avg_prices limit copies = remove_if (bpo_too_expensive avg_prices limit) copies

  module _ (tables : Tables W) (avg_prices values : List (ℕ × W))
      (copy_time_reduction copy_tax bpo_price_limit : W) where
    unfoldable pub copy_job : Copying → W → Stuff W → Result (Job W × Stuff W)
    copy_job c value s = do
      let bp = c.blueprint
      let duration = d.times copy_time_reduction (d.of_nat c.duration)
      name ← or_throw (check_name tables.names bp) assertion
      (bpo, s1) ← get_bpo tables bp s
      (bpc, s2) ← get_bpc tables (new_bpwe bp (d.of_nat 1) (d.of_nat 1)) s1
      ok (
        new_job ((bpo, duration) ∷ (s.lab_time, duration) ∷ []) ((bpc, d.of_nat 1) ∷ [])
            (d.times (d.neg value) copy_tax) (codes "Copy_" ++ to_string bp)
            (codes "Copy " ++ name),
        s2,
      )

    -- The first `assert` is about what `filter` has left.
    unfoldable pub get_copy_jobs : List Copying → Stuff W → Result (List (Job W) × Stuff W)
    get_copy_jobs [] s = ok ([], s)
    get_copy_jobs (c ∷ cs) s =
        require (is_affordable bpo_price_limit (lookup c.blueprint avg_prices)) assertion
        >> elim (lookup c.blueprint values) [
          | none ↦ get_copy_jobs cs s
          | some value ↦ do
            (j, s1) ← copy_job c value s
            (rest, s2) ← get_copy_jobs cs s1
            ok (j ∷ rest, s2)
        ]
