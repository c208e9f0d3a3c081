-- ===== src/Planning/Planner.antt =====
-- `Planner` of apps/main/src/planner.cpp: the linear program that the jobs and resources make, and the
-- plan that is read off its solution. The resources are those of a store (Industry/Resource.antt).
pub mod Solve
pub mod Rows
pub mod Entries
pub mod Fed
pub mod Reported
use eve_industry_planner.Prelude.{
  ℕ, zero, ◌≡◌, Bool, true, false, Option, none, some, List, [], ◌∷◌, ◌++◌, if◌then◌else◌, ◌==◌,
  not, any_of, get_elem?, set, Result, ok, throw, ◌>>=◌, ◌>>◌, require, or_throw, runtime_error,
  undefined,
}
use eve_industry_planner.Text.{Text, codes}
use eve_industry_planner.Double.{Double}
use eve_industry_planner.Industry.Resource.{Resource, Store}
use eve_industry_planner.Industry.Job.{Job}
use eve_industry_planner.Planning.Lp.{NameSet, ColSet, Column}

pub record Planner {ℓ} (W N C : Type ℓ) : Type ℓ where
  pub col_names : N
  pub row_names : N
  pub resources : List ℕ
  pub jobs : List (Job W)
  pub cols : C
  pub buy_in : Option ℕ

-- A planner and the resources that its pointers lead to.
abbrev pub State {ℓ} : Type ℓ → Type ℓ → Type ℓ → Type ℓ
State W N C = Planner W N C × Store W

-- the entry of the row of the money, for a job that costs some
unfoldable pub buy_in_entry {ℓ} : {W : Type ℓ} ⦃d : Double W⦄ → W → List (Option ℕ × W)
buy_in_entry ⦃d⦄ cost = if d.lt cost (d.of_nat 0) then (some 0, d.neg cost) ∷ [] else []

unfoldable pub new_column {ℓ} : {W : Type ℓ} → Job W → List (Option ℕ × W) → Column W
new_column job entries = record {
  objective = job.cost;
  lower = job.lower_limit;
  upper = job.upper_limit;
  entries = entries;
}

module _ {ℓ} {W N C : Type ℓ} ⦃d : Double W⦄ ⦃n : NameSet N⦄ ⦃c : ColSet W C⦄ where
  -- `Planner()`, with `AddBuyIn`
  unfoldable pub new_planner : Planner W N C
  new_planner =
      let (key, names) = n.add (codes "BuyIn") n.empty in
      record {
        col_names = n.empty;
        row_names = names;
        resources = [];
        jobs = [];
        cols = c.no_columns;
        buy_in = key;
      }

  unfoldable pub ensure_resource : ℕ → State W N C → Result (State W N C)
  ensure_resource p (s, store) = if any_of (λ q. q == p) s.resources then ok (s, store) else do
    r ← or_throw (get_elem? store p) undefined
    let (key, names) = n.add r.name s.row_names
    ok (
      record s { row_names = names; resources = s.resources ++ (p ∷ []) },
      set store p (record r { row_id = key }),
    )

  -- one round of the two loops of `addJob`: `col.add(o.first->rowID, ...)`
  unfoldable pub add_entry : (W → W) → ℕ × W → State W N C → Result ((Option ℕ × W) × State W N C)
  add_entry sign (p, w) st = do
    (s, store) ← ensure_resource p st
    r ← or_throw (get_elem? store p) undefined
    ok ((r.row_id, sign w), (s, store))

  unfoldable pub add_entries :
      (W → W) → List (ℕ × W) → State W N C → Result (List (Option ℕ × W) × State W N C)
  add_entries sign [] st = ok ([], st)
  add_entries sign (x ∷ xs) st = do
    (e, st1) ← add_entry sign x st
    (es, st2) ← add_entries sign xs st1
    ok (e ∷ es, st2)

  unfoldable pub add_job : Job W → State W N C → Result (State W N C)
  add_job job (s, store) = if n.has job.name s.col_names then throw runtime_error else do
    let names = (n.add job.name s.col_names).1
    (outs, st1) ← add_entries d.neg job.outputs (record s { col_names = names }, store)
    (ins, st2) ← add_entries (λ w. w) job.inputs st1
    let (s2, store2) = st2
    let (index, cols) =
        c.add_column (new_column job (buy_in_entry job.cost ++ (outs ++ ins))) s2.cols
    let s3 = record s2 { cols = cols; jobs = s2.jobs ++ (record job { col_id = some index } ∷ []) }
    require (c.num cols == n.size s3.col_names) runtime_error >> ok (s3, store2)

  -- the loops of apps/main/src/workspace.cpp over the jobs of one kind
  unfoldable pub add_jobs : List (Job W) → State W N C → Result (State W N C)
  add_jobs [] st = ok st
  add_jobs (j ∷ js) st = add_job j st >>= λ st'. add_jobs js st'
