-- ===== src/Industry/Stuff/Calls.antt =====
-- Jobs whose resources are those of `Stuff` (libs/industry_resources/resource_manager/stuff.cpp).
use eve_industry_planner.Prelude.{ℕ, ◌<◌, List, All}
use eve_industry_planner.Industry.Job.{Job}

module _ {ℓ} {W : Type ℓ} where
  -- the pointers of one side of a job lead to resources
  abbrev pub AreValid : List (ℕ × W) → ℕ → Type 0
  AreValid ms n = All (λ m. m.0 < n) ms

  abbrev pub JobLeads : Job W → ℕ → Type 0
  JobLeads j n = AreValid j.outputs n × AreValid j.inputs n

  abbrev pub PointersLead : List (Job W) → ℕ → Type 0
  PointersLead js n = All (λ j. JobLeads j n) js
