-- ===== src/Industry/Stuff.antt =====
-- `Stuff` of libs/industry_resources/resource_manager/stuff.cpp: every resource is made once, when it is
-- first asked for, and shared from then on. The tables that the parts of `Stuff` refer to are the
-- section's parameters.
pub mod Calls
pub mod Items
use eve_industry_planner.Prelude.{
  ℕ, ◌*◌, ◌≡◌, refl, Bool, true, false, Option, none, some, List, [], ◌∷◌, ◌++◌, if◌then◌else◌,
  lookup, insert, lookup_by, insert_by, Result, ok, throw, ◌>>=◌,
}
use eve_industry_planner.Text.{Text, codes, to_string}
use eve_industry_planner.Double.{Double}
use eve_industry_planner.Catalog.Names.{Names, get_name}
use eve_industry_planner.Catalog.Types.{Types}
use eve_industry_planner.Catalog.Types.Checked
use eve_industry_planner.Catalog.Assets.{
  BlueprintWithEfficiency, bpwe_eq, runs, runs_of_type, count_asset,
}
use eve_industry_planner.Industry.Resource.{Resource, Store, new_resource, make_shared}

pub record Stuff {ℓ} (W : Type ℓ) : Type ℓ where
  pub store : Store W
  pub resources : List (ℕ × ℕ)
  pub bpo_times : List (ℕ × ℕ)
  pub bpcs : List (BlueprintWithEfficiency W × ℕ)
  pub time_frame : W
  pub lab_time : ℕ
  pub production_line_time : ℕ

-- `Names`, `Assets` and `Types`, which `Stuff` holds by reference
pub record Tables {ℓ} (W : Type ℓ) : Type ℓ where
  pub names : Names
  pub assets : List (ℕ × ℕ)
  pub owned_bpcs : List (BlueprintWithEfficiency W × ℕ)
  pub types : Types

module _ {ℓ} {W : Type ℓ} ⦃d : Double W⦄ where
  -- `Stuff(names, assets, types, industry)`, for `timeFrame`, `scienceLabs` and `productionLines`
  unfoldable pub new_stuff : W → ℕ → ℕ → Stuff W
  new_stuff time_frame science_labs production_lines = record {
    store =
        new_resource (codes "LabTime") (codes "LabTime")
          (d.times (d.neg time_frame) (d.of_nat science_labs))
        ∷ new_resource (codes "ProductionLineTime") (codes "ProductionLineTime")
            (d.times (d.neg time_frame) (d.of_nat production_lines))
        ∷ [];
    resources = [];
    bpo_times = [];
    bpcs = [];
    time_frame = time_frame;
    lab_time = 0;
    production_line_time = 1;
  }

  make_bpe_string : BlueprintWithEfficiency W → Text
  make_bpe_string x = d.show x.material_efficiency ++ (codes "_" ++ d.show x.time_efficiency)

  module _ (tables : Tables W) where
    unfoldable pub get_resource : ℕ → Stuff W → Result (ℕ × Stuff W)
    get_resource id s = elim (lookup id s.resources) [
      | some p ↦ ok (p, s)
      | none ↦ do
        name ← get_name tables.names id
        let r = new_resource (to_string id) name (d.neg (d.of_nat (count_asset tables.assets id)))
        let (p, store) = make_shared r s.store
        ok (p, record s { store = store; resources = insert id p s.resources })
    ]

    unfoldable pub get_bpo : ℕ → Stuff W → Result (ℕ × Stuff W)
    get_bpo id s = elim (lookup id s.bpo_times) [
      | some p ↦ ok (p, s)
      | none ↦ do
        name ← get_name tables.names id
        let r =
            new_resource (to_string id ++ codes "_BPO_Time") (name ++ codes " BPO Time")
              (d.neg s.time_frame)
        let (p, store) = make_shared r s.store
        ok (p, record s { store = store; bpo_times = insert id p s.bpo_times })
    ]

    -- For the copies of T1 blueprints the efficiencies are ignored.
    unfoldable pub get_bpc : BlueprintWithEfficiency W → Stuff W → Result (ℕ × Stuff W)
    unfolding make_bpe_string
    get_bpc x s = elim (lookup_by bpwe_eq x s.bpcs) [
      | some p ↦ ok (p, s)
      | none ↦ do
        t1 ← Checked.is_t1bp tables.types x.type_id
        let n = if t1 then runs_of_type x.type_id tables.owned_bpcs else runs x tables.owned_bpcs
        name ← get_name tables.names x.type_id
        let bpe = make_bpe_string x
        let r =
            new_resource (to_string x.type_id ++ (codes "_" ++ (bpe ++ codes "_BPC")))
              (name ++ (codes " " ++ (bpe ++ codes "_BPC"))) (d.neg (d.of_nat n))
        let (p, store) = make_shared r s.store
        ok (p, record s { store = store; bpcs = insert_by bpwe_eq x p s.bpcs })
    ]
