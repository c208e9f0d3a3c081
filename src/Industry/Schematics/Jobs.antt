-- ===== src/Industry/Schematics/Jobs.antt =====
-- `Schematics::getPlanetaryJobs` of libs/industry_resources/schematics/schematics.cpp.
use eve_industry_planner.Prelude.{
  ℕ, ◌+◌, none, some, List, [], ◌∷◌, ◌++◌, lookup, insert, get_elem?, Result, ok, ◌>>=◌, or_throw,
  undefined,
}
use eve_industry_planner.Text.{Text, codes, to_string}
use eve_industry_planner.Double.{Double}
use eve_industry_planner.Catalog.Names.{get_name}
use eve_industry_planner.Catalog.Assets.{count_asset}
use eve_industry_planner.Industry.Recipes.{Planetary}
use eve_industry_planner.Industry.Resource.{Resource, new_resource, make_shared}
use eve_industry_planner.Industry.Job.{Job, new_job}
use eve_industry_planner.Industry.Stuff.{Stuff, Tables, get_resource}
use eve_industry_planner.Industry.Schematics.{get_material_fee_and_tier}

-- `planetaryItems`, `jobs`, and the rest of the state that the lambda `get_resource` changes
pub record Colony {ℓ} (W : Type ℓ) : Type ℓ where
  pub stuff : Stuff W
  pub items : List (ℕ × ℕ)
  pub jobs : List (Job W)

module _ {ℓ} {W : Type ℓ} ⦃d : Double W⦄ where
  unfoldable pub share : Resource W → Stuff W → ℕ × Stuff W
  share r s = let (p, store) = make_shared r s.store in (p, record s { store = store })

  -- A facility: so much of the processor and of the power for the time that it works.
  abbrev pub facility : ℕ → ℕ → ℕ → ℕ → ℕ → W → Text → Text → Job W
  facility cpu power cpu_need power_need hours time_frame name full_name =
      new_job
        ((cpu, d.plus (d.literal cpu_need 1) (d.literal 220 1))
          ∷ (power, d.plus (d.literal power_need 1) (d.literal 150 1))
          ∷ [])
        ((hours, time_frame) ∷ []) (d.literal 0 1) name full_name

  module _ (tables : Tables W) (planetary_assets : List (ℕ × ℕ)) (schematics : List Planetary) where
    -- the lambda `get_resource`: the item on a planet, with the jobs that move it
    unfoldable pub planetary_resource : ℕ → Text → Colony W → Result (ℕ × Colony W)
    planetary_resource id name c = elim (lookup id c.items) [
      | some p ↦ ok (p, c)
      | none ↦ do
        (fee, tier) ← get_material_fee_and_tier schematics id
        (resource, s1) ← get_resource tables id c.stuff
        let r =
            new_resource (codes "Planetary_" ++ to_string id) (codes "Planetary " ++ name)
              (d.neg (d.of_nat (count_asset planetary_assets id)))
        let (p, s2) = share r s1
        let tier_string = to_string tier
        let imports =
            new_job ((resource, d.literal 10 1) ∷ []) ((p, d.literal 10 1) ∷ [])
              (d.times (d.neg (d.literal 5 1)) fee)
              (codes "P" ++ (tier_string ++ (codes "_Import_" ++ name)))
              (codes "Import " ++ (name ++ (codes " (P" ++ (tier_string ++ codes ")"))))
        let exports =
            new_job ((p, d.literal 10 1) ∷ []) ((resource, d.literal 10 1) ∷ []) (d.neg fee)
              (codes "P" ++ (tier_string ++ (codes "_Export_" ++ name)))
              (codes "Export " ++ (name ++ (codes " (P" ++ (tier_string ++ codes ")"))))
        ok (
          p,
          record {
            stuff = s2;
            items = insert id p c.items;
            jobs = c.jobs ++ (imports ∷ exports ∷ []);
          },
        )
    ]

    unfoldable pub planetary_inputs : List (ℕ × ℕ) → Colony W → Result (List (ℕ × W) × Colony W)
    planetary_inputs [] c = ok ([], c)
    planetary_inputs ((m, quantity) ∷ ms) c = do
      name ← get_name tables.names m
      (p, c1) ← planetary_resource m name c
      (rest, c2) ← planetary_inputs ms c1
      ok ((p, d.of_nat quantity) ∷ rest, c2)

    -- one round of the loop over the schematics; `tier_times` are the hours of the facilities
    unfoldable pub planetary_job : List ℕ → Planetary → Colony W → Result (Colony W)
    planetary_job tier_times s c = do
      (ins, c1) ← planetary_inputs s.materials c
      hours ← or_throw (get_elem? tier_times s.tier) undefined
      name ← get_name tables.names s.product
      let tier_string = to_string (s.tier + 1)
      (p, c2) ← planetary_resource s.product name c1
      let job =
          new_job (ins ++ ((hours, d.of_nat s.duration) ∷ []))
            ((p, d.of_nat s.produced_quantity) ∷ []) (d.literal 0 1)
            (codes "P" ++ (tier_string ++ (codes "_Produce_" ++ name)))
            (codes "Produce " ++ (name ++ (codes " (P" ++ (tier_string ++ codes ")"))))
      ok (record c2 { jobs = c2.jobs ++ (job ∷ []) })

    unfoldable pub planetary_jobs : List ℕ → List Planetary → Colony W → Result (Colony W)
    planetary_jobs tier_times [] c = ok c
    planetary_jobs tier_times (s ∷ ss) c =
        planetary_job tier_times s c >>= λ c'. planetary_jobs tier_times ss c'

    unfoldable pub get_planetary_jobs : W → W → W → Stuff W → Result (List (Job W) × Stuff W)
    get_planetary_jobs cpu_limit power_limit time_frame s0 = do
      let (cpu, s1) = share (new_resource (codes "CPU") (codes "CPU") (d.neg cpu_limit)) s0
      let (power, s2) = share (new_resource (codes "Power") (codes "Power") (d.neg power_limit)) s1
      let (basic, s3) =
          share
            (new_resource (codes "BasicIndustryTime") (codes "Basic Industry Time") (d.of_nat 0)) s2
      let (advanced, s4) =
          share
            (new_resource (codes "AdvancedIndustryTime") (codes "Advanced Industry Time")
              (d.of_nat 0))
            s3
      let (high_tech, s5) =
          share
            (new_resource (codes "HighTechIndustryTime") (codes "High Tech Industry Time")
              (d.of_nat 0))
            s4
      let built =
          facility cpu power 2000 8000 basic time_frame (codes "Build_Basic_Industry_Facility")
            (codes "Build Basic Industry Facility")
          ∷ facility cpu power 5000 7000 advanced time_frame
              (codes "Build_Advanced_Industry_Facility") (codes "Build Advanced Industry Facility")
          ∷ facility cpu power 11000 4000 high_tech time_frame
              (codes "Build_High_Tech_Production_Plant") (codes "Build High Tech Production Plant")
          ∷ []
      c ←
          planetary_jobs (basic ∷ advanced ∷ advanced ∷ high_tech ∷ []) schematics
            record { stuff = s5; items = []; jobs = built }
      ok (c.jobs, c.stuff)
