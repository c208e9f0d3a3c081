-- ===== src/Industry/Products/Jobs.antt =====
-- `Products::getManufacturingJobs` of libs/industry_resources/production/products.cpp.
use eve_industry_planner.Prelude.{
  ℕ, Bool, false, ◌&&◌, Option, none, some, List, [], ◌∷◌, ◌++◌, if◌then◌else◌, ◌==◌, any_of,
  lookup, Result, ok, ◌>>=◌, or_throw, out_of_range,
}
use eve_industry_planner.Text.{Text, codes, to_string}
use eve_industry_planner.Double.{Double}
use eve_industry_planner.Catalog.Names.{get_name}
use eve_industry_planner.Catalog.Types.Checked.{is_t1bp, get_bp_tech_level}
use eve_industry_planner.Catalog.Assets.{BlueprintWithEfficiency}
use eve_industry_planner.Industry.Recipes.{Production, BlueprintEfficiency}
use eve_industry_planner.Industry.Job.{Job, new_job}
use eve_industry_planner.Industry.Stuff.{Stuff, Tables, get_resource, get_bpo, get_bpc}
use eve_industry_planner.Industry.Products.{level_string, bpes}

-- the members of `Settings` that the jobs depend on, with the prices and the values
pub record Terms {ℓ} (W : Type ℓ) : Type ℓ where
  pub ignore_list : List ℕ
  pub bpo_price_limit : W
  pub production_tax : W
  pub avg_prices : List (ℕ × W)
  pub values : List (ℕ × W)

module _ {ℓ} {W : Type ℓ} ⦃d : Double W⦄ where
  -- `bpPriceIt != end() && bpPriceIt->second <= limit`
  unfoldable pub is_affordable : W → Option W → Bool
  is_affordable limit none = false
  is_affordable limit (some price) = d.le price limit

  unfoldable pub new_bpwe : ℕ → W → W → BlueprintWithEfficiency W
  new_bpwe id me te = record { type_id = id; material_efficiency = me; time_efficiency = te }

  unfoldable pub bpe_string : W → W → Text
  bpe_string me te = d.show me ++ (codes "_" ++ d.show te)

  module _ (tables : Tables W) where
    unfoldable pub material_inputs : W → List (ℕ × ℕ) → Stuff W → Result (List (ℕ × W) × Stuff W)
    material_inputs me [] s = ok ([], s)
    material_inputs me ((m, quantity) ∷ ms) s = do
      (r, s1) ← get_resource tables m s
      (rest, s2) ← material_inputs me ms s1
      ok ((r, d.ceil (d.times me (d.of_nat quantity))) ∷ rest, s2)

    module _ (terms : Terms W) where
      -- the job that uses the original of the blueprint, if there is one
      unfoldable pub bpo_jobs :
          Production W
          → Text
          → W
          → List (ℕ × W)
          → List (ℕ × W)
          → Stuff W
          → Result (List (Job W) × Stuff W)
      bpo_jobs p level duration ins outs s = do
        t1 ← is_t1bp tables.types p.blueprint
        if t1 && is_affordable terms.bpo_price_limit (lookup p.blueprint terms.avg_prices)
            then (do
              (bpo, s1) ← get_bpo tables p.blueprint s
              v ← or_throw (lookup p.product terms.values) out_of_range
              name ← get_name tables.names p.product
              ok (
                new_job (ins ++ ((bpo, duration) ∷ [])) outs
                      (d.times (d.neg v) terms.production_tax)
                      (level ++ (codes "_Produce_BPO_" ++ to_string p.product))
                      (codes "Produce " ++ (name ++ codes " from BPO"))
                    ∷ [],
                s1,
              ))
            else ok ([], s)

      -- the job that uses a copy
      unfoldable pub bpc_job :
          Production W
          → W
          → W
          → Text
          → List (ℕ × W)
          → List (ℕ × W)
          → Stuff W
          → Result (Job W × Stuff W)
      bpc_job p me te level ins outs s = do
        (bpc, s1) ← get_bpc tables (new_bpwe p.blueprint me te) s
        v ← or_throw (lookup p.product terms.values) out_of_range
        name ← get_name tables.names p.product
        ok (
          new_job (ins ++ ((bpc, d.of_nat 1) ∷ [])) outs (d.times (d.neg v) terms.production_tax)
              (level
                ++ (codes "_Produce_"
                    ++ (bpe_string me te ++ (codes "_BPC_" ++ to_string p.product))))
              (codes "Produce "
                ++ (name ++ (codes " from " ++ (bpe_string me te ++ codes "_BPC")))),
          s1,
        )

      -- one round of the loop over the efficiencies
      unfoldable pub produce_with :
          Production W → BlueprintEfficiency W → Stuff W → Result (List (Job W) × Stuff W)
      produce_with p bpe s = do
        let me = bpe.material_efficiency
        let te = bpe.time_efficiency
        let duration = d.times te p.duration
        (out, s1) ← get_resource tables p.product s
        let outs = (out, d.of_nat p.produced_quantity) ∷ []
        (materials, s2) ← material_inputs me p.materials s1
        let ins = materials ++ ((s2.production_line_time, duration) ∷ [])
        level ← get_bp_tech_level tables.types p.blueprint
        (bpo, s3) ← bpo_jobs p (level_string level) duration ins outs s2
        (bpc, s4) ← bpc_job p me te (level_string level) ins outs s3
        ok (bpo ++ (bpc ∷ []), s4)

      unfoldable pub produce_with_all :
          Production W → List (BlueprintEfficiency W) → Stuff W → Result (List (Job W) × Stuff W)
      produce_with_all p [] s = ok ([], s)
      produce_with_all p (e ∷ es) s = do
        (js, s1) ← produce_with p e s
        (rest, s2) ← produce_with_all p es s1
        ok (js ++ rest, s2)

      -- `bpeList`
      unfoldable pub efficiencies_of : ℕ → Result (List (BlueprintEfficiency W))
      efficiencies_of bp = is_t1bp tables.types bp >>= λ t1. ok (
          if t1
          then record { material_efficiency = d.literal 10 1; time_efficiency = d.literal 10 1 }
            ∷ []
          else bpes)

      unfoldable pub get_manufacturing_jobs :
          List (Production W) → Stuff W → Result (List (Job W) × Stuff W)
      get_manufacturing_jobs [] s = ok ([], s)
      get_manufacturing_jobs (p ∷ ps) s =
          if any_of (λ i. i == p.blueprint) terms.ignore_list
          then get_manufacturing_jobs ps s
          else do
            es ← efficiencies_of p.blueprint
            (js, s1) ← produce_with_all p es s
            (rest, s2) ← get_manufacturing_jobs ps s1
            ok (js ++ rest, s2)
