-- ===== src/Catalog/Assets.antt =====
-- libs/assets/assets.cpp: what the player owns. Counts are `std::size_t` and wrap. A line of a file of
-- assets is the name and the number that the code reads from it, `none` if it has no two columns; an
-- entry of the blueprint list holds the attributes that the code asks for.
pub mod Runs
use eve_industry_planner.Prelude.{
  ℕ, ◌+◌, ◌-◌, ◌^◌, ◌%◌, ◌≡◌, refl, Bool, true, false, ◌&&◌, Option, none, some, List, [], ◌∷◌,
  if◌then◌else◌, ◌==◌, lookup, insert, Result, ok, throw, ◌>>=◌, or_throw, runtime_error,
  out_of_range,
}
use eve_industry_planner.Text.{Text}
use eve_industry_planner.Double.{Double}
use eve_industry_planner.Catalog.Names.{Names, get_name, get_type_id}

-- libs/industry_resources/blueprint_efficiency.h and blueprint_with_efficiency.h
pub record BlueprintWithEfficiency {ℓ} (W : Type ℓ) : Type ℓ where
  pub type_id : ℕ
  pub material_efficiency : W
  pub time_efficiency : W

pub record OwnedBlueprint : Type 0 where
  pub type_id : ℕ
  -- the bit pattern of a `long long`
  pub quantity : ℕ
  pub runs : ℕ
  pub time_efficiency : ℕ
  pub material_efficiency : ℕ

abbrev pub add64 : ℕ → ℕ → ℕ
add64 a b = (a + b) % 2 ^ 64

abbrev get_or_zero : Option ℕ → ℕ
get_or_zero none = 0
get_or_zero (some n) = n

unfoldable pub count_asset : List (ℕ × ℕ) → ℕ → ℕ
count_asset assets id = get_or_zero (lookup id assets)

unfoldable pub add_asset : ℕ → ℕ → List (ℕ × ℕ) → List (ℕ × ℕ)
add_asset id quantity assets = insert id (add64 (count_asset assets id) quantity) assets

unfoldable pub add_assets_from_tsv :
    Names → List (Option (Text × ℕ)) → List (ℕ × ℕ) → Result (List (ℕ × ℕ))
add_assets_from_tsv names [] assets = ok assets
add_assets_from_tsv names (none ∷ lines) assets = throw runtime_error
add_assets_from_tsv names (some (name, quantity) ∷ lines) assets = do
  id ← get_type_id names name
  printed ← get_name names id
  add_assets_from_tsv names lines (add_asset id quantity assets)

module _ {ℓ} {W : Type ℓ} ⦃d : Double W⦄ where
  -- `operator==`
  unfoldable pub bpwe_eq : BlueprintWithEfficiency W → BlueprintWithEfficiency W → Bool
  bpwe_eq a b =
      a.type_id == b.type_id
      && d.eq a.material_efficiency b.material_efficiency
      && d.eq a.time_efficiency b.time_efficiency

  -- `ownedBPCs_.insert({x, 0}).first->second += runs`
  unfoldable pub add_runs :
      BlueprintWithEfficiency W
      → ℕ
      → List (BlueprintWithEfficiency W × ℕ)
      → List (BlueprintWithEfficiency W × ℕ)
  add_runs x runs [] = (x, add64 0 runs) ∷ []
  add_runs x runs ((y, n) ∷ m) =
      if bpwe_eq y x then (y, add64 n runs) ∷ m else (y, n) ∷ add_runs x runs m

  -- 0.01 * double(100u - efficiency)
  abbrev percent_off : ℕ → W
  percent_off e = d.times (d.literal 1 2) (d.of_nat ((100 + 2 ^ 64 - e) % 2 ^ 64))

  -- one round of the loop of `loadOwnedBPCsFromXml`, which prints the name
  unfoldable pub load_owned_bpc :
      Names
      → OwnedBlueprint
      → List (BlueprintWithEfficiency W × ℕ)
      → Result (List (BlueprintWithEfficiency W × ℕ))
  load_owned_bpc names bp m =
      let x : BlueprintWithEfficiency W = record {
        type_id = bp.type_id;
        material_efficiency = percent_off bp.material_efficiency;
        time_efficiency = percent_off bp.time_efficiency;
      } in
      if bp.quantity == 2 ^ 64 - 2
      then (get_name names bp.type_id >>= λ name. ok (add_runs x bp.runs m))
      else ok m

  unfoldable pub load_owned_bpcs :
      Names
      → List OwnedBlueprint
      → List (BlueprintWithEfficiency W × ℕ)
      → Result (List (BlueprintWithEfficiency W × ℕ))
  load_owned_bpcs names [] m = ok m
  load_owned_bpcs names (bp ∷ bps) m =
      load_owned_bpc names bp m >>= λ m'. load_owned_bpcs names bps m'

  unfoldable pub runs : BlueprintWithEfficiency W → List (BlueprintWithEfficiency W × ℕ) → ℕ
  runs x [] = 0
  runs x ((y, n) ∷ m) = if bpwe_eq y x then n else runs x m

  runs_loop : ℕ → ℕ → List (BlueprintWithEfficiency W × ℕ) → ℕ
  runs_loop id total [] = total
  runs_loop id total ((y, n) ∷ m) =
      runs_loop id (if y.type_id == id then add64 total n else total) m

  -- all efficiencies together
  unfoldable pub runs_of_type : ℕ → List (BlueprintWithEfficiency W × ℕ) → ℕ
  unfolding runs_loop
  runs_of_type id m = runs_loop id 0 m
