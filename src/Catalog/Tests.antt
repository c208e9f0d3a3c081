-- ===== src/Catalog/Tests.antt =====
-- The theorems about libs/names and libs/assets, at concrete names and assets.
use eve_industry_planner.Prelude.{
  ℕ, ◌+◌, ◌^◌, ◌%◌, ◌-◌, ◌≡◌, refl, Bool, Option, none, some, List, [], ◌∷◌, lookup, lookup_by, ok,
}
use eve_industry_planner.Text.{Text, codes, text_eq}
use eve_industry_planner.Double.{cents_double}
use eve_industry_planner.Catalog.Names.{Names, get_type_id, get_name}
use eve_industry_planner.Catalog.Assets.{
  OwnedBlueprint, add_assets_from_tsv, count_asset, load_owned_bpcs, load_owned_bpc, add_runs,
  runs_of_type, BlueprintWithEfficiency,
}
use eve_industry_planner.Catalog.Assets.Runs.{
  quantity_of, copy_runs, count_asset-add_assets, runs_of_type-load,
}

abbrev names : Names
names = record {
  names = (34, codes "Tritanium") ∷ (691, codes "Rifter Blueprint") ∷ [];
  type_ids = (codes "Tritanium", 34) ∷ (codes "Rifter Blueprint", 691) ∷ [];
}

abbrev lines : List (Option (Text × ℕ))
lines = some (codes "Tritanium", 250) ∷ some (codes "Tritanium", 50) ∷ []

abbrev assets : List (ℕ × ℕ)
assets = (34, 300) ∷ []

counted : add_assets_from_tsv names lines [] ≡ ok assets
unfolding add_assets_from_tsv eve_industry_planner.Catalog.Assets.add_asset count_asset lookup
    lookup_by eve_industry_planner.Prelude.insert get_type_id get_name text_eq
counted = refl

count_asset-add_assets_example :
    count_asset assets 34 % 2 ^ 64 ≡ (count_asset [] 34 + quantity_of names 34 lines) % 2 ^ 64
count_asset-add_assets_example = count_asset-add_assets names lines [] 34 counted

abbrev copy : OwnedBlueprint
copy = record {
  type_id = 691;
  quantity = 2 ^ 64 - 2;
  runs = 10;
  time_efficiency = 20;
  material_efficiency = 10;
}

abbrev original : OwnedBlueprint
original = record copy { quantity = 2 ^ 64 - 1 }

abbrev owned : List (BlueprintWithEfficiency ℕ × ℕ)
owned = (record { type_id = 691; material_efficiency = 90; time_efficiency = 80 }, 10) ∷ []

owned-loaded : load_owned_bpcs {W = ℕ} names (original ∷ copy ∷ []) [] ≡ ok owned
unfolding load_owned_bpcs load_owned_bpc add_runs get_name lookup
owned-loaded = refl

runs_of_type-load_example :
    runs_of_type 691 owned % 2 ^ 64
    ≡ (runs_of_type {W = ℕ} 691 [] + copy_runs 691 (original ∷ copy ∷ [])) % 2 ^ 64
runs_of_type-load_example = runs_of_type-load names 691 (original ∷ copy ∷ []) [] owned owned-loaded
