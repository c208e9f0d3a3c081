-- ===== src/Catalog/Assets/Runs.antt =====
-- The counts of libs/assets/assets.cpp are sums, modulo 2 ^ 64.
use eve_industry_planner.Prelude.{
  ℕ, ◌+◌, ◌-◌, ◌^◌, ◌%◌, ◌≡◌, subst, ◌&&◌, List, [], ◌∷◌, if◌then◌else◌, ◌==◌, lookup-insert, arith,
  Bool-cases, inl, inr, ok, Option, some, none, >>=-eq-ok,
}
use eve_industry_planner.Text.{Text}
use eve_industry_planner.Double.{Double}
use eve_industry_planner.Catalog.Names.{Names, get_name, get_type_id}
use eve_industry_planner.Catalog.Assets.{
  BlueprintWithEfficiency, OwnedBlueprint, add64, percent_off, bpwe_eq, add_runs, load_owned_bpc,
  load_owned_bpcs, runs_of_type, runs_loop, count_asset, add_asset, add_assets_from_tsv,
}

-- The quantities of the lines whose name is that of the item.
abbrev pub quantity_of : Names → ℕ → List (Option (Text × ℕ)) → ℕ
quantity_of names id [] = 0
quantity_of names id (none ∷ lines) = quantity_of names id lines
quantity_of names id (some (name, q) ∷ lines) =
    let rest = quantity_of names id lines in
    elim (get_type_id names name) [ ok i ↦ (if i == id then q + rest else rest) | _ ↦ rest ]

count_asset-add_asset :
    (i q : ℕ) (assets : List (ℕ × ℕ)) (id : ℕ)
    → count_asset (add_asset i q assets) id
      ≡ (if i == id then add64 (count_asset assets id) q else count_asset assets id)
unfolding count_asset add_asset
count_asset-add_asset i q assets id =
    ground (arith, lookup-insert i id (add64 (count_asset assets i) q) assets)

-- What `addAssetsFromTsv` adds to the count of an item, where it returns, is the sum of the quantities
-- in the lines that name the item, modulo 2 ^ 64.
pub count_asset-add_assets :
    (names : Names) (lines : List (Option (Text × ℕ))) (assets : List (ℕ × ℕ)) (id : ℕ)
    {assets' : List (ℕ × ℕ)}
    → add_assets_from_tsv names lines assets ≡ ok assets'
    → count_asset assets' id % 2 ^ 64
      ≡ (count_asset assets id + quantity_of names id lines) % 2 ^ 64
unfolding add_assets_from_tsv
count_asset-add_assets names [] assets id h = ground arith
count_asset-add_assets names (none ∷ lines) assets id h = cc
count_asset-add_assets names (some (name, q) ∷ lines) assets id h =
    let (i, e, k0) = >>=-eq-ok (get_type_id names name) _ h in
    let (printed, e', k) = >>=-eq-ok (get_name names i) _ k0 in
    ground (
      arith,
      e,
      count_asset-add_asset i q assets id,
      count_asset-add_assets names lines (add_asset i q assets) id k,
    )

-- the runs of the blueprints of the type that are copies
abbrev pub copy_runs : ℕ → List OwnedBlueprint → ℕ
copy_runs id [] = 0
copy_runs id (bp ∷ bps) =
    let rest = copy_runs id bps in
    if bp.quantity == 2 ^ 64 - 2 && bp.type_id == id then bp.runs + rest else rest

copy_runs-cons :
    (id : ℕ) (bp : OwnedBlueprint) (bps : List OwnedBlueprint)
    → copy_runs id (bp ∷ bps) ≡ copy_runs id (bp ∷ []) + copy_runs id bps
copy_runs-cons id bp bps = ground arith

kept {ℓ} : {A : Type ℓ} {a b : A} → ok a ≡ ok b → a ≡ b
kept h = cc h

module _ {ℓ} {W : Type ℓ} ⦃d : Double W⦄ where
  abbrev pub total_runs : ℕ → List (BlueprintWithEfficiency W × ℕ) → ℕ
  total_runs id [] = 0
  total_runs id ((y, n) ∷ m) =
      let rest = total_runs id m in if y.type_id == id then n + rest else rest

  runs_loop-total :
      (id total : ℕ) (m : List (BlueprintWithEfficiency W × ℕ))
      → runs_loop id total m % 2 ^ 64 ≡ (total + total_runs id m) % 2 ^ 64
  unfolding runs_loop
  runs_loop-total id total [] = omega arith
  runs_loop-total id total ((y, n) ∷ m) = elim (Bool-cases (y.type_id == id)) [
    | inl e ↦ rw e (omega (arith, runs_loop-total id (add64 total n) m))
    | inr e ↦ rw e (runs_loop-total id total m)
  ]

  total_runs-add_runs :
      (id : ℕ) (x : BlueprintWithEfficiency W) (r : ℕ) (m : List (BlueprintWithEfficiency W × ℕ))
      → total_runs id (add_runs x r m) % 2 ^ 64
        ≡ (total_runs id m + (if x.type_id == id then r else 0)) % 2 ^ 64
  unfolding add_runs bpwe_eq
  total_runs-add_runs id x r [] = ground arith
  total_runs-add_runs id x r ((y, n) ∷ m) = ground (arith, total_runs-add_runs id x r m)

  total_runs-load_one :
      (names : Names) (id : ℕ) (bp : OwnedBlueprint) (m m' : List (BlueprintWithEfficiency W × ℕ))
      → load_owned_bpc names bp m ≡ ok m'
      → total_runs id m' % 2 ^ 64 ≡ (total_runs id m + copy_runs id (bp ∷ [])) % 2 ^ 64
  unfolding load_owned_bpc
  total_runs-load_one names id bp m m' h =
      let x : BlueprintWithEfficiency W = record {
        type_id = bp.type_id;
        material_efficiency = percent_off bp.material_efficiency;
        time_efficiency = percent_off bp.time_efficiency;
      } in
      elim (Bool-cases (bp.quantity == 2 ^ 64 - 2)) [
        | inl e ↦
            let (name, f, g) =
              >>=-eq-ok (get_name names bp.type_id) _ (rw (e, load_owned_bpc) at h) in
            subst
              (λ y. total_runs id y % 2 ^ 64 ≡ (total_runs id m + copy_runs id (bp ∷ [])) % 2 ^ 64)
              (kept g) (ground (arith, e, total_runs-add_runs id x bp.runs m))
        | inr e ↦
            subst
              (λ y. total_runs id y % 2 ^ 64 ≡ (total_runs id m + copy_runs id (bp ∷ [])) % 2 ^ 64)
              (kept (rw (e, load_owned_bpc) at h)) (ground (arith, e))
      ]

  total_runs-load :
      (names : Names) (id : ℕ) (bps : List OwnedBlueprint)
      (m m' : List (BlueprintWithEfficiency W × ℕ))
      → load_owned_bpcs names bps m ≡ ok m'
      → total_runs id m' % 2 ^ 64 ≡ (total_runs id m + copy_runs id bps) % 2 ^ 64
  unfolding load_owned_bpcs
  total_runs-load names id [] m m' h =
      subst (λ y. total_runs id y % 2 ^ 64 ≡ (total_runs id m + 0) % 2 ^ 64) (kept h) (omega arith)
  total_runs-load names id (bp ∷ bps) m m' h =
      let (m1, e, g) = >>=-eq-ok (load_owned_bpc names bp m) _ h in
      omega (
        arith,
        total_runs-load_one names id bp m m1 e,
        total_runs-load names id bps m1 m' g,
        copy_runs-cons id bp bps,
      )

  -- After blueprints are loaded without an exception, `runs(typeId)` is what it was before and the
  -- runs of the loaded entries of the type whose quantity is -2, modulo 2 ^ 64, however the entries
  -- were grouped by their efficiencies, and whatever `==` on these says.
  pub runs_of_type-load :
      (names : Names) (id : ℕ) (bps : List OwnedBlueprint)
      (m m' : List (BlueprintWithEfficiency W × ℕ))
      → load_owned_bpcs names bps m ≡ ok m'
      → runs_of_type id m' % 2 ^ 64 ≡ (runs_of_type id m + copy_runs id bps) % 2 ^ 64
  unfolding runs_of_type
  runs_of_type-load names id bps m m' h =
      omega (
        arith,
        runs_loop-total id 0 m',
        runs_loop-total id 0 m,
        total_runs-load names id bps m m' h,
      )
