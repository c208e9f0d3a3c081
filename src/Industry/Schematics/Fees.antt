-- ===== src/Industry/Schematics/Fees.antt =====
-- The tables of libs/industry_resources/schematics/schematics.cpp are large enough: `base_value` and
-- `tier_times` have an entry for every tier that `loadSchematics` lets through.
use eve_industry_planner.Prelude.{
  ℕ, ◌≤◌, ◌≡◌, refl, List, [], ◌∷◌, ◌==◌, ltb, emplace, subst, get_elem?_in_range, ok, >>=-eq-ok,
  All, arith, Bool-cases, inl, inr,
}
use eve_industry_planner.Double.{Double}
use eve_industry_planner.Industry.Recipes.{Planetary}
use eve_industry_planner.Industry.Schematics.{
  Row, SchematicOutput, Loaded, tier_of, load_output, load_row, load_rows, make_schematics,
  load_schematics, find_schematic, fee_tier, base_value, get_material_fee_and_tier,
}

-- Every output has a tier from 0 to 3.
abbrev AreTiered : List (ℕ × SchematicOutput) → Type 0
AreTiered os = All (λ o. o.1.tier ≤ 3) os

emplace-AreTiered :
    (id : ℕ) (o : SchematicOutput) (os : List (ℕ × SchematicOutput))
    → o.tier ≤ 3
    → AreTiered os
    → AreTiered (emplace id o os)
unfolding emplace
emplace-AreTiered id o [] h v = (h, tt)
emplace-AreTiered id o ((k, x) ∷ os) h (v, vs) = elim (Bool-cases (k == id)) [
  | inl e ↦ rw e (v, vs)
  | inr e ↦ rw e (v, emplace-AreTiered id o os h vs)
]

made {ℓ} : {A : Type ℓ} {a b : A} → ok a ≡ ok b → a ≡ b
made h = cc h

load_output-AreTiered :
    (r : Row) (tier : ℕ) (l l' : Loaded)
    → load_output r tier l ≡ ok l'
    → AreTiered l.outputs
    → AreTiered l'.outputs
unfolding load_output
load_output-AreTiered r tier l l' e v = elim (Bool-cases (ltb 3 tier)) [
  | inl h ↦ absurd (cc (rw h at e))
  | inr h ↦
      subst (λ x. AreTiered x.outputs) (made (rw h at e))
        (emplace-AreTiered r.schematic_id _ l.outputs (ground (arith, h)) v)
]

load_rows-AreTiered :
    (rs : List Row) (l l' : Loaded)
    → load_rows rs l ≡ ok l'
    → AreTiered l.outputs
    → AreTiered l'.outputs
unfolding load_rows load_row
load_rows-AreTiered [] l l' e v = subst (λ x. AreTiered x.outputs) (made e) v
load_rows-AreTiered (r ∷ rs) l l' e v =
    let (l1, f, g) = >>=-eq-ok (load_row r l) _ e in
    load_rows-AreTiered rs l1 l' g (elim (Bool-cases (r.is_input == 0)) [
      | inl h ↦ load_output-AreTiered r (tier_of r.market_group) l l1 (rw (h, load_row) at f) v
      | inr h ↦ subst (λ x. AreTiered x.outputs) (made (rw (h, load_row) at f)) v
    ])

make_schematics-tiers :
    (inputs : List (ℕ × ℕ × ℕ)) (os : List (ℕ × SchematicOutput))
    → AreTiered os
    → All (λ s. s.tier ≤ 3) (make_schematics inputs os)
unfolding make_schematics
make_schematics-tiers inputs [] v = tt
make_schematics-tiers inputs ((id, o) ∷ os) (v, vs) = (v, make_schematics-tiers inputs os vs)

find_schematic-tier :
    (id : ℕ) (ss : List Planetary) → All (λ s. s.tier ≤ 3) ss → fee_tier (find_schematic id ss) ≤ 4
unfolding find_schematic
find_schematic-tier id [] v = omega arith
find_schematic-tier id (s ∷ ss) (v, vs) = elim (Bool-cases (s.product == id)) [
  | inl e ↦ rw (e, find_schematic) (omega (arith, v))
  | inr e ↦ rw (e, find_schematic) (find_schematic-tier id ss vs)
]

load_schematics-tiers :
    (rows : List Row) (ss : List Planetary)
    → load_schematics rows ≡ ok ss
    → All (λ s. s.tier ≤ 3) ss
unfolding load_schematics
load_schematics-tiers rows ss e =
    let (l, f, g) =
      >>=-eq-ok (load_rows rows record { inputs = []; outputs = []; types = [] }) _ e in
    subst (λ x. All (λ s. s.tier ≤ 3) x) (made g)
      (make_schematics-tiers l.inputs l.outputs (load_rows-AreTiered rows _ l f tt))

module _ {ℓ} {W : Type ℓ} ⦃d : Double W⦄ where
  -- Where `loadSchematics` returns, every schematic has a tier from 0 to 3, and
  -- `getMaterialFeeAndTier` finds a fee for every item, with a tier up to 4: the table of base values
  -- is never left.
  pub get_material_fee_and_tier-loaded :
      (rows : List Row) (ss : List Planetary)
      → load_schematics rows ≡ ok ss
      → All (λ s. s.tier ≤ 3) ss
        × ((id : ℕ)
            → (fee : W) × (tier : ℕ) × (get_material_fee_and_tier ss id ≡ ok (fee, tier))
              × (tier ≤ 4))
  unfolding get_material_fee_and_tier
  get_material_fee_and_tier-loaded rows ss e =
      let v = load_schematics-tiers rows ss e in
      (
        v,
        λ id.
            let t = fee_tier (find_schematic id ss) in
            let (x, f) =
              get_elem?_in_range base_value t (omega (arith, find_schematic-tier id ss v)) in
            (d.times (d.literal 17 2) x, t, rw f refl, find_schematic-tier id ss v),
      )
