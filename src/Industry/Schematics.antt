-- ===== src/Industry/Schematics.antt =====
-- libs/industry_resources/schematics/schematics.cpp: planetary production. The rows of the database are
-- given as the six numbers of each; a row of a schematic's output comes as its own constructor.
pub mod Jobs
pub mod Fees
use eve_industry_planner.Prelude.{
  ℕ, suc, ◌+◌, ◌-◌, ◌^◌, ◌%◌, Bool, true, false, Option, none, some, List, [], ◌∷◌, ◌++◌,
  if◌then◌else◌, ◌==◌, ltb, lookup, emplace, get_elem?, Result, ok, throw, ◌>>=◌, or_throw,
  runtime_error, undefined,
}
use eve_industry_planner.Double.{Double}
use eve_industry_planner.Industry.Recipes.{Planetary}

pub record Row : Type 0 where
  pub schematic_id : ℕ
  pub type_id : ℕ
  pub quantity : ℕ
  pub is_input : ℕ
  pub market_group : ℕ
  pub cycle_time : ℕ

pub record SchematicOutput : Type 0 where
  pub type_id : ℕ
  pub quantity : ℕ
  pub tier : ℕ
  pub cycle_time : ℕ

-- `marketGroup - 1334u` on `std::size_t`
unfoldable pub tier_of : ℕ → ℕ
tier_of market_group = (market_group + (2 ^ 64 - 1334)) % 2 ^ 64

-- `inputs` and `output`, and the types that were seen
pub record Loaded : Type 0 where
  pub inputs : List (ℕ × ℕ × ℕ)
  pub outputs : List (ℕ × SchematicOutput)
  pub types : List ℕ

unfoldable pub load_output : Row → ℕ → Loaded → Result Loaded
load_output r tier l =
    if ltb 3 tier
    then throw runtime_error
    else ok (record l {
      outputs =
          emplace r.schematic_id
            (record {
              type_id = r.type_id;
              quantity = r.quantity;
              tier = tier;
              cycle_time = r.cycle_time;
            })
            l.outputs;
      types = r.type_id ∷ l.types;
    })

unfoldable pub load_row : Row → Loaded → Result Loaded
load_row r l =
    if r.is_input == 0
    then load_output r (tier_of r.market_group) l
    else ok (record l {
      inputs = l.inputs ++ ((r.schematic_id, r.type_id, r.quantity) ∷ []);
      types = r.type_id ∷ l.types;
    })

unfoldable pub load_rows : List Row → Loaded → Result Loaded
load_rows [] l = ok l
load_rows (r ∷ rs) l = load_row r l >>= λ l'. load_rows rs l'

-- `inputs.equal_range(id)`
unfoldable pub inputs_of : ℕ → List (ℕ × ℕ × ℕ) → List (ℕ × ℕ)
inputs_of id [] = []
inputs_of id ((s, type, quantity) ∷ rest) =
    let more = inputs_of id rest in if s == id then (type, quantity) ∷ more else more

unfoldable pub make_schematics : List (ℕ × ℕ × ℕ) → List (ℕ × SchematicOutput) → List Planetary
make_schematics inputs [] = []
make_schematics inputs ((id, o) ∷ os) =
    record {
      product = o.type_id;
      produced_quantity = o.quantity;
      materials = inputs_of id inputs;
      duration = o.cycle_time;
      tier = o.tier;
    }
    ∷ make_schematics inputs os

unfoldable pub load_schematics : List Row → Result (List Planetary)
load_schematics rows = load_rows rows record { inputs = []; outputs = []; types = [] } >>= λ l.
    ok (make_schematics l.inputs l.outputs)

-- `find_if` over the products
unfoldable pub find_schematic : ℕ → List Planetary → Option Planetary
find_schematic id [] = none
find_schematic id (p ∷ ps) = if p.product == id then some p else find_schematic id ps

abbrev pub fee_tier : Option Planetary → ℕ
fee_tier none = 0
fee_tier (some p) = p.tier + 1

module _ {ℓ} {W : Type ℓ} ⦃d : Double W⦄ where
  abbrev pub base_value : List W
  base_value =
      d.literal 50 1
      ∷ d.literal 4000 1
      ∷ d.literal 72000 1
      ∷ d.literal 60000 0
      ∷ d.literal 1200000 0
      ∷ []

  -- An access past the end of `base_value` is undefined.
  unfoldable pub get_material_fee_and_tier : List Planetary → ℕ → Result (W × ℕ)
  get_material_fee_and_tier schematics id =
      let tier = fee_tier (find_schematic id schematics) in
      or_throw (get_elem? base_value tier) undefined >>= λ v. ok (d.times (d.literal 17 2) v, tier)
