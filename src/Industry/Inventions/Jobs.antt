-- ===== src/Industry/Inventions/Jobs.antt =====
-- The jobs of libs/industry_resources/research/inventions.cpp: T2 inventions use up a copy of the
-- blueprint, T3 inventions a relic. Sums of `std::size_t` wrap.
use eve_industry_planner.Prelude.{
  ℕ, ◌+◌, ◌^◌, ◌%◌, Option, none, some, List, [], ◌∷◌, ◌++◌, lookup, Result, ok, ◌>>=◌,
}
use eve_industry_planner.Text.{Text, codes, to_string}
use eve_industry_planner.Double.{Double}
use eve_industry_planner.Catalog.Names.{get_name}
use eve_industry_planner.Industry.Recipes.{Research, DecryptorProperty}
use eve_industry_planner.Industry.Job.{Job, new_job}
use eve_industry_planner.Industry.Stuff.{Stuff, Tables, get_resource, get_bpc}
use eve_industry_planner.Industry.Products.Jobs.{new_bpwe}

module _ {ℓ} {W : Type ℓ} ⦃d : Double W⦄ where
  abbrev decryptor_property : Option ℕ → ℕ → ℕ → ℕ → ℕ → DecryptorProperty W
  decryptor_property item me te runs probability = record {
    decryptor = item;
    material_efficiency = d.literal me 2;
    time_efficiency = d.literal te 2;
    run_modifier = runs;
    probability_modifier = d.literal probability 1;
  }

  -- `Stuff::decryptors`
  abbrev pub decryptors : List (DecryptorProperty W)
  decryptors =
      decryptor_property none 98 96 0 10
      ∷ decryptor_property (some 34203) 100 94 9 6
      ∷ decryptor_property (some 34208) 96 96 7 9
      ∷ decryptor_property (some 34206) 97 88 2 10
      ∷ decryptor_property (some 34205) 95 90 0 11
      ∷ decryptor_property (some 34201) 96 86 1 12
      ∷ decryptor_property (some 34204) 97 98 3 15
      ∷ decryptor_property (some 34202) 99 92 4 18
      ∷ decryptor_property (some 34207) 97 98 2 19
      ∷ []

  module _ (tables : Tables W) where
    unfoldable pub plain_inputs : List (ℕ × ℕ) → Stuff W → Result (List (ℕ × W) × Stuff W)
    plain_inputs [] s = ok ([], s)
    plain_inputs ((m, quantity) ∷ ms) s = do
      (r, s1) ← get_resource tables m s
      (rest, s2) ← plain_inputs ms s1
      ok ((r, d.of_nat quantity) ∷ rest, s2)

    unfoldable pub decryptor_input : Option ℕ → Stuff W → Result (List (ℕ × W) × Stuff W)
    decryptor_input none s = ok ([], s)
    decryptor_input (some item) s =
        get_resource tables item s >>= λ (r, s1). ok ((r, d.of_nat 1) ∷ [], s1)

    unfoldable pub decryptor_suffix : Option ℕ → Result Text
    decryptor_suffix none = ok (codes " without a decryptor")
    decryptor_suffix (some item) =
        get_name tables.names item >>= λ name. ok (codes " with " ++ name)

    abbrev decryptor_string : Option ℕ → Text
    decryptor_string none = codes "none"
    decryptor_string (some item) = to_string item

    module _ (source : ℕ → Stuff W → Result (ℕ × Stuff W)) (invention_tax : W)
        (values : List (ℕ × W)) (research_time_reduction : W) where
      -- one round of the loop over the decryptors; `source` is what the blueprint is taken from
      unfoldable pub invent_with :
          Research W → DecryptorProperty W → Stuff W → Result (List (Job W) × Stuff W)
      invent_with r x s = elim (lookup r.product values) [
        | none ↦ ok ([], s)
        | some value ↦ do
          (materials, s1) ← plain_inputs r.materials s
          (decryptor, s2) ← decryptor_input x.decryptor s1
          (bpc, s3) ← source r.blueprint s2
          (out, s4) ← get_bpc tables (new_bpwe r.product x.material_efficiency x.time_efficiency) s3
          name ← get_name tables.names r.product
          suffix ← decryptor_suffix x.decryptor
          let ins =
              materials
              ++ (decryptor
                  ++ ((bpc, d.of_nat 1)
                      ∷ (s.lab_time, d.times research_time_reduction (d.of_nat r.duration))
                      ∷ []))
          let amount =
              d.times (d.times x.probability_modifier r.base_probability)
                (d.of_nat ((r.produced_quantity + x.run_modifier) % 2 ^ 64))
          ok (
            new_job ins ((out, amount) ∷ []) (d.times (d.neg value) invention_tax)
                  (codes "Research_"
                    ++ (to_string r.blueprint
                        ++ (codes "_"
                            ++ (decryptor_string x.decryptor
                                ++ (codes "_" ++ to_string r.product)))))
                  (codes "Research " ++ (name ++ suffix))
                ∷ [],
            s4,
          )
      ]

      unfoldable pub invent_with_all :
          Research W → List (DecryptorProperty W) → Stuff W → Result (List (Job W) × Stuff W)
      invent_with_all r [] s = ok ([], s)
      invent_with_all r (x ∷ xs) s = do
        (js, s1) ← invent_with r x s
        (rest, s2) ← invent_with_all r xs s1
        ok (js ++ rest, s2)

      unfoldable pub invention_jobs : List (Research W) → Stuff W → Result (List (Job W) × Stuff W)
      invention_jobs [] s = ok ([], s)
      invention_jobs (r ∷ rs) s = do
        (js, s1) ← invent_with_all r decryptors s
        (rest, s2) ← invention_jobs rs s1
        ok (js ++ rest, s2)

    unfoldable pub t1_copy : ℕ → Stuff W → Result (ℕ × Stuff W)
    t1_copy bp s = get_bpc tables (new_bpwe bp (d.of_nat 1) (d.of_nat 1)) s

    unfoldable pub get_t2_invention_jobs :
        W → List (ℕ × W) → W → List (Research W) → Stuff W → Result (List (Job W) × Stuff W)
    get_t2_invention_jobs tax values reduction rs s =
        invention_jobs t1_copy tax values reduction rs s

    unfoldable pub get_t3_invention_jobs :
        W → List (ℕ × W) → W → List (Research W) → Stuff W → Result (List (Job W) × Stuff W)
    get_t3_invention_jobs tax values reduction rs s =
        invention_jobs (λ bp s. get_resource tables bp s) tax values reduction rs s
