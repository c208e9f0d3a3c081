-- ===== src/Industry/Inventions/Moved.antt =====
-- The skills that libs/industry_resources/research/inventions.cpp stores: `addInventionData` moves the
-- list of them into the first invention of a blueprint.
use eve_industry_planner.Prelude.{
  ℕ, ◌+◌, ◌≤◌, ◌≡◌, Option, none, some, List, [], ◌∷◌, ◌++◌, ◌==◌, any_of, arith, Option-cases,
  Bool-cases, inl, inr,
}
use eve_industry_planner.Double.{Double}
use eve_industry_planner.Industry.Skills.{Skills, SkillRequirement}
use eve_industry_planner.Industry.Recipes.{Activity, ActivityProduct, Research}
use eve_industry_planner.Industry.Products.{is_unpriced}
use eve_industry_planner.Industry.Inventions.{
  Inventions, store_research, prob_mod, add_inventions, add_with_skills, add_invention_data,
}

abbrev asks : List SkillRequirement → ℕ
asks [] = 0
asks (s ∷ ss) = 1

module _ {ℓ} {W : Type ℓ} where
  -- how many of the researches name a skill
  abbrev pub asking : List (Research W) → ℕ
  asking [] = 0
  asking (r ∷ rs) = asks r.skills + asking rs

  asking-append : (xs ys : List (Research W)) → asking (xs ++ ys) ≡ asking xs + asking ys
  asking-append [] ys = omega arith
  asking-append (x ∷ xs) ys = omega (arith, asking-append xs ys)

  abbrev pub asking_in : Inventions W → ℕ
  asking_in i = asking i.t2_blueprints + asking i.t3_blueprints

  asking-store :
      (racial : ℕ) (r : Research W) (i : Inventions W)
      → asking_in (store_research racial r i) ≡ asking_in i + asking (r ∷ [])
  unfolding store_research
  asking-store racial r i = elim (Bool-cases (racial == 3408)) [
    | inl e ↦ rw e (omega (arith, asking-append i.t3_blueprints (r ∷ [])))
    | inr e ↦ rw e (omega (arith, asking-append i.t2_blueprints (r ∷ [])))
  ]

asks-bound : (required : List SkillRequirement) → asks required ≤ 1
asks-bound [] = omega arith
asks-bound (s ∷ ss) = omega arith

module _ {ℓ} {W : Type ℓ} ⦃d : Double W⦄ where
  add_inventions-asking :
      (a : Activity W) (blueprint_id : ℕ) (avg_prices : List (ℕ × W)) (racial : ℕ) (factor : W)
      (ps : List (ActivityProduct W)) (required : List SkillRequirement) (i : Inventions W)
      → asking_in (add_inventions a blueprint_id avg_prices racial factor ps required i)
        ≤ asking_in i + asks required
  unfolding add_inventions
  add_inventions-asking a b avg racial factor [] required i = omega arith
  add_inventions-asking a b avg racial factor (p ∷ ps) required i =
      elim (Option-cases p.probability) [
        | inl e ↦ rw (e, add_inventions) (add_inventions-asking a b avg racial factor ps required i)
        | inr (base, e) ↦ elim (Option-cases a.materials) [
          | inl f ↦
              rw (e, f, add_inventions) (add_inventions-asking a b avg racial factor ps required i)
          | inr (materials, f) ↦ elim (Option-cases a.time) [
            | inl g ↦
                rw (e, f, g, add_inventions)
                  (add_inventions-asking a b avg racial factor ps required i)
            | inr (t, g) ↦ elim (Bool-cases (any_of (λ m. is_unpriced avg m.0) materials)) [
              | inl h ↦ rw (e, f, g, add_inventions, h) (omega arith)
              | inr h ↦
                  rw (e, f, g, add_inventions, h)
                    (let r : Research W = record {
                      blueprint = b;
                      product = p.type_id;
                      produced_quantity = p.quantity;
                      materials = materials;
                      skills = required;
                      duration = t;
                      base_probability = d.times base factor;
                    } in
                      omega (
                        arith,
                        add_inventions-asking a b avg racial factor ps []
                            (store_research racial r i),
                        asking-store racial r i,
                      ))
            ]
          ]
        ]
      ]

  add_with_skills-asking :
      (a : Activity W) (b : ℕ) (avg : List (ℕ × W)) (s : Skills W) (ps : List (ActivityProduct W))
      (required : List SkillRequirement) (racial science : List ℕ) (i : Inventions W)
      → asking_in (add_with_skills a b avg s ps required racial science i) ≤ asking_in i + 1
  unfolding add_with_skills
  add_with_skills-asking a b avg s ps required (r ∷ []) (x ∷ y ∷ []) i =
      omega (
        arith,
        add_inventions-asking a b avg r (prob_mod s r x y) ps required i,
        asks-bound required,
      )
  add_with_skills-asking a b avg s ps required [] science i = omega arith
  add_with_skills-asking a b avg s ps required (r ∷ q ∷ rs) science i = omega arith
  add_with_skills-asking a b avg s ps required (r ∷ []) [] i = omega arith
  add_with_skills-asking a b avg s ps required (r ∷ []) (x ∷ []) i = omega arith
  add_with_skills-asking a b avg s ps required (r ∷ []) (x ∷ y ∷ z ∷ zs) i = omega arith

  -- However many products the invention of a blueprint has, at most one of the inventions that
  -- `addInventionData` adds names the skills that it requires.
  pub add_invention_data-asking :
      (node : Option (Activity W)) (b : ℕ) (avg : List (ℕ × W)) (s : Skills W) (i : Inventions W)
      → asking_in (add_invention_data node b avg s i) ≤ asking_in i + 1
  unfolding add_invention_data
  add_invention_data-asking none b avg s i = omega arith
  add_invention_data-asking (some a) b avg s i = elim (Option-cases a.products) [
    | inl e ↦ rw (e, add_invention_data) (omega arith)
    | inr (ps, e) ↦ elim (Option-cases a.skills) [
      | inl f ↦ rw (e, f, add_invention_data) (omega arith)
      | inr (required, f) ↦
          rw (e, f, add_invention_data) (add_with_skills-asking a b avg s ps required _ _ i)
    ]
  ]
