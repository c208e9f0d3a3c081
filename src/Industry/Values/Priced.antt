-- ===== src/Industry/Values/Priced.antt =====
-- The values of libs/industry_resources/input_values.cpp and job_values.cpp: what has one.
use eve_industry_planner.Prelude.{
  ℕ, ◌≡◌, ◌≢◌, refl, sym, ◌∙◌, true, some, List, [], ◌∷◌, ◌==◌, lookup, insert, lookup-insert,
  lookup-insert_self, lookup-insert_ne, All, arith, Option-cases, Bool-cases, inl, inr, ◌⊎◌, subst,
  any_of,
}
use eve_industry_planner.Double.{Double}
use eve_industry_planner.Industry.Values.{
  add_input_values, input_value, set_job_value, set_job_values,
}

-- no blueprint of the table is the item
abbrev pub IsNoBlueprint : ℕ → List (ℕ × ℕ) → Type 0
IsNoBlueprint id es = All (λ e. e.0 ≢ id) es

module _ {ℓ} {W : Type ℓ} ⦃d : Double W⦄ where
  abbrev pub HasPrice : List (ℕ × W) → ℕ × ℕ → Type ℓ
  HasPrice prices (m, quantity) = (price : W) × (lookup m prices ≡ some price)

  add_priced :
      (prices : List (ℕ × W)) (ms : List (ℕ × ℕ)) (iv : W)
      → All (HasPrice prices) ms
      → (v : W) × (add_input_values prices ms iv ≡ some v)
  unfolding add_input_values
  add_priced prices [] iv h = (iv, refl)
  add_priced prices ((m, q) ∷ ms) iv ((p, e), hs) =
      rw (e, add_input_values) (add_priced prices ms _ hs)

  priced_of :
      (prices : List (ℕ × W)) (ms : List (ℕ × ℕ)) (iv v : W)
      → add_input_values prices ms iv ≡ some v
      → All (HasPrice prices) ms
  unfolding add_input_values
  priced_of prices [] iv v e = tt
  priced_of prices ((m, q) ∷ ms) iv v e = elim (Option-cases (lookup m prices)) [
    | inl f ↦ absurd (cc (rw (f, add_input_values) at e))
    | inr (p, f) ↦ ((p, f), priced_of prices ms _ v (rw (f, add_input_values) at e))
  ]

  -- A list of materials has an input value exactly if each of them has a price: with prices there is a
  -- value, and with a value there are the prices.
  pub input_value-HasPrice :
      (prices : List (ℕ × W)) (ms : List (ℕ × ℕ))
      → (All (HasPrice prices) ms → (v : W) × (input_value prices ms ≡ some v))
        × ((v : W) → input_value prices ms ≡ some v → All (HasPrice prices) ms)
  unfolding input_value
  input_value-HasPrice prices ms = (
    (λ h. add_priced prices ms (d.literal 0 1) h),
    (λ v e. priced_of prices ms (d.literal 0 1) v e),
  )

  set_kept :
      (iv : List (ℕ × W)) (bp product id : ℕ) (v w : W) (values : List (ℕ × W))
      → bp ≢ id
      → lookup id iv ≡ some v
      → lookup product iv ≡ some w
      → (lookup id values ≡ some v) ⊎ (product ≡ id)
      → lookup id (insert bp (d.times (d.literal 2 2) w) (insert product w values)) ≡ some v
  set_kept iv bp product id v w values n e f h =
      lookup-insert_ne bp id (d.times (d.literal 2 2) w) (insert product w values) n
      ∙ elim (Bool-cases (product == id)) [
        | inl g ↦
            let q : product ≡ id = ground (arith, g) in
            subst (λ x. lookup x (insert product w values) ≡ some v) q
              (lookup-insert_self product w values
                ∙ sym f
                ∙ subst (λ x. lookup x iv ≡ some v) (sym q) e)
        | inr g ↦
            lookup-insert product id w values
            ∙ elim h [ inl i ↦ rw g i | inr i ↦ absurd (ground (arith, g, i)) ]
      ]

  set_job_values-kept :
      (iv : List (ℕ × W)) (es : List (ℕ × ℕ)) (id : ℕ) (v : W) (values : List (ℕ × W))
      → lookup id values ≡ some v
      → IsNoBlueprint id es
      → lookup id iv ≡ some v
      → lookup id (set_job_values iv es values) ≡ some v
  unfolding set_job_values set_job_value
  set_job_values-kept iv [] id v values h n e = h
  set_job_values-kept iv ((bp, product) ∷ es) id v values h (n, ns) e =
      elim (Option-cases (lookup product iv)) [
        | inl f ↦
            rw (f, set_job_values, set_job_value) (set_job_values-kept iv es id v values h ns e)
        | inr (w, f) ↦
            rw (f, set_job_values, set_job_value)
              (set_job_values-kept iv es id v _ (set_kept iv bp product id v w values n e f (inl h))
                ns e)
      ]

  -- Every product in the table of blueprints that has an input value has it as its job value after
  -- `setJobValues`, in whatever order the table is gone through and whatever the values were, if the
  -- product is not itself a blueprint of the table.
  pub set_job_values-product :
      (iv : List (ℕ × W)) (es : List (ℕ × ℕ)) (id : ℕ) (v : W) (values : List (ℕ × W))
      → lookup id iv ≡ some v
      → any_of (λ e. e.1 == id) es ≡ true
      → IsNoBlueprint id es
      → lookup id (set_job_values iv es values) ≡ some v
  unfolding set_job_values set_job_value
  set_job_values-product iv [] id v values e a n = absurd (cc a)
  set_job_values-product iv ((bp, product) ∷ es) id v values e a (n, ns) =
      elim (Option-cases (lookup product iv)) [
        | inl f ↦
            rw (f, set_job_values, set_job_value)
              (set_job_values-product iv es id v values e
                (elim (Bool-cases (product == id)) [
                  | inl g ↦ let q : product ≡ id = ground (arith, g) in absurd (cc (f, e, q))
                  | inr g ↦ ground (arith, g, a)
                ])
                ns)
        | inr (w, f) ↦
            rw (f, set_job_values, set_job_value)
              (elim (Bool-cases (product == id)) [
                | inl g ↦
                    set_job_values-kept iv es id v _
                      (set_kept iv bp product id v w values n e f (inr (ground (arith, g)))) ns e
                | inr g ↦ set_job_values-product iv es id v _ e (ground (arith, g, a)) ns
              ])
      ]
