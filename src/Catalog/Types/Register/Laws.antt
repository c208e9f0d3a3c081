-- ===== src/Catalog/Types/Register/Laws.antt =====
-- What `registerBlueprint` of libs/industry_resources/types/types.cpp keeps true.
use eve_industry_planner.Prelude.{
  ℕ, ◌≡◌, subst, true, Option, none, some, List, [], ◌∷◌, lookup, lookup-insert, contains, add,
  contains-add, ok, or_throw, >>=-eq-ok, runtime_error, arith, ◌==◌, Bool-cases, inl, inr,
}
use eve_industry_planner.Catalog.Types.{Types, no_types}
use eve_industry_planner.Catalog.Types.Register.{
  BlueprintNode, register_blueprint, register_product, register_t2, register_t3, is_ancient_relic,
}

-- Every product is made from a blueprint that is registered, and every blueprint that makes something
-- makes a product.
pub record IsClosed (s : Types) : Type 0 where
  pub made : (p b : ℕ) → lookup p s.product_to_bp ≡ some b → contains b s.blueprints ≡ true
  pub listed :
      (p b : ℕ) → lookup p s.product_to_bp ≡ some b → contains p s.manufacturing_outputs ≡ true
  pub output :
      (p : ℕ)
      → contains p s.manufacturing_outputs ≡ true
      → (b : ℕ) × (lookup p s.product_to_bp ≡ some b)
  pub makes :
      (b p : ℕ)
      → lookup b s.bp_to_product ≡ some p
      → (contains b s.blueprints ≡ true) × (contains p s.manufacturing_outputs ≡ true)

pub no_types-IsClosed : IsClosed no_types
unfolding lookup contains
no_types-IsClosed = record {
  made = λ p b e. cc;
  listed = λ p b e. cc;
  output = λ p e. absurd (cc e);
  makes = λ b p e. absurd (cc e);
}

listed_product-IsClosed :
    (bp p : ℕ) (s : Types)
    → contains bp s.blueprints ≡ true
    → IsClosed s
    → IsClosed (register_product bp (some p) s)
unfolding register_product
listed_product-IsClosed bp p s here c = record {
  made = λ q b e. ground (arith, lookup-insert p q bp s.product_to_bp, c.made q b);
  listed = λ q b e. ground (
    arith,
    lookup-insert p q bp s.product_to_bp,
    c.listed q b,
    contains-add p q s.manufacturing_outputs,
  );
  output = λ q e. elim (Bool-cases (p == q)) [
    | inl h ↦ (bp, ground (arith, lookup-insert p q bp s.product_to_bp))
    | inr h ↦
        let (b, old) = c.output q (ground (arith, contains-add p q s.manufacturing_outputs)) in
        (b, ground (arith, lookup-insert p q bp s.product_to_bp))
  ];
  makes = λ b q e. ground (
    arith,
    lookup-insert bp b p s.bp_to_product,
    c.makes b q,
    contains-add p q s.manufacturing_outputs,
  );
}

register_product-IsClosed :
    (bp : ℕ) (p : Option ℕ) (s : Types)
    → contains bp s.blueprints ≡ true
    → IsClosed s
    → IsClosed (register_product bp p s)
unfolding register_product
register_product-IsClosed bp none s here c = c
register_product-IsClosed bp (some p) s here c = listed_product-IsClosed bp p s here c

register_t2-IsClosed :
    (bp : ℕ) (nodes : List (Option ℕ)) (s : Types) → IsClosed s → IsClosed (register_t2 bp nodes s)
unfolding register_t2
register_t2-IsClosed bp [] s c = c
register_t2-IsClosed bp (none ∷ nodes) s c = register_t2-IsClosed bp nodes s c
register_t2-IsClosed bp (some p ∷ nodes) s c =
    register_t2-IsClosed bp nodes _
      (record { made = c.made; listed = c.listed; output = c.output; makes = c.makes })

register_t3-IsClosed :
    (bp : ℕ) (nodes : List (Option ℕ)) (s : Types) → IsClosed s → IsClosed (register_t3 bp nodes s)
unfolding register_t3
register_t3-IsClosed bp [] s c = c
register_t3-IsClosed bp (none ∷ nodes) s c = register_t3-IsClosed bp nodes s c
register_t3-IsClosed bp (some p ∷ nodes) s c =
    register_t3-IsClosed bp nodes _
      (record { made = c.made; listed = c.listed; output = c.output; makes = c.makes })

listed_blueprint-IsClosed :
    (bp : ℕ) (s : Types) → IsClosed s → IsClosed (record s { blueprints = add bp s.blueprints })
listed_blueprint-IsClosed bp s c = record {
  made = λ p b e. ground (arith, contains-add bp b s.blueprints, c.made p b);
  listed = c.listed;
  output = c.output;
  makes = λ b p e. ground (arith, contains-add bp b s.blueprints, c.makes b p);
}

-- Registering a blueprint keeps the tables closed, if it succeeds: every product that is listed has a
-- blueprint, every blueprint in either table is registered, and every product in either table is
-- listed.
pub register_blueprint-IsClosed :
    (groups : List (ℕ × ℕ)) (bp : ℕ) (b : BlueprintNode) (s : Types) {s' : Types}
    → IsClosed s
    → register_blueprint groups bp b s ≡ ok s'
    → IsClosed s'
unfolding register_blueprint
register_blueprint-IsClosed groups bp b s {s' = s'} c h =
    let (id, e, k) = >>=-eq-ok (or_throw b.blueprint_type_id runtime_error) _ h in
    let made =
      register_product bp b.manufacturing_product (record s { blueprints = add bp s.blueprints }) in
    let closed : IsClosed made =
      register_product-IsClosed bp b.manufacturing_product _
        (ground (arith, contains-add bp bp s.blueprints)) (listed_blueprint-IsClosed bp s c) in
    elim (Bool-cases (is_ancient_relic groups id)) [
      | inl relic ↦
          subst IsClosed (ground arith) (register_t3-IsClosed bp b.invention_products made closed)
      | inr other ↦
          subst IsClosed (ground arith) (register_t2-IsClosed bp b.invention_products made closed)
    ]
