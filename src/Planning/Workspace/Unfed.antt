-- ===== src/Planning/Workspace/Unfed.antt =====
-- What the constructor of `workspace` (apps/main/src/workspace.cpp) leaves behind.
use eve_industry_planner.Prelude.{
  ℕ, ◌≡◌, ◌≤◌, refl, ◌∙◌, subst, some, false, List, [], ◌∷◌, ok, >>=-eq-ok, All, arith, lookup,
  Option-cases, inl, inr,
}
use eve_industry_planner.Double.{Double}
use eve_industry_planner.Catalog.Names.{Names, check_name}
use eve_industry_planner.Catalog.Types.Register.{register_blueprint}
use eve_industry_planner.Catalog.Types.Register.Laws.{
  IsClosed, no_types-IsClosed, register_blueprint-IsClosed,
}
use eve_industry_planner.Industry.Skills.{Skills}
use eve_industry_planner.Industry.Skills.Levels.{HasSkills}
use eve_industry_planner.Industry.Filters.{filter_products-HasSkills, filter_inventions-HasSkills}
use eve_industry_planner.Industry.Recipes.{Planetary}
use eve_industry_planner.Industry.Copies.Filtered.{filter_copies-affordable}
use eve_industry_planner.Planning.Workspace.{
  Blueprint, Workspace, process_blueprint, process_blueprints, filter_jobs, construct,
}

made {ℓ} : {A : Type ℓ} {a b : A} → ok a ≡ ok b → a ≡ b
made h = cc h

module _ {ℓ} {W : Type ℓ} where
  -- The tables are closed, and the limits are as they were.
  abbrev Keeps : Workspace W → Workspace W → Type 0
  Keeps w w' =
      IsClosed w'.types
      × (w'.production_lines ≡ w.production_lines)
      × (w'.science_labs ≡ w.science_labs)

module _ {ℓ} {W : Type ℓ} ⦃d : Double W⦄ (names : Names) (groups : List (ℕ × ℕ))
    (avg_prices adj_prices : List (ℕ × W)) (skills : Skills W) where
  process_blueprint-IsClosed :
      (b : Blueprint W) (w w' : Workspace W)
      → process_blueprint names groups avg_prices adj_prices skills b w ≡ ok w'
      → IsClosed w.types
      → Keeps w w'
  unfolding process_blueprint
  process_blueprint-IsClosed b w w' e v =
      let (types, f, g) = >>=-eq-ok (register_blueprint groups b.id b.node w.types) _ e in
      let closed : IsClosed types = register_blueprint-IsClosed groups b.id b.node w.types v f in
      elim (Option-cases (check_name names b.id)) [
        | inl h ↦ subst (λ x. Keeps w x) (made (rw h at g)) (closed, refl, refl)
        | inr (name, h) ↦ subst (λ x. Keeps w x) (made (rw h at g)) (closed, refl, refl)
      ]

  process_blueprints-IsClosed :
      (bs : List (Blueprint W)) (w w' : Workspace W)
      → process_blueprints names groups avg_prices adj_prices skills bs w ≡ ok w'
      → IsClosed w.types
      → Keeps w w'
  unfolding process_blueprints
  process_blueprints-IsClosed [] w w' e v = subst (λ x. Keeps w x) (made e) (v, refl, refl)
  process_blueprints-IsClosed (b ∷ bs) w w' e v =
      let (w1, f, g) =
        >>=-eq-ok (process_blueprint names groups avg_prices adj_prices skills b w) _ e in
      let (c, i, j) = process_blueprint-IsClosed b w w1 f v in
      let (c', i', j') = process_blueprints-IsClosed bs w1 w' g c in (c', i' ∙ i, j' ∙ j)

  -- What a workspace that has been constructed holds.
  pub record IsReady (limit : W) (lines labs : ℕ) (w : Workspace W) : Type ℓ where
    pub closed : IsClosed w.types
    pub producible : All (λ p. HasSkills skills p.skills) w.jobs.products
    pub inventable :
        All (λ r. HasSkills skills r.skills) w.jobs.inventions.t2_blueprints
        × All (λ r. HasSkills skills r.skills) w.jobs.inventions.t3_blueprints
    pub copyable :
        All
          (λ c. (p : W) × (lookup c.blueprint avg_prices ≡ some p) × (d.lt limit p ≡ false))
          w.jobs.copies
    pub lines_bound : (w.production_lines ≤ lines) × (w.production_lines ≤ skills.production_lines)
    pub labs_bound : (w.science_labs ≤ labs) × (w.science_labs ≤ skills.science_labs)

  -- A workspace that has been constructed holds closed tables of types, only productions and
  -- inventions whose recorded skills the player has, only copies of blueprints that have an average
  -- price which the limit is not below, and no more production lines and laboratories than the
  -- settings and the skills allow.
  pub construct-IsReady :
      (limit : W) (lines labs : ℕ) (schematics : List Planetary) (bs : List (Blueprint W))
      (w : Workspace W)
      → construct names groups avg_prices adj_prices skills limit lines labs schematics bs ≡ ok w
      → IsReady limit lines labs w
  unfolding construct filter_jobs
  construct-IsReady limit lines labs schematics bs w e =
      let (w1, f, g) =
        >>=-eq-ok (process_blueprints names groups avg_prices adj_prices skills bs _) _ e in
      let (c, i, j) = process_blueprints-IsClosed bs _ w1 f no_types-IsClosed in
      subst (λ x. IsReady limit lines labs x) (made g)
        record {
          closed = c;
          producible = (filter_products-HasSkills skills w1.jobs.products).0;
          inventable = filter_inventions-HasSkills skills w1.jobs.inventions;
          copyable = filter_copies-affordable avg_prices limit w1.jobs.copies;
          lines_bound = (omega (arith, i), omega (arith, i));
          labs_bound = (omega (arith, j), omega (arith, j));
        }
