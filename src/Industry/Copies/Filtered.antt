-- ===== src/Industry/Copies/Filtered.antt =====
-- libs/industry_resources/copying/copies.cpp: what the filter of the copies leaves.
use eve_industry_planner.Prelude.{
  ℕ, ◌≡◌, some, false, List, [], ◌∷◌, lookup, remove_if, All, All-remove_if, Option-cases, inl, inr,
}
use eve_industry_planner.Double.{Double}
use eve_industry_planner.Industry.Recipes.{Copying}
use eve_industry_planner.Industry.Copies.{bpo_too_expensive, filter_copies}

module _ {ℓ} {W : Type ℓ} ⦃d : Double W⦄ where
  -- What the filter of the copies leaves has a price, and the limit is not below it.
  pub filter_copies-affordable :
      (avg_prices : List (ℕ × W)) (limit : W) (copies : List Copying)
      → All
          (λ c. (p : W) × (lookup c.blueprint avg_prices ≡ some p) × (d.lt limit p ≡ false))
          (filter_copies avg_prices limit copies)
  unfolding filter_copies bpo_too_expensive
  filter_copies-affordable avg_prices limit copies =
      each (remove_if (bpo_too_expensive avg_prices limit) copies)
        (All-remove_if (bpo_too_expensive avg_prices limit) copies)
    where
      one :
          (c : Copying)
          → bpo_too_expensive avg_prices limit c ≡ false
          → (p : W) × (lookup c.blueprint avg_prices ≡ some p) × (d.lt limit p ≡ false)
      one c e = elim (Option-cases (lookup c.blueprint avg_prices)) [
        | inl f ↦ absurd (cc (rw (f, bpo_too_expensive) at e))
        | inr (p, f) ↦ (p, f, rw (f, bpo_too_expensive) at e)
      ]

      each :
          (cs : List Copying)
          → All (λ c. bpo_too_expensive avg_prices limit c ≡ false) cs
          → All
              (λ c. (p : W) × (lookup c.blueprint avg_prices ≡ some p) × (d.lt limit p ≡ false))
              cs
      each [] v = tt
      each (c ∷ cs) (v, vs) = (one c v, each cs vs)
