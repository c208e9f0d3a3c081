-- ===== src/OrderReader/Prices/Compared.antt =====
-- How the prices of apps/order_reader.cpp compare.
use eve_industry_planner.Prelude.{◌≡◌, ◌≢◌, refl, ◌⊎◌, inl, inr, true, false, arith, Bool-cases}
use eve_industry_planner.Double.{Double}
use eve_industry_planner.OrderReader.Prices.{Side, buy_orders, sell_orders, Limits, best}

-- What holds of `<` on doubles: NaN is neither less nor greater, and through a number that is not NaN
-- "not less" is transitive.
pub record IsCompared {ℓ} (W : Type ℓ) ⦃d : Double W⦄ (limits : Limits W) : Type ℓ where
  pub asymmetric : (a b : W) → d.lt a b ≡ true → d.lt b a ≡ false
  pub nan_lt : (a b : W) → limits.is_nan a ≡ true → (d.lt a b ≡ false) × (d.lt b a ≡ false)
  pub not_lt_trans :
      (a b c : W) → limits.is_nan b ≡ false → d.lt b a ≡ false → d.lt c b ≡ false → d.lt c a ≡ false
  pub numbers : (limits.is_nan d.infinity ≡ false) × (limits.is_nan (d.neg d.infinity) ≡ false)
  pub nan : limits.is_nan limits.quiet_nan ≡ true

module _ {ℓ} {W : Type ℓ} ⦃d : Double W⦄ (limits : Limits W) (laws : IsCompared W limits) where
  irreflexive : (a : W) → d.lt a a ≡ false
  irreflexive a = elim (Bool-cases (d.lt a a)) [ inl e ↦ laws.asymmetric a a e | inr e ↦ e ]

  number : (a : W) → limits.is_nan a ≢ true → limits.is_nan a ≡ false
  number a h = elim (Bool-cases (limits.is_nan a)) [ inl e ↦ absurd (h e) | inr e ↦ e ]

  -- b is no better than a
  abbrev pub IsNoBetter : Side → W → W → Type 0
  IsNoBetter buy_orders b a = d.lt a b ≡ false
  IsNoBetter sell_orders b a = d.lt b a ≡ false

  -- The better one of two is one of them and not NaN, and neither is better.
  pub best-IsBest :
      (side : Side) (a b : W)
      → limits.is_nan a ≡ false
      → ((best side a b ≡ a) ⊎ (best side a b ≡ b))
        × (limits.is_nan (best side a b) ≡ false)
        × IsNoBetter side a (best side a b)
        × IsNoBetter side b (best side a b)
  unfolding best
  best-IsBest buy_orders a b h = elim (Bool-cases (d.lt a b)) [
    | inl e ↦ rw e (
      inr refl,
      number b (λ n. absurd (ground (arith, laws.nan_lt b a n))),
      laws.asymmetric a b e,
      irreflexive b,
    )
    | inr e ↦ rw e (inl refl, h, irreflexive a, e)
  ]
  best-IsBest sell_orders a b h = elim (Bool-cases (d.lt b a)) [
    | inl e ↦ rw e (
      inr refl,
      number b (λ n. absurd (ground (arith, laws.nan_lt b a n))),
      laws.asymmetric b a e,
      irreflexive b,
    )
    | inr e ↦ rw e (inl refl, h, irreflexive a, e)
  ]

  pub IsNoBetter-refl : (side : Side) (a : W) → IsNoBetter side a a
  IsNoBetter-refl buy_orders a = irreflexive a
  IsNoBetter-refl sell_orders a = irreflexive a

  pub IsNoBetter-trans :
      (side : Side) (a b c : W)
      → limits.is_nan b ≡ false
      → IsNoBetter side a b
      → IsNoBetter side b c
      → IsNoBetter side a c
  IsNoBetter-trans buy_orders a b c h p q = laws.not_lt_trans a b c h p q
  IsNoBetter-trans sell_orders a b c h p q = laws.not_lt_trans c b a h q p
