-- ===== src/Pricing/Analysis/Balance.antt =====
-- The volumes that `step` of apps/pricing/main.cpp counts.
use eve_industry_planner.Prelude.{
  ℕ, ◌+◌, ◌-◌, ◌^◌, ◌%◌, ◌<◌, ◌≤◌, ◌≡◌, refl, List, [], ◌∷◌, All, ltb, ◌==◌, arith, inl, inr,
  Bool-cases,
}
use eve_industry_planner.Double.{Double}
use eve_industry_planner.Pricing.Order.{Order}
use eve_industry_planner.Pricing.Analysis.{cleared, added, matched, compare_orders}

-- the difference of 32 bits where it does not wrap
sold_of : (n m : ℕ) → m ≤ n → n < 2 ^ 32 → (n + 2 ^ 32 - m) % 2 ^ 32 ≡ n - m
sold_of n m h l = omega arith

module _ {ℓ} {W : Type ℓ} where
  abbrev pub volume_of : List (Order W) → ℕ
  volume_of [] = 0
  volume_of (o ∷ os) = o.volume + volume_of os

  -- The volume of an order that is in both views has not risen.
  abbrev pub Falls : Order W → Order W → Type 0
  Falls a b = a.id ≡ b.id → b.volume ≤ a.volume

  abbrev pub AllFall : List (Order W) → List (Order W) → Type 0
  AllFall xs ys = All (λ a. (a.volume < 2 ^ 32) × All (Falls a) ys) xs

  AllFall-tail :
      (xs : List (Order W)) (b : Order W) (ys : List (Order W))
      → AllFall xs (b ∷ ys)
      → AllFall xs ys
  AllFall-tail [] b ys h = tt
  AllFall-tail (a ∷ xs) b ys ((v, (f, fs)), hs) = ((v, fs), AllFall-tail xs b ys hs)

  module _ ⦃d : Double W⦄ where
    -- The volumes that `step` of `TritaniumBuyAnalysis` counts balance: what has been sold and what is
    -- offered in the view are together what was offered in the last view and what is new. Condition:
    -- every volume of the last view is below 2 ^ 32, and the volume of an order that is in both views
    -- has not risen.
    pub compare_orders-balanced :
        (last view : List (Order W))
        → AllFall last view
        → (compare_orders last view).sold_volume + volume_of view
          ≡ volume_of last + (compare_orders last view).new_sum
    unfolding compare_orders cleared added matched
    compare_orders-balanced [] [] h = refl
    compare_orders-balanced [] (b ∷ ys) h = omega (arith, compare_orders-balanced [] ys tt)
    compare_orders-balanced (a ∷ xs) [] (_, h) = omega (arith, compare_orders-balanced xs [] h)
    compare_orders-balanced (a ∷ xs) (b ∷ ys) ((v, (f, fs)), h) = elim (Bool-cases (a.id == b.id)) [
      | inl e ↦
          let le : b.volume ≤ a.volume = f (ground arith) in
          rw (e, compare_orders)
            (omega (
              arith,
              sold_of a.volume b.volume le v,
              compare_orders-balanced xs ys (AllFall-tail xs b ys h),
            ))
      | inr e ↦ elim (Bool-cases (ltb a.id b.id)) [
        | inl l ↦ rw (e, l, compare_orders) (omega (arith, compare_orders-balanced xs (b ∷ ys) h))
        | inr l ↦
            rw (e, l, compare_orders)
              (omega (arith, compare_orders-balanced (a ∷ xs) ys ((v, fs), AllFall-tail xs b ys h)))
      ]
    ]
