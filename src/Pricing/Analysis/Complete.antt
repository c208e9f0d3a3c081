-- ===== src/Pricing/Analysis/Complete.antt =====
-- The orders that `step` of apps/pricing/main.cpp lists.
use eve_industry_planner.Prelude.{◌≡◌, false, List, [], ◌∷◌}
use eve_industry_planner.Double.{Double}
use eve_industry_planner.Pricing.Order.{Order}
use eve_industry_planner.Pricing.Analysis.{new_kind, old_kind, unchanged_kind, OrderDiff}

module _ {ℓ} {W : Type ℓ} where
  -- the orders that are listed as old or unchanged
  abbrev pub orders_before : List (OrderDiff W) → List (Order W)
  orders_before [] = []
  orders_before (x ∷ xs) = elim x.kind [
    | new_kind ↦ orders_before xs
    | old_kind ↦ x.order ∷ orders_before xs
    | unchanged_kind ↦ x.order ∷ orders_before xs
  ]

module _ {ℓ} {W : Type ℓ} ⦃d : Double W⦄ where
  -- Two versions of an order that count as unchanged.
  pub record IsSame (a b : Order W) : Type 0 where
    pub id : a.id ≡ b.id
    pub volume : a.volume ≡ b.volume
    pub not_below : d.lt a.price b.price ≡ false
    pub not_above : d.lt b.price a.price ≡ false

  -- The list shows the orders of a view: each as new, or its last version as unchanged.
  pub data Shows : List (OrderDiff W) → List (Order W) → Type ℓ where
    nothing : Shows [] []
    old_one :
        (x : OrderDiff W) (xs : List (OrderDiff W)) (bs : List (Order W))
        → x.kind ≡ old_kind
        → Shows xs bs
        → Shows (x ∷ xs) bs
    new_one :
        (x : OrderDiff W) (xs : List (OrderDiff W)) (b : Order W) (bs : List (Order W))
        → x.kind ≡ new_kind
        → x.order ≡ b
        → Shows xs bs
        → Shows (x ∷ xs) (b ∷ bs)
    unchanged_one :
        (x : OrderDiff W) (xs : List (OrderDiff W)) (b : Order W) (bs : List (Order W))
        → x.kind ≡ unchanged_kind
        → IsSame x.order b
        → Shows xs bs
        → Shows (x ∷ xs) (b ∷ bs)

  -- Of two versions of an order both are listed, or the old one as unchanged.
  record AreBoth (a b : Order W) (xs ds : List (OrderDiff W)) : Type ℓ where
    before : orders_before ds ≡ a ∷ orders_before xs
    after : (bs : List (Order W)) → Shows xs bs → Shows ds (b ∷ bs)
