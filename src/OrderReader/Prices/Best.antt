-- ===== src/OrderReader/Prices/Best.antt =====
-- The best price that `getMaxPriceInStation` and `getMinPriceInStation` of apps/order_reader.cpp find.
use eve_industry_planner.Prelude.{
  ℕ, ◌≡◌, ap, refl, sym, subst, ◌∙◌, ◌⊎◌, inl, inr, Bool, ◌&&◌, ◌==◌, true, false, List, [], All,
  ◌∷◌, if◌then◌else◌, arith, ok, ◌>>=◌, >>=-eq-ok, ok-injective,
}
use eve_industry_planner.Double.{Double}
use eve_industry_planner.OrderReader.Prices.Compared.{
  IsCompared, IsNoBetter, IsNoBetter-refl, IsNoBetter-trans, best-IsBest,
}
use eve_industry_planner.OrderReader.Prices.{
  Side, buy_orders, sell_orders, Limits, Offer, worst, best, is_counted, price_from,
  price_in_station,
}

module _ {ℓ} {W : Type ℓ} ⦃d : Double W⦄ (limits : Limits W) (laws : IsCompared W limits) where
  -- b is the price of an order that counts
  pub data Offered (side : Side) (station : ℕ) (b : W) : List (Offer W) → Type ℓ where
    here :
        {v : Offer W} {vs : List (Offer W)}
        → is_counted side station v ≡ ok true
        → v.price ≡ ok b
        → Offered side station b (v ∷ vs)
    there :
        {v : Offer W} {vs : List (Offer W)}
        → Offered side station b vs
        → Offered side station b (v ∷ vs)

  -- What the loop does with the first order.
  pub data First (side : Side) (station : ℕ) (a x : W) (v : Offer W) (vs : List (Offer W))
      : Type ℓ where
    counts :
        (b : W)
        → is_counted side station v ≡ ok true
        → v.price ≡ ok b
        → price_from side station (best side a b) vs ≡ ok x
        → First side station a x v vs
    skipped :
        is_counted side station v ≡ ok false
        → price_from side station a vs ≡ ok x
        → First side station a x v vs

  price_from-First :
      (side : Side) (station : ℕ) (a : W) (v : Offer W) (vs : List (Offer W)) {x : W}
      → price_from side station a (v ∷ vs) ≡ ok x
      → First side station a x v vs
  unfolding price_from
  price_from-First side station a v vs {x} h =
      let (c, e, f) = >>=-eq-ok (is_counted side station v) _ h in decided c e f
    where
      decided :
          (c : Bool)
          → is_counted side station v ≡ ok c
          → (if c then (v.price >>= λ b. ok (best side a b)) else ok a)
              >>= (λ a'. price_from side station a' vs)
            ≡ ok x
          → First side station a x v vs
      decided false e f = skipped e f
      decided true e f =
          let (a', g, k) =
            >>=-eq-ok (v.price >>= λ b. ok (best side a b)) (λ a'. price_from side station a' vs)
              f in
          let (b, m, n) = >>=-eq-ok v.price (λ b. ok (best side a b)) g in
          counts b e m (subst (λ y. price_from side station y vs ≡ ok x) (sym (ok-injective n)) k)

  Offered-head :
      (side : Side) (station : ℕ) (b : W) (v : Offer W) (vs : List (Offer W))
      → Offered side station b (v ∷ vs)
      → ((is_counted side station v ≡ ok true) × (v.price ≡ ok b)) ⊎ Offered side station b vs
  Offered-head side station b v vs (here e p) = inl (e, p)
  Offered-head side station b v vs (there o) = inr o

  nothing-Offered :
      (side : Side) (station : ℕ) (b : W) (vs : List (Offer W))
      → vs ≡ []
      → ¬ Offered side station b vs
  nothing-Offered side station b _ e (here p q) = cc
  nothing-Offered side station b _ e (there o) = cc

  price_from-IsBest :
      (side : Side) (station : ℕ) (a : W) (vs : List (Offer W)) {x : W}
      → limits.is_nan a ≡ false
      → price_from side station a vs ≡ ok x
      → ((x ≡ a) ⊎ Offered side station x vs)
        × (limits.is_nan x ≡ false)
        × IsNoBetter limits laws side a x
        × ((b : W) → Offered side station b vs → IsNoBetter limits laws side b x)
  unfolding price_from
  price_from-IsBest side station a [] h e =
      let q : a ≡ _ = ok-injective e in
      (
        inl (sym q),
        subst (λ y. limits.is_nan y ≡ false) q h,
        subst (IsNoBetter limits laws side a) q (IsNoBetter-refl limits laws side a),
        λ b o. absurd (nothing-Offered side station b [] refl o),
      )
  price_from-IsBest side station a (v ∷ vs) {x} h e =
      elim (price_from-First side station a v vs e) [
        | counts b c p f ↦
            let (one, num, ga, gb) = best-IsBest limits laws side a b h in
            let (source, n, na, all) = price_from-IsBest side station (best side a b) vs num f in
            (
              elim source [
                | inr o ↦ inr (there o)
                | inl q ↦ elim one [
                  | inl r ↦ inl (q ∙ r)
                  | inr r ↦ inr (here c (p ∙ ap ok (sym (q ∙ r))))
                ]
              ],
              n,
              IsNoBetter-trans limits laws side a (best side a b) x num ga na,
              λ b' o. elim (Offered-head side station b' v vs o) [
                | inr o' ↦ all b' o'
                | inl (c', p') ↦
                    let same : b' ≡ b = ok-injective (sym p' ∙ p) in
                    subst (λ y. IsNoBetter limits laws side y x) (sym same)
                      (IsNoBetter-trans limits laws side b (best side a b) x num gb na)
              ],
            )
        | skipped c f ↦
            let (source, n, na, all) = price_from-IsBest side station a vs h f in
            (
              elim source [ inl q ↦ inl q | inr o ↦ inr (there o) ],
              n,
              na,
              λ b' o. elim (Offered-head side station b' v vs o) [
                | inr o' ↦ all b' o'
                | inl (c', p') ↦ absurd (ground (arith, c, c'))
              ],
            )
      ]

  -- A list whose orders all have the members that are asked for.
  pub record IsRead (v : Offer W) : Type ℓ where
    pub location : (n : ℕ) × (v.location ≡ ok n)
    pub min_volume : (n : ℕ) × (v.min_volume ≡ ok n)
    pub price : (w : W) × (v.price ≡ ok w)

  is_counted-returns :
      (side : Side) (station : ℕ) (v : Offer W)
      → IsRead v
      → (c : Bool) × (is_counted side station v ≡ ok c)
  unfolding is_counted
  is_counted-returns buy_orders station v r =
      (r.location.0 == station && r.min_volume.0 == 1, rw (r.location.1, r.min_volume.1) refl)
  is_counted-returns sell_orders station v r = (r.location.0 == station, rw (r.location.1) refl)

  -- where the loop goes on after an order, or an order that counts
  goes_on :
      (side : Side) (station : ℕ) (a : W) (v : Offer W) (vs : List (Offer W))
      → IsRead v
      → ((a' : W) → (x : W) × (price_from side station a' vs ≡ ok x))
      → (c : Bool) → is_counted side station v ≡ ok c
      → (x : W) × (price_from side station a (v ∷ vs) ≡ ok x)
  unfolding price_from
  goes_on side station a v vs r rest false e = let (x, h) = rest a in (x, rw e h)
  goes_on side station a v vs r rest true e =
      let (x, h) = rest (best side a r.price.0) in (x, rw (e, r.price.1) h)

  price_from-returns :
      (side : Side) (station : ℕ) (vs : List (Offer W))
      → All IsRead vs
      → (a : W) → (x : W) × (price_from side station a vs ≡ ok x)
  unfolding price_from
  price_from-returns side station [] r a = (a, refl)
  price_from-returns side station (v ∷ vs) (r, rs) a =
      let (c, e) = is_counted-returns side station v r in
      goes_on side station a v vs r (price_from-returns side station vs rs) c e

  -- For offers that all have their members, `getMaxPriceInStation` and `getMinPriceInStation` return a
  -- price that is not NaN, is that of an offer that counts or else the infinity from which they start,
  -- and is at least as good as that of every offer that counts. Condition: comparisons of doubles are
  -- as IEEE 754 has them.
  pub price_in_station-IsBest :
      (side : Side) (station : ℕ) (vs : List (Offer W))
      → All IsRead vs
      → (x : W) × (price_in_station side station vs ≡ ok x)
        × ((x ≡ worst side) ⊎ Offered side station x vs)
        × (limits.is_nan x ≡ false)
        × ((b : W) → Offered side station b vs → IsNoBetter limits laws side b x)
  unfolding price_in_station
  price_in_station-IsBest side station vs r =
      let (x, e) = price_from-returns side station vs r (worst side) in
      let (source, n, na, all) =
        price_from-IsBest side station (worst side) vs (number_at side) e in
      (x, e, source, n, all)
    where
      number_at : (s : Side) → limits.is_nan (worst s) ≡ false
      number_at buy_orders = laws.numbers.1
      number_at sell_orders = laws.numbers.0

  -- Whatever the response, the price is not NaN.
  pub price_in_station-number :
      (side : Side) (station : ℕ) (vs : List (Offer W)) {x : W}
      → price_in_station side station vs ≡ ok x
      → limits.is_nan x ≡ false
  unfolding price_in_station
  price_in_station-number buy_orders station vs e =
      (price_from-IsBest buy_orders station _ vs laws.numbers.1 e).1
  price_in_station-number sell_orders station vs e =
      (price_from-IsBest sell_orders station _ vs laws.numbers.0 e).1
