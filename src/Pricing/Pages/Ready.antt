-- ===== src/Pricing/Pages/Ready.antt =====
-- What `readOrders` of apps/pricing/json_writer_util.cpp hands to the writer.
use eve_industry_planner.Prelude.{
  ℕ, zero, suc, ◌+◌, ◌-◌, ◌<◌, ◌≡◌, refl, Bool, true, false, Option, List, [], ◌∷◌, ◌++◌, ltb, leb,
  ◌==◌, if◌then◌else◌, arith, length, set, replicate, remove_if, All, All-append, Error,
  runtime_error, logic_error, out_of_range, assertion, undefined, no_fuel, Result, ok, throw,
  >>=-eq-ok, ok-injective, Bool-cases, inl, inr, subst, Result-cases, Option-cases,
}
use eve_industry_planner.Text.{Text}
use eve_industry_planner.Pricing.Order.{Order, IsOrder}
use eve_industry_planner.Pricing.Json.Ranges.{convert-IsOrder}
use eve_industry_planner.Pricing.Paths.{parse_file_name}
use eve_industry_planner.Pricing.Pages.{
  Item, object, no_object, Document, unparsed, items, no_items, Entry, Pages, is_empty, resize,
  caught, grow, filter_orders, convert_item, convert_items, convert_orders, read_page, read_entries,
  read_orders,
}

-- in the ranges of its members, and not sold out
abbrev pub IsOffer {ℓ} : {W : Type ℓ} → Order W → Type 0
IsOffer o = IsOrder o × (0 < o.volume)

abbrev AreOffers {ℓ} : {W : Type ℓ} → Pages W → Type 0
AreOffers docs = All (All IsOffer) docs

abbrev pub IsPage {ℓ} : {W : Type ℓ} → List (Order W) → Type 0
IsPage doc = (is_empty doc ≡ false) × All IsOffer doc

-- What is returned has the property.
abbrev Gives {ℓ κ} : {A : Type ℓ} → (A → Type κ) → Result A → Type κ
Gives P (ok a) = P a
Gives P (throw e) = Unit

empty_pages {ℓ} : (W : Type ℓ) (n : ℕ) → AreOffers {W = W} (replicate n [])
empty_pages W zero = tt
empty_pages W (suc n) = (tt, empty_pages W n)

module _ {ℓ} {W : Type ℓ} where
  filter-offers : (os : List (Order W)) → All IsOrder os → All IsOffer (filter_orders os)
  unfolding filter_orders
  filter-offers [] v = tt
  filter-offers (o ∷ os) (v, vs) = elim (Bool-cases (o.volume == 0)) [
    | inl e ↦ rw e (filter-offers os vs)
    | inr e ↦ rw e ((v, ground arith), filter-offers os vs)
  ]

  set-offers :
      (docs : Pages W) (p : ℕ) (os : List (Order W))
      → AreOffers docs
      → All IsOffer os
      → AreOffers (set docs p os)
  set-offers [] p os v w = tt
  set-offers (d ∷ ds) zero os (v, vs) w = (w, vs)
  set-offers (d ∷ ds) (suc p) os (v, vs) w = (v, set-offers ds p os vs w)

  pages_left : (docs : Pages W) → AreOffers docs → All IsPage (remove_if (λ doc. is_empty doc) docs)
  pages_left [] v = tt
  pages_left ([] ∷ ds) (v, vs) = pages_left ds vs
  pages_left ((o ∷ os) ∷ ds) (v, vs) = ((refl, v), pages_left ds vs)

  caught-offers : (e : Error) (docs : Pages W) → AreOffers docs → Gives AreOffers (caught e docs)
  unfolding caught
  caught-offers runtime_error docs v = v
  caught-offers logic_error docs v = v
  caught-offers out_of_range docs v = v
  caught-offers assertion docs v = tt
  caught-offers undefined docs v = tt
  caught-offers no_fuel docs v = tt

  grow-offers :
      (capacity : ℕ) (docs : Pages W) (p : ℕ)
      → AreOffers docs
      → Gives AreOffers (grow capacity docs p)
  unfolding grow resize
  grow-offers capacity docs p v =
      let more =
        All-append (All IsOffer) docs (replicate (p + 1 - length docs) []) v
          (empty_pages W (p + 1 - length docs)) in
      chosen (ltb p _) (ltb (length docs) _) (leb _ capacity) more
    where
      chosen :
          (a b c : Bool)
          → AreOffers (docs ++ replicate (p + 1 - length docs) [])
          → Gives AreOffers (
              if a
              then (if b
                  then (if c
                      then ok (docs ++ replicate (p + 1 - length docs) [])
                      else throw runtime_error)
                  else ok docs)
              else throw undefined)
      chosen true true true m = m
      chosen true true false m = tt
      chosen true false c m = v
      chosen false b c m = tt

  module _ (time : Text → Option ℕ) (indeterminate : Order W) where
    items-offers :
        (is : List (Item W)) (os : List (Order W))
        → convert_items time indeterminate is ≡ ok os
        → All IsOrder os
    unfolding convert_items convert_item
    items-offers [] os h = subst (All IsOrder) (ok-injective h) tt
    items-offers (no_object ∷ is) os h = cc
    items-offers (object ms ∷ is) os h =
        let (o, e, f) = >>=-eq-ok (convert_item time indeterminate (object ms)) _ h in
        let (rest, g, k) = >>=-eq-ok (convert_items time indeterminate is) _ f in
        subst (All IsOrder) (ok-injective k)
          (convert-IsOrder time indeterminate ms e, items-offers is rest g)

    page-offers :
        (d : Document W) (os : List (Order W))
        → read_page time indeterminate d ≡ ok os
        → All IsOffer os
    unfolding read_page convert_orders filter_orders
    page-offers unparsed os h = subst (All IsOffer) (ok-injective h) tt
    page-offers (items is) os h =
        let (raw, e, f) = >>=-eq-ok (convert_items time indeterminate is) _ h in
        subst (All IsOffer) (ok-injective f) (filter-offers raw (items-offers is raw e))
    page-offers no_items os h = cc

    module _ (capacity : ℕ) where
      entries-offers :
          (es : List (Entry W)) (docs : Pages W)
          → AreOffers docs
          → Gives AreOffers (read_entries time indeterminate capacity docs es)
      unfolding read_entries
      entries-offers [] docs v = v
      entries-offers (e ∷ es) docs v = elim (Result-cases (parse_file_name e.path)) [
        | inr (x, q) ↦ rw (q, read_entries) (caught-offers x docs v)
        | inl (o, q) ↦ elim (Option-cases o) [
          | inl n ↦ rw (q, n, read_entries) (entries-offers es docs v)
          | inr (page, n) ↦ elim (Result-cases (grow capacity docs page)) [
            | inr (x, g) ↦ rw (q, n, g, read_entries) (caught-offers x docs v)
            | inl (docs', g) ↦
                let v' : AreOffers docs' =
                  subst (Gives AreOffers) g (grow-offers capacity docs page v) in
                elim (Result-cases (read_page time indeterminate e.document)) [
                  | inr (x, r) ↦ rw (q, n, g, r, read_entries) (caught-offers x docs' v')
                  | inl (os, r) ↦
                      rw (q, n, g, r, read_entries)
                        (entries-offers es (set docs' page os)
                          (set-offers docs' page os v' (page-offers e.document os r)))
                ]
          ]
        ]
      ]

      -- Every page that `readOrders` returns has orders, and every order on it is in the ranges of its
      -- members and has a volume that is not 0.
      pub read_orders-IsPage :
          (es : List (Entry W)) {pages : Pages W}
          → read_orders time indeterminate capacity es ≡ ok pages
          → All IsPage pages
      unfolding read_orders
      read_orders-IsPage es h =
          let (docs, e, f) = >>=-eq-ok (read_entries time indeterminate capacity [] es) _ h in
          subst (All IsPage) (ok-injective f)
            (pages_left docs (subst (Gives AreOffers) e (entries-offers es [] tt)))
