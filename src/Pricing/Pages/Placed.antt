-- ===== src/Pricing/Pages/Placed.antt =====
-- Which page of `readOrders` in apps/pricing/json_writer_util.cpp holds the orders of which entry.
use eve_industry_planner.Prelude.{
  ℕ, zero, suc, ◌+◌, ◌-◌, ◌^◌, ◌<◌, ◌≤◌, ◌≡◌, ◌≢◌, refl, ap, ◌∙◌, true, false, Option, none, some,
  List, [], ◌∷◌, ◌++◌, ltb, leb, ◌==◌, if◌then◌else◌, arith, length, length-append, length-set, set,
  replicate, remove_if, All, Error, runtime_error, Result, ok, throw, Bool-cases, Option-cases,
  Result-cases, inl, inr,
}
use eve_industry_planner.Text.{Text}
use eve_industry_planner.Pricing.Order.{Order}
use eve_industry_planner.Pricing.Paths.{parse_file_name}
use eve_industry_planner.Pricing.Pages.{
  no_items, Entry, Pages, is_empty, resize, read_page, caught, grow, read_entries, read_orders,
}
use eve_industry_planner.Pricing.Pages.Caught.{
  IsTame, IsTame-throw, parse_file_name-IsTame, read_page-IsTame,
}

module _ {ℓ} {A : Type ℓ} where
  -- a page, or none of its orders where there is no such page
  abbrev pub page_at : List (List A) → ℕ → List A
  page_at [] p = []
  page_at (x ∷ xs) zero = x
  page_at (x ∷ xs) (suc p) = page_at xs p

  length-replicate : (n : ℕ) (x : List A) → length (replicate n x) ≡ n
  length-replicate zero x = refl
  length-replicate (suc n) x = omega (arith, length-replicate n x)

  page_at-empty : (n p : ℕ) → page_at (replicate n []) p ≡ []
  page_at-empty zero p = refl
  page_at-empty (suc n) zero = refl
  page_at-empty (suc n) (suc p) = page_at-empty n p

  page_at-append :
      (docs : List (List A)) (n p : ℕ) → page_at (docs ++ replicate n []) p ≡ page_at docs p
  page_at-append [] n p = page_at-empty n p
  page_at-append (x ∷ xs) n zero = refl
  page_at-append (x ∷ xs) n (suc p) = page_at-append xs n p

  page_at-set :
      (docs : List (List A)) (q p : ℕ) (x : List A)
      → q < length docs
      → page_at (set docs q x) p ≡ (if q == p then x else page_at docs p)
  page_at-set [] q p x h = absurd (omega arith)
  page_at-set (y ∷ ys) zero zero x h = refl
  page_at-set (y ∷ ys) zero (suc p) x h = ground arith
  page_at-set (y ∷ ys) (suc q) zero x h = ground arith
  page_at-set (y ∷ ys) (suc q) (suc p) x h = ground (arith, page_at-set ys q p x)

-- what the last of the assignments has left in page p
abbrev pub last_of {ℓ} : {A : Type ℓ} → ℕ → A → List (ℕ × A) → A
last_of p x [] = x
last_of p x ((q, y) ∷ rest) = last_of p (if q == p then y else x) rest

module _ {ℓ} {W : Type ℓ} (time : Text → Option ℕ) (indeterminate : Order W) (capacity : ℕ) where
  -- The pages that are read before the first exception, each with its number.
  unfoldable pub pages_read : List (Entry W) → List (ℕ × List (Order W))
  pages_read [] = []
  pages_read (e ∷ es) = elim (parse_file_name e.path) [
    | throw x ↦ []
    | ok none ↦ pages_read es
    | ok (some page) ↦ elim (leb (page + 1) capacity) [
      | false ↦ []
      | true ↦ elim (read_page time indeterminate e.document) [
        | throw x ↦ []
        | ok orders ↦ (page, orders) ∷ pages_read es
      ]
    ]
  ]

  -- A file name is no number that is too large, and a document that is parsed has an array `items`.
  pub record IsReadable (e : Entry W) : Type ℓ where
    pub small : (p : ℕ) → parse_file_name e.path ≡ ok (some p) → p < 2 ^ 63 - 1
    pub parsed : e.document ≢ no_items

  grow_throws :
      (docs : Pages W) (page : ℕ)
      → page < 2 ^ 63 - 1
      → length docs ≤ capacity
      → leb (page + 1) capacity ≡ false
      → grow capacity docs page ≡ throw runtime_error
  unfolding grow
  grow_throws docs page h l e = ground arith

  grow_ok :
      (docs : Pages W) (page : ℕ)
      → page < 2 ^ 63 - 1
      → length docs ≤ capacity
      → leb (page + 1) capacity ≡ true
      → (docs' : Pages W) × (grow capacity docs page ≡ ok docs')
        × (length docs' ≤ capacity)
        × (page < length docs')
        × ((p : ℕ) → page_at docs' p ≡ page_at docs p)
  unfolding grow resize
  grow_ok docs page h l e = elim (Bool-cases (ltb (length docs) (page + 1))) [
    | inl less ↦
        let n : length (resize docs (page + 1)) ≡ page + 1 = ground (
          arith,
          length-append docs (replicate (page + 1 - length docs) []),
          length-replicate {A = Order W} (page + 1 - length docs) [],
        ) in
        (
          resize docs (page + 1),
          ground arith,
          ground arith,
          ground arith,
          page_at-append docs (page + 1 - length docs),
        )
    | inr more ↦ (docs, ground arith, l, ground arith, λ p. refl)
  ]

  abbrev Placed : Pages W → List (Entry W) → Result (Pages W) → Type ℓ
  Placed docs es m =
      (docs' : Pages W) × (m ≡ ok docs')
      × ((p : ℕ) → page_at docs' p ≡ last_of p (page_at docs p) (pages_read es))

  stops : (docs : Pages W) (x : Error) → x ≡ runtime_error → (caught x docs ≡ ok docs)
  unfolding caught
  stops docs x e = rw e refl

  -- An entry with a page number, when the page has been read.
  at_page-Placed :
      (e : Entry W) (es : List (Entry W)) (docs docs' : Pages W) (page : ℕ)
      → ((p : ℕ) → page_at docs' p ≡ page_at docs p)
      → page < length docs'
      → IsReadable e
      → ((orders : List (Order W))
          → Placed
              (set docs' page orders)
              es
              (read_entries time indeterminate capacity (set docs' page orders) es))
      → (m : Result (List (Order W))) → IsTame m
      → (docs'' : Pages W) × (elim m [
        | throw x ↦ caught x docs'
        | ok orders ↦ read_entries time indeterminate capacity (set docs' page orders) es
      ]
          ≡ ok docs'')
        × ((p : ℕ)
            → page_at docs'' p
              ≡ last_of p
                  (page_at docs p)
                  (elim m [ throw x ↦ [] | ok orders ↦ (page, orders) ∷ pages_read es ]))
  at_page-Placed e es docs docs' page same lt v next (throw x) h = (docs', stops docs' x h, same)
  at_page-Placed e es docs docs' page same lt v next (ok orders) h =
      let (docs'', q, at) = next orders in
      (
        docs'',
        q,
        λ p.
            at p
            ∙ ap (λ d. last_of p d (pages_read es))
                (page_at-set docs' page p orders lt ∙ ground (arith, same p)),
      )

  placed :
      (es : List (Entry W)) (docs : Pages W)
      → length docs ≤ capacity
      → All IsReadable es
      → Placed docs es (read_entries time indeterminate capacity docs es)
  unfolding read_entries pages_read
  placed [] docs l v = (docs, refl, λ p. refl)
  placed (e ∷ es) docs l (v, vs) = elim (Result-cases (parse_file_name e.path)) [
    | inr (x, q) ↦
        rw (q, read_entries, pages_read)
          (
            docs,
            stops docs x
                (IsTame-throw (parse_file_name e.path) x (parse_file_name-IsTame e.path) q),
            λ p. refl,
          )
    | inl (o, q) ↦ elim (Option-cases o) [
      | inl n ↦ rw (q, n, read_entries, pages_read) (placed es docs l vs)
      | inr (page, n) ↦
          let small = v.small page (ground arith) in
          elim (Bool-cases (leb (page + 1) capacity)) [
            | inr f ↦
                rw (q, n, f, grow_throws docs page small l f, read_entries, pages_read)
                  (docs, stops docs runtime_error refl, λ p. refl)
            | inl f ↦
                let (docs', g, l', lt, same) = grow_ok docs page small l f in
                rw (q, n, f, g, read_entries, pages_read)
                  (at_page-Placed e es docs docs' page same lt v
                    (λ orders.
                      placed es (set docs' page orders)
                        (omega (arith, length-set docs' page orders)) vs)
                    (read_page time indeterminate e.document)
                    (read_page-IsTame time indeterminate e.document v.parsed))
          ]
    ]
  ]

  -- `readOrders` returns the pages that are not empty, where page p has the orders of the last entry
  -- with number p among those that are read before the first exception, and no orders if there is
  -- none. Conditions: no number of a page is 2 ^ 63 - 1 or larger, and every document that is parsed
  -- has an array of items.
  pub read_orders-placed :
      (es : List (Entry W))
      → All IsReadable es
      → (docs : Pages W) × (read_orders time indeterminate capacity es
          ≡ ok (remove_if (λ doc. is_empty doc) docs))
        × ((p : ℕ) → page_at docs p ≡ last_of p [] (pages_read es))
  unfolding read_orders
  read_orders-placed es v =
      let (docs, e, at) = placed es [] (omega arith) v in (docs, rw e refl, at)
