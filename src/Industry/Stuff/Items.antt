-- ===== src/Industry/Stuff/Items.antt =====
-- The resources of items in libs/industry_resources/resource_manager/stuff.cpp: their names and what the player
-- owns of them.
use eve_industry_planner.Prelude.{
  ℕ, ◌≡◌, refl, subst, some, [], ◌∷◌, ◌++◌, ◌==◌, lookup, insert, lookup-insert, lookup-insert_self,
  Result, ok, throw, arith, length, get_elem?, get_elem?-append_left, get_elem?-append_end,
  Result-cases, Option-cases, Bool-cases, inl, inr,
}
use eve_industry_planner.Text.{to_string}
use eve_industry_planner.Double.{Double}
use eve_industry_planner.Catalog.Names.{get_name}
use eve_industry_planner.Catalog.Assets.{count_asset}
use eve_industry_planner.Industry.Resource.{Resource, new_resource, make_shared}
use eve_industry_planner.Industry.Stuff.{Stuff, Tables, get_resource}

module _ {ℓ} {W : Type ℓ} ⦃d : Double W⦄ (tables : Tables W) where
  -- The resource of an item: its number, its name, and as lower limit what the player owns, with a
  -- minus.
  pub record IsItem (id : ℕ) (r : Resource W) : Type ℓ where
    pub name : r.name ≡ to_string id
    pub full_name : get_name tables.names id ≡ ok r.full_name
    pub lower_limit : r.lower_limit ≡ d.neg (d.of_nat (count_asset tables.assets id))

  abbrev pub ItemAt : Stuff W → ℕ → ℕ → Type ℓ
  ItemAt s id p = (r : Resource W) × (get_elem? s.store p ≡ some r) × IsItem id r

  -- The table leads to the resource of every item that it has.
  abbrev pub HasItems : Stuff W → Type ℓ
  HasItems s = (id p : ℕ) → lookup id s.resources ≡ some p → ItemAt s id p

  pub record Goes (s s' : Stuff W) : Type ℓ where
    pub items : HasItems s'
    pub kept : (id p : ℕ) → lookup id s.resources ≡ some p → lookup id s'.resources ≡ some p

  pub Goes-trans : (s t u : Stuff W) → Goes s t → Goes t u → Goes s u
  Goes-trans s t u g h = record { items = h.items; kept = λ id p e. h.kept id p (g.kept id p e) }

  abbrev Provides : Stuff W → ℕ → Result (ℕ × Stuff W) → Type ℓ
  Provides s id (ok (p, s')) = Goes s s' × (lookup id s'.resources ≡ some p)
  Provides s id (throw e) = Unit

  module _ (s : Stuff W) (v : HasItems s) (id : ℕ) (r : Resource W) (i : IsItem id r) where
    added : Stuff W
    added = record s {
      store = s.store ++ (r ∷ []);
      resources = insert id (length s.store) s.resources;
    }

    added-HasItems : HasItems added
    unfolding added
    added-HasItems k p e = elim (Bool-cases (id == k)) [
      | inl h ↦
          let same : length s.store ≡ p =
            ground (arith, e, h, lookup-insert id k (length s.store) s.resources) in
          let q : id ≡ k = ground (arith, h) in
          (r, get_elem?-append_end s.store r p same, subst (λ x. IsItem x r) q i)
      | inr h ↦
          let before : lookup k s.resources ≡ some p =
            ground (arith, e, h, lookup-insert id k (length s.store) s.resources) in
          let (t, f, g) = v k p before in (t, get_elem?-append_left s.store (r ∷ []) p t f, g)
    ]

  get_resource-Provides :
      (id : ℕ) (s : Stuff W) → HasItems s → Provides s id (get_resource tables id s)
  unfolding get_resource make_shared new_resource added
  get_resource-Provides id s v = elim (Option-cases (lookup id s.resources)) [
    | inr (p, e) ↦ rw (e, get_resource) (record { items = v; kept = λ k q h. h }, e)
    | inl e ↦ elim (Result-cases (get_name tables.names id)) [
      | inr (x, f) ↦ rw (e, get_resource, f) tt
      | inl (name, f) ↦
          let r =
            new_resource (to_string id) name (d.neg (d.of_nat (count_asset tables.assets id))) in
          let i : IsItem id r = record { name = refl; full_name = f; lower_limit = refl } in
          rw (e, get_resource, f)
            (
              record {
                items = added-HasItems s v id r i;
                kept = λ k q h. elim (Bool-cases (id == k)) [
                  | inl g ↦ let same : id ≡ k = ground (arith, g) in absurd (cc (e, h, same))
                  | inr g ↦ ground (arith, g, h, lookup-insert id k (length s.store) s.resources)
                ];
              },
              lookup-insert_self id (length s.store) s.resources,
            )
    ]
  ]

  -- `getResource` keeps the items, and gives the one that was asked for.
  pub get_resource-Goes :
      (id p : ℕ) (s s' : Stuff W)
      → HasItems s
      → get_resource tables id s ≡ ok (p, s')
      → Goes s s' × (lookup id s'.resources ≡ some p)
  get_resource-Goes id p s s' v e = subst (λ x. Provides s id x) e (get_resource-Provides id s v)
