-- ===== src/Planning/Planner/Rows.antt =====
-- The rows of the linear program of apps/main/src/planner.cpp: `ensureResource` gives every resource a
-- row of its own, row 0 being that of the money.
use eve_industry_planner.Prelude.{
  ℕ, zero, suc, ◌<◌, ◌≡◌, ◌≢◌, refl, sym, ap, subst, ◌∙◌, true, false, some, List, [], ◌∷◌, ◌++◌,
  ◌==◌, any_of, get_elem?, set, Result, ok, ◌⊎◌, inl, inr, arith, get_elem?-append_cases,
  get_elem?-set_cases, length, length-append, length-set, get_elem?-append_left,
  get_elem?-append_end, get_elem?-set_self, get_elem?-set_ne, get_elem?_in_range,
  lt-length_of_get_elem?, Bool-cases,
}
use eve_industry_planner.Text.{Text, codes}
use eve_industry_planner.Double.{Double}
use eve_industry_planner.Industry.Resource.{Resource, Store}
use eve_industry_planner.Planning.Lp.{NameSet, IsNameSet, ColSet}
use eve_industry_planner.Planning.Planner.{Planner, State, ensure_resource}

-- No two resources have one name, and none has the name of the money's row.
pub record IsDistinct {ℓ} {W : Type ℓ} (store : Store W) : Type ℓ where
  pub unique :
      (p q : ℕ) (r t : Resource W)
      → get_elem? store p ≡ some r
      → get_elem? store q ≡ some t
      → r.name ≡ t.name
      → p ≡ q
  pub no_money : (p : ℕ) (r : Resource W) → get_elem? store p ≡ some r → r.name ≢ codes "BuyIn"

any_of_index :
    (p : ℕ) (xs : List ℕ) → any_of (λ q. q == p) xs ≡ true → (k : ℕ) × (get_elem? xs k ≡ some p)
any_of_index p [] h = absurd (cc h)
any_of_index p (x ∷ xs) h = elim (Bool-cases (x == p)) [
  | inl e ↦ (0, ground (arith, e))
  | inr e ↦ let (k, g) = any_of_index p xs (ground (arith, e, h)) in (suc k, g)
]

any_of_none : (p k : ℕ) (xs : List ℕ) → any_of (λ q. q == p) xs ≡ false → get_elem? xs k ≢ some p
any_of_none p k [] h e = absurd (cc e)
any_of_none p zero (x ∷ xs) h e = ground (arith, h, e)
any_of_none p (suc k) (x ∷ xs) h e = any_of_none p k xs (ground (arith, h)) e

module _ {ℓ} {W N C : Type ℓ} ⦃n : NameSet N⦄ where
  -- The names of the rows are those of the resources, and the resource at place k has row k + 1.
  pub record HasRows (st : State W N C) : Type ℓ where
    pub money : st.0.buy_in ≡ some 0
    pub rows : n.size st.0.row_names ≡ suc (length st.0.resources)
    pub numbered :
        (k p : ℕ)
        → get_elem? st.0.resources k ≡ some p
        → (r : Resource W) × (get_elem? st.1 p ≡ some r) × (r.row_id ≡ some (suc k))
    pub known :
        (x : Text)
        → n.has x st.0.row_names ≡ true
        → (x ≡ codes "BuyIn")
          ⊎ ((k p : ℕ) × (r : Resource W) × (get_elem? st.0.resources k ≡ some p)
              × (get_elem? st.1 p ≡ some r)
              × (r.name ≡ x))
    pub distinct : IsDistinct st.1

  -- What a step leaves as it was.
  pub record Grows (st st' : State W N C) : Type ℓ where
    pub same_cols : st'.0.cols ≡ st.0.cols
    pub same_jobs : st'.0.jobs ≡ st.0.jobs
    pub same_names : st'.0.col_names ≡ st.0.col_names
    pub kept :
        (k p : ℕ) → get_elem? st.0.resources k ≡ some p → get_elem? st'.0.resources k ≡ some p
    pub same_length : length st'.1 ≡ length st.1

  pub Grows-refl : (st : State W N C) → Grows st st
  Grows-refl st = record {
    same_cols = refl;
    same_jobs = refl;
    same_names = refl;
    kept = λ k p h. h;
    same_length = refl;
  }

  pub Grows-trans : (a b c : State W N C) → Grows a b → Grows b c → Grows a c
  Grows-trans a b c g h = record {
    same_cols = h.same_cols ∙ g.same_cols;
    same_jobs = h.same_jobs ∙ g.same_jobs;
    same_names = h.same_names ∙ g.same_names;
    kept = λ k p e. h.kept k p (g.kept k p e);
    same_length = h.same_length ∙ g.same_length;
  }

  module _ ⦃l : IsNameSet N⦄ (s : Planner W N C) (store : Store W) (v : HasRows (s, store)) (p : ℕ)
      (r : Resource W) (e : get_elem? store p ≡ some r)
      (fresh : any_of (λ q. q == p) s.resources ≡ false) where
    name_fresh : n.has r.name s.row_names ≡ false
    name_fresh = elim (Bool-cases (n.has r.name s.row_names)) [
      | inr h ↦ h
      | inl h ↦ elim (v.known r.name h) [
        | inl f ↦ absurd (v.distinct.no_money p r e f)
        | inr (k, q, t, f, g, i) ↦ absurd (
            any_of_none p k s.resources fresh
              (subst (λ x. get_elem? s.resources k ≡ some x) (v.distinct.unique q p t r g e i) f))
      ]
    ]

    row' : Resource W
    row' = record r { row_id = (n.add r.name s.row_names).0 }

    -- A resource of the new store is one of the old store, but for its row.
    old_of :
        (q : ℕ) (t : Resource W)
        → get_elem? (set store p row') q ≡ some t
        → (u : Resource W) × (get_elem? store q ≡ some u) × (u.name ≡ t.name)
    unfolding row'
    old_of q t h = elim (get_elem?-set_cases store p q row' t h) [
      | inl (f, g) ↦ (r, subst (λ x. get_elem? store x ≡ some r) f e, ap (λ x. x.name) (sym g))
      | inr (f, g) ↦ (t, g, refl)
    ]

    -- A resource of the old store is one of the new store, but for its row.
    new_of :
        (q : ℕ) (t : Resource W)
        → get_elem? store q ≡ some t
        → (u : Resource W) × (get_elem? (set store p row') q ≡ some u) × (u.name ≡ t.name)
    unfolding row'
    new_of q t h =
        let (u, g) =
          get_elem?_in_range (set store p row') q
            (omega (arith, length-set store p row', lt-length_of_get_elem? store q h)) in
        let (w, f, i) = old_of q u g in (u, g, cc (f, h, i))

    distinct' : IsDistinct (set store p row')
    distinct' = record {
      unique = λ q q' t t' f g h.
          let (u, a, b) = old_of q t f in
          let (u', a', b') = old_of q' t' g in v.distinct.unique q q' u u' a a' (b ∙ h ∙ sym b');
      no_money = λ q t f h. let (u, a, b) = old_of q t f in v.distinct.no_money q u a (b ∙ h);
    }

    next : Planner W N C
    next = record s {
      row_names = (n.add r.name s.row_names).1;
      resources = s.resources ++ (p ∷ []);
    }

    next-HasRows : HasRows (next, set store p row')
    unfolding next row'
    next-HasRows = record {
      money = v.money;
      rows = omega (
        arith,
        v.rows,
        length-append s.resources (p ∷ []),
        l.size-add r.name s.row_names name_fresh,
      );
      numbered = λ k q h. elim (get_elem?-append_cases s.resources p k q h) [
        | inl f ↦
            let (t, g, i) = v.numbered k q f in
            (
              t,
              get_elem?-set_ne store p q row' (λ j.
                    any_of_none p k s.resources fresh
                      (subst (λ x. get_elem? s.resources k ≡ some x) (sym j) f))
                  ∙ g,
              i,
            )
        | inr (f, g) ↦ (
          row',
          subst (λ x. get_elem? (set store p row') x ≡ some row') (sym g)
              (get_elem?-set_self store p row' (lt-length_of_get_elem? store p e)),
          l.add_new r.name s.row_names name_fresh ∙ ap some (v.rows ∙ ap suc (sym f)),
        )
      ];
      known = λ x h. elim (l.has-add r.name x s.row_names h) [
        | inl f ↦ inr (
          length s.resources,
          p,
          row',
          get_elem?-append_end s.resources p (length s.resources) refl,
          get_elem?-set_self store p row' (lt-length_of_get_elem? store p e),
          f,
        )
        | inr f ↦ elim (v.known x f) [
          | inl g ↦ inl g
          | inr (k, q, t, a, b, g) ↦
              let (u, i, j) = new_of q t b in
              inr (k, q, u, get_elem?-append_left s.resources (p ∷ []) k q a, i, j ∙ g)
        ]
      ];
      distinct = distinct';
    }

  -- What `ensureResource` and the steps that use it promise: they succeed, and the rows stay numbered.
  abbrev pub Ensures : State W N C → ((State W N C) → Type 0) → Result (State W N C) → Type ℓ
  Ensures st P m = (st' : State W N C) × (m ≡ ok st') × HasRows st' × Grows st st' × P st'

  -- `ensureResource` succeeds for every pointer to a resource: the resource is among those with a row
  -- then, the columns, jobs and known rows are as before, and the row of a resource is one more than
  -- its place. Conditions: that was so before, the names of the resources differ and are not that of
  -- the row of the money, and the set of names numbers its elements.
  pub ensure_resource-Ensures :
      ⦃d : Double W⦄ ⦃c : ColSet W C⦄ ⦃l : IsNameSet N⦄ (s : Planner W N C) (store : Store W)
      (v : HasRows (s, store)) (p : ℕ)
      → p < length store
      → Ensures
          (s, store)
          (λ st'. (k : ℕ) × (get_elem? st'.0.resources k ≡ some p))
          (ensure_resource p (s, store))
  unfolding ensure_resource next row'
  ensure_resource-Ensures s store v p h =
      let (r, e) = get_elem?_in_range store p h in
      elim (Bool-cases (any_of (λ q. q == p) s.resources)) [
        | inl f ↦ rw f (_, refl, v, Grows-refl (s, store), any_of_index p s.resources f)
        | inr f ↦
            rw (f, e)
              (
                _,
                refl,
                next-HasRows s store v p r e f,
                record {
                  same_cols = refl;
                  same_jobs = refl;
                  same_names = refl;
                  kept = λ k q g. get_elem?-append_left s.resources (p ∷ []) k q g;
                  same_length = length-set store p _;
                },
                (length s.resources, get_elem?-append_end s.resources p (length s.resources) refl),
              )
      ]
