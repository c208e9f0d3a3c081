-- ===== src/Planning/Planner/Reported.antt =====
-- `Planner::solve` of apps/main/src/planner.cpp on a planner that `addJob` has filled.
use eve_industry_planner.Prelude.{
  ℕ, zero, suc, ◌+◌, ◌<◌, ◌≤◌, ◌≡◌, refl, ap, ◌∙◌, true, false, Option, none, some, List, [], ◌∷◌,
  get_elem?, Result, ok, throw, undefined, All, length, get_elem?_in_range, if◌then◌else◌,
  lt-length_of_get_elem?, lt→ltb, Bool-cases, inl, inr, arith,
}
use eve_industry_planner.Text.{Text, codes}
use eve_industry_planner.Double.{Double}
use eve_industry_planner.Industry.Resource.{Resource, Store}
use eve_industry_planner.Industry.Job.{Job, Kind, plain, buy, sell}
use eve_industry_planner.Planning.Lp.{NameSet, IsNameSet, ColSet, IsColSet, Column, Solution}
use eve_industry_planner.Planning.Planner.{Planner, new_planner}
use eve_industry_planner.Planning.Planner.Solve.{
  Range, Trades, no_trades, Report, is_shown, row_range, buy_in_range, change_range, row_ranges,
  d_vector, list_duals, list_primals, list_trades, add_trade, report, solve,
}
use eve_industry_planner.Planning.Planner.Fed.{IsFed}

-- The item of a job of the market is a resource.
abbrev pub IsTraded : Kind → ℕ → Type 0
IsTraded plain size = Unit
IsTraded (buy p station name) size = p < size
IsTraded (sell p station name) size = p < size

module _ {ℓ} {W : Type ℓ} ⦃d : Double W⦄ where
  -- the resources at some places of the store
  abbrev pub at_places : Store W → List ℕ → List (Resource W)
  at_places store [] = []
  at_places store (p ∷ ps) = elim (get_elem? store p) [
    | none ↦ at_places store ps
    | some r ↦ r ∷ at_places store ps
  ]

  -- The range of row `k` holds what must be left of a resource: its lower limit as an upper bound on what
  -- is used, which is an equation where nothing must be left.
  pub record IsRange (k : ℕ) (r : Resource W) (x : Range W) : Type ℓ where
    pub row : x.row ≡ some k
    pub at_most : x.at_most ≡ d.neg r.lower_limit
    pub equation : d.eq (d.neg r.lower_limit) (d.of_nat 0) ≡ true → x.at_least ≡ x.at_most
    pub inequation :
        d.eq (d.neg r.lower_limit) (d.of_nat 0) ≡ false → x.at_least ≡ d.neg r.upper_limit

  -- The ranges are in the order of the resources, each for the row after the one before.
  abbrev pub AreRanges : ℕ → List (Resource W) → List (Range W) → Type ℓ
  AreRanges k [] [] = Unit
  AreRanges k (r ∷ rs) (x ∷ xs) = IsRange k r x × AreRanges (suc k) rs xs
  AreRanges k [] (x ∷ xs) = (n : ℕ) × (w : W) × (suc n ≡ 0)
  AreRanges k (r ∷ rs) [] = (n : ℕ) × (w : W) × (suc n ≡ 0)

  -- the duals from row `k` on, those of the resources by their order
  abbrev pub duals_from : (ℕ → W) → ℕ → List (Resource W) → List (Text × W)
  duals_from dual k [] = []
  duals_from dual k (r ∷ rs) =
      let rest = duals_from dual (suc k) rs in
      if is_shown (dual k) then (r.full_name, dual k) ∷ rest else rest

  -- the activities of the jobs by their order, each with the value of the job
  abbrev pub primals_from : (ℕ → W) → ℕ → List (Job W) → List (Text × W × W)
  primals_from primal k [] = []
  primals_from primal k (j ∷ js) =
      let rest = primals_from primal (suc k) js in
      if is_shown (primal k) then (j.full_name, primal k, j.cost) ∷ rest else rest

  abbrev pub money_dual : (ℕ → W) → List (Text × W) → List (Text × W)
  money_dual dual rest = if is_shown (dual 0) then (codes "BuyIn", dual 0) ∷ rest else rest

  -- An optimum is reported, with the duals of the rows and the activities of the jobs by their order.
  abbrev pub Reports :
      List (Resource W) → List (Job W) → Option (Solution W) → Result (Option (Report W)) → Type ℓ
  Reports rs js none y = y ≡ ok none
  Reports rs js (some x) y =
      (t : Trades) × (y
        ≡ ok (
            some record {
              duals = money_dual x.dual (duals_from x.dual 1 rs);
              primals = primals_from x.primal 0 js;
              trades = t;
            }))

  abbrev Numbered : ℕ → List ℕ → Store W → Type ℓ
  Numbered i ps store =
      (k p : ℕ)
      → get_elem? ps k ≡ some p
      → (r : Resource W) × (get_elem? store p ≡ some r) × (r.row_id ≡ some (suc (i + k)))

  tail_of :
      (i p : ℕ) (ps : List ℕ) (store : Store W)
      → Numbered i (p ∷ ps) store
      → Numbered (suc i) ps store
  tail_of i p ps store v k q e = let (r, f, g) = v (suc k) q e in (r, f, g ∙ ap some (omega arith))

  get_elem?-d_vector :
      (n k i : ℕ) (f : ℕ → W) → i < n → get_elem? (d_vector n k f) i ≡ some (f (k + i))
  unfolding d_vector
  get_elem?-d_vector zero k i f h = absurd (omega arith)
  get_elem?-d_vector (suc n) k zero f h = ap (λ j. some (f j)) (omega arith)
  get_elem?-d_vector (suc n) k (suc i) f h =
      get_elem?-d_vector n (suc k) i f (omega (arith, h)) ∙ ap (λ j. some (f j)) (omega arith)

  change_range-ok :
      (rows k : ℕ) (x : Range W) → x.row ≡ some k → k < rows → change_range rows x ≡ ok x
  unfolding change_range
  change_range-ok rows k x e h = rw (e, lt→ltb k rows h) refl

  row_range-IsRange : (k : ℕ) (r : Resource W) → r.row_id ≡ some k → IsRange k r (row_range r)
  unfolding row_range
  row_range-IsRange k r e = record {
    row = e;
    at_most = refl;
    equation = λ h. rw h refl;
    inequation = λ h. rw h refl;
  }

  at_places_next :
      (store : Store W) (p : ℕ) (ps : List ℕ) (r : Resource W)
      → get_elem? store p ≡ some r
      → at_places store (p ∷ ps) ≡ r ∷ at_places store ps
  at_places_next store p ps r e = rw (e, at_places) refl

  row_ranges_lem :
      (rows i : ℕ) (ps : List ℕ) (store : Store W)
      → Numbered i ps store
      → suc i + length ps ≤ rows
      → (xs : List (Range W)) × (row_ranges rows ps store ≡ ok xs)
        × AreRanges (suc i) (at_places store ps) xs
  unfolding row_ranges
  row_ranges_lem rows i [] store v h = ([], refl, tt)
  row_ranges_lem rows i (p ∷ ps) store v h =
      let (r, e, f) = v 0 p refl in
      let e' : r.row_id ≡ some (suc i) = f ∙ ap some (omega arith) in
      let x = row_range-IsRange (suc i) r e' in
      let (xs, g, a) =
        row_ranges_lem rows (suc i) ps store (tail_of i p ps store v) (omega (arith, h)) in
      rw
        (
          at_places_next store p ps r e,
          e,
          change_range-ok rows (suc i) (row_range r) x.row (omega (arith, h)),
          g,
        )
        (row_range r ∷ xs, refl, (x, a))

  list_duals_lem :
      (dual : ℕ → W) (rows i : ℕ) (ps : List ℕ) (store : Store W)
      → Numbered i ps store
      → suc i + length ps ≤ rows
      → list_duals (d_vector rows 0 dual) ps store
        ≡ ok (duals_from dual (suc i) (at_places store ps))
  unfolding list_duals
  list_duals_lem dual rows i [] store v h = refl
  list_duals_lem dual rows i (p ∷ ps) store v h =
      let (r, e, f) = v 0 p refl in
      let e' : r.row_id ≡ some (suc i) = f ∙ ap some (omega arith) in
      let q : get_elem? (d_vector rows 0 dual) (suc i) ≡ some (dual (suc i)) =
        get_elem?-d_vector rows 0 (suc i) dual (omega (arith, h))
        ∙ ap (λ j. some (dual j)) (omega arith) in
      rw
        (
          at_places_next store p ps r e,
          e,
          e',
          q,
          list_duals_lem dual rows (suc i) ps store (tail_of i p ps store v) (omega (arith, h)),
        )
        refl

  -- The jobs have the columns from `i` on.
  abbrev InColumns : ℕ → List (Job W) → List (Column W) → Type ℓ
  InColumns i js cols =
      (k : ℕ) (j : Job W)
      → get_elem? js k ≡ some j
      → (j.col_id ≡ some (i + k))
        × ((col : Column W) × (get_elem? cols (i + k) ≡ some col) × (col.objective ≡ j.cost))

  next_columns :
      (i : ℕ) (j : Job W) (js : List (Job W)) (cols : List (Column W))
      → InColumns i (j ∷ js) cols
      → InColumns (suc i) js cols
  next_columns i j js cols v k h e =
      let (a, (col, b, o)) = v (suc k) h e in
      (a ∙ ap some (omega arith), (col, ap (λ x. get_elem? cols x) (omega arith) ∙ b, o))

  first_column :
      (primal : ℕ → W) (i : ℕ) (j : Job W) (js : List (Job W)) (cols : List (Column W))
      → InColumns i (j ∷ js) cols
      → (j.col_id ≡ some i)
        × (get_elem? (d_vector (length cols) 0 primal) i ≡ some (primal i))
        × ((col : Column W) × (get_elem? cols i ≡ some col) × (col.objective ≡ j.cost))
  first_column primal i j js cols v =
      let (a, (col, b, o)) = v 0 j refl in
      let b' : get_elem? cols i ≡ some col = ap (λ x. get_elem? cols x) (omega arith) ∙ b in
      (
        a ∙ ap some (omega arith),
        get_elem?-d_vector (length cols) 0 i primal (lt-length_of_get_elem? cols i b')
            ∙ ap (λ x. some (primal x)) (omega arith),
        (col, b', o),
      )

  list_primals_lem :
      (primal : ℕ → W) (i : ℕ) (js : List (Job W)) (cols : List (Column W))
      → InColumns i js cols
      → list_primals (d_vector (length cols) 0 primal) cols js ≡ ok (primals_from primal i js)
  unfolding list_primals
  list_primals_lem primal i [] cols v = refl
  list_primals_lem primal i (j ∷ js) cols v =
      let (a, q, (col, b, o)) = first_column primal i j js cols v in
      let rest = list_primals_lem primal (suc i) js cols (next_columns i j js cols v) in
      elim (Bool-cases (is_shown (primal i))) [
        | inl s ↦ rw (a, q, rest, s, b, o) refl
        | inr s ↦ rw (a, q, rest, s) refl
      ]

  add_trade_lem :
      (v : W) (k : Kind) (store : Store W) (t : Trades)
      → IsTraded k (length store)
      → (t' : Trades) × (add_trade v k store t ≡ ok t')
  unfolding add_trade
  add_trade_lem v plain store t h = (t, refl)
  add_trade_lem v (buy p station name) store t h =
      let (r, e) = get_elem?_in_range store p h in rw e (_, refl)
  add_trade_lem v (sell p station name) store t h =
      let (r, e) = get_elem?_in_range store p h in rw e (_, refl)

  list_trades_lem :
      (primal : ℕ → W) (i : ℕ) (js : List (Job W)) (cols : List (Column W)) (store : Store W)
      (t : Trades)
      → InColumns i js cols
      → All (λ j. IsTraded j.kind (length store)) js
      → (t' : Trades) × (list_trades (d_vector (length cols) 0 primal) js store t ≡ ok t')
  unfolding list_trades
  list_trades_lem primal i [] cols store t v h = (t, refl)
  list_trades_lem primal i (j ∷ js) cols store t v (h, hs) =
      let (a, q, c) = first_column primal i j js cols v in
      let rest = next_columns i j js cols v in
      elim (Bool-cases (is_shown (primal i))) [
        | inl s ↦
            let (t1, e) = add_trade_lem (primal i) j.kind store t h in
            let (t2, f) = list_trades_lem primal (suc i) js cols store t1 rest hs in
            (t2, rw (a, q, s, e, f) refl)
        | inr s ↦
            let (t2, f) = list_trades_lem primal (suc i) js cols store t rest hs in
            (t2, rw (a, q, s, f) refl)
      ]

  report_lem :
      (primal dual : ℕ → W) (rows : ℕ) (cols : List (Column W)) (ps : List ℕ) (js : List (Job W))
      (store : Store W)
      → Numbered 0 ps store
      → suc (length ps) ≤ rows
      → InColumns 0 js cols
      → All (λ j. IsTraded j.kind (length store)) js
      → (t : Trades) × (report
            (d_vector (length cols) 0 primal)
            (d_vector rows 0 dual)
            cols
            ps
            js
            store
          ≡ ok record {
            duals = money_dual dual (duals_from dual 1 (at_places store ps));
            primals = primals_from primal 0 js;
            trades = t;
          })
  unfolding report
  report_lem primal dual rows cols ps js store v h w k =
      let (t, e) = list_trades_lem primal 0 js cols store no_trades w k in
      (
        t,
        rw
            (
              get_elem?-d_vector rows 0 0 dual (omega (arith, h)),
              list_duals_lem dual rows 0 ps store v (omega (arith, h)),
              list_primals_lem primal 0 js cols w,
              e,
            )
            refl,
      )

module _ {ℓ} {W N C : Type ℓ} ⦃d : Double W⦄ ⦃n : NameSet N⦄ ⦃c : ColSet W C⦄ ⦃l : IsNameSet N⦄
    (num_rows : List (Column W) → ℕ)
    (lp_solve : List (Column W) → ℕ → List (Range W) → Option (Solution W)) (buy_in : W)
    (s : Planner W N C) (store : Store W) where
  Reports-solve :
      (x : Option (Solution W)) (xs : List (Range W))
      → Numbered 0 s.resources store
      → suc (length s.resources) ≤ num_rows (c.columns s.cols)
      → InColumns 0 s.jobs (c.columns s.cols)
      → All (λ j. IsTraded j.kind (length store)) s.jobs
      → c.is_consistent s.cols ≡ true
      → change_range (num_rows (c.columns s.cols)) (buy_in_range buy_in s.buy_in)
        ≡ ok (buy_in_range buy_in s.buy_in)
      → row_ranges (num_rows (c.columns s.cols)) s.resources store ≡ ok xs
      → lp_solve
          (c.columns s.cols)
          (num_rows (c.columns s.cols))
          (buy_in_range buy_in s.buy_in ∷ xs)
        ≡ x
      → Reports (at_places store s.resources) s.jobs x (solve num_rows lp_solve buy_in (s, store))
  unfolding solve
  Reports-solve none xs v h w k f m e i = rw (f, m, e, i) refl
  Reports-solve (some x) xs v h w k f m e i =
      let (t, r) =
        report_lem x.primal x.dual (num_rows (c.columns s.cols)) (c.columns s.cols) s.resources
          s.jobs store v h w k in
      (t, rw (f, m, e, i, r) refl)

  rows-Numbered : IsFed (s, store) → Numbered 0 s.resources store
  rows-Numbered v k p e =
      let (r, f, g) = v.has_rows.numbered k p e in (r, f, g ∙ ap some (omega arith))

  jobs-InColumns : IsFed (s, store) → InColumns 0 s.jobs (c.columns s.cols)
  jobs-InColumns v k j e =
      let (col, f, g) = v.described k j e in
      (
        v.numbered k j e ∙ ap some (omega arith),
        (col, ap (λ x. get_elem? (c.columns s.cols) x) (omega arith) ∙ f, g.objective),
      )

  -- On a planner that `addJob` has filled, `solve` reads nothing that is not there. It gives the
  -- solver the range of the money in row 0 and behind it one range for each resource in the order of
  -- the resources, for the row after the one before: as upper bound the lower limit of the resource
  -- with a minus, and the same as lower bound where that is 0, else the upper limit with a minus.
  -- Where the solver finds no optimum nothing is reported. Otherwise the report lists, of the values
  -- that are shown, the dual of row 0 for the money and of row k + 1 for resource k, and for job k the
  -- primal value of column k and the value of the job, and it has a list of trades. Conditions: the
  -- items of the jobs of the market are resources, the set of columns is consistent, and the solver
  -- makes of the columns at least as many rows as have names.
  pub solve-IsFed :
      IsFed (s, store)
      → All (λ j. IsTraded j.kind (length store)) s.jobs
      → c.is_consistent s.cols ≡ true
      → n.size s.row_names ≤ num_rows (c.columns s.cols)
      → (xs : List (Range W)) × AreRanges 1 (at_places store s.resources) xs
        × Reports
            (at_places store s.resources)
            s.jobs
            (lp_solve
              (c.columns s.cols)
              (num_rows (c.columns s.cols))
              (record { row = some 0; at_least = d.neg d.infinity; at_most = buy_in } ∷ xs))
            (solve num_rows lp_solve buy_in (s, store))
  unfolding buy_in_range
  solve-IsFed v k f h =
      let enough : suc (length s.resources) ≤ num_rows (c.columns s.cols) =
        omega (arith, h, v.has_rows.rows) in
      let (xs, e, a) =
        row_ranges_lem (num_rows (c.columns s.cols)) 0 s.resources store (rows-Numbered v)
          (omega (arith, enough)) in
      let money : buy_in_range buy_in s.buy_in
          ≡ record { row = some 0; at_least = d.neg d.infinity; at_most = buy_in } =
        ap (λ r. buy_in_range buy_in r) v.has_rows.money in
      (
        xs,
        a,
        Reports-solve _ xs (rows-Numbered v) enough (jobs-InColumns v) k f
            (change_range-ok _ 0 _ v.has_rows.money (omega (arith, enough))) e
            (ap (λ r. lp_solve (c.columns s.cols) (num_rows (c.columns s.cols)) (r ∷ xs)) money),
      )

module _ {ℓ} {W : Type ℓ} (N C : Type ℓ) ⦃d : Double W⦄ ⦃n : NameSet N⦄ ⦃c : ColSet W C⦄
    ⦃l : IsNameSet N⦄ ⦃m : IsColSet W C⦄ where
  -- On a planner to which no job was added, `solve` changes the range of a row that the solver does
  -- not have, which is undefined. Conditions: the solver makes no rows of no columns, the empty set of
  -- columns is consistent, and the sets of SoPlex number their elements.
  pub solve-new_planner :
      (num_rows : List (Column W) → ℕ)
      (lp_solve : List (Column W) → ℕ → List (Range W) → Option (Solution W)) (buy_in : W)
      (store : Store W)
      → c.is_consistent c.no_columns ≡ true
      → num_rows [] ≡ 0
      → solve {C = C} num_rows lp_solve buy_in (new_planner {N = N}, store) ≡ throw undefined
  unfolding solve change_range buy_in_range new_planner
  solve-new_planner num_rows lp_solve buy_in store f h =
      rw
        (
          f,
          m.columns-no_columns,
          h,
          l.add_new (codes "BuyIn") n.empty (l.has-empty (codes "BuyIn")),
          l.size-empty,
        )
        refl
