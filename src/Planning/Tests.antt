-- ===== src/Planning/Tests.antt =====
-- Lists as the sets of SoPlex, and the theorems about the planner of apps/main at a small linear program.
use eve_industry_planner.Prelude.{
  ℕ, zero, suc, ◌≤◌, ◌<◌, ◌+◌, ◌≡◌, ◌≢◌, refl, sym, subst, ap, ◌∙◌, Bool, true, false, ◌||◌, Option,
  none, some, List, [], ◌∷◌, ◌++◌, if◌then◌else◌, any_of, get_elem?, length, length-append, Result,
  ok, throw, All, arith, Bool-cases, inl, inr, ◌⊎◌, ltb, undefined,
}
use eve_industry_planner.Text.{Text, codes, text_eq, text_eq_iff, text_eq_refl}
use eve_industry_planner.Double.{cents_double}
use eve_industry_planner.Industry.Resource.{Resource, Store}
use eve_industry_planner.Industry.Job.{Job, new_job}
use eve_industry_planner.Catalog.Names.{Names}
use eve_industry_planner.Catalog.Types.{no_types}
use eve_industry_planner.Industry.Inventions.{Inventions}
use eve_industry_planner.Industry.Skills.{Skills}
use eve_industry_planner.Planning.Workspace.{Blueprint, Workspace, construct}
use eve_industry_planner.Planning.Workspace.Unfed.{IsReady, construct-IsReady}
use eve_industry_planner.Planning.Lp.{NameSet, IsNameSet, ColSet, IsColSet, Column, Solution}
use eve_industry_planner.Planning.Planner.{
  Planner, State, new_planner, add_jobs, add_job, add_entries, add_entry, ensure_resource,
  new_column, buy_in_entry,
}
use eve_industry_planner.Planning.Planner.Rows.{IsDistinct}
use eve_industry_planner.Planning.Planner.Fed.{IsFed, new_planner-IsFed, add_jobs-IsFed}
use eve_industry_planner.Planning.Planner.Solve.{Range, solve}
use eve_industry_planner.Planning.Planner.Reported.{
  IsTraded, at_places, AreRanges, Reports, solve-IsFed, solve-new_planner,
}

abbrev has_name : Text → List Text → Bool
has_name x s = any_of (λ y. text_eq x y) s

instance abbrev list_names : NameSet (List Text)
list_names = record {
  empty = [];
  has = has_name;
  add = λ x s. if has_name x s then (none, s) else (some (length s), s ++ (x ∷ []));
  size = λ s. length s;
}

instance abbrev list_cols : ColSet ℕ (List (Column ℕ))
list_cols = record {
  no_columns = [];
  add_column = λ x s. (length s, s ++ (x ∷ []));
  num = λ s. length s;
  columns = λ s. s;
  is_consistent = λ s. true;
}

has-snoc : (x y : Text) (s : List Text) → has_name y (s ++ (x ∷ [])) ≡ (has_name y s || text_eq y x)
has-snoc x y [] = ground arith
has-snoc x y (z ∷ s) = ground (arith, has-snoc x y s)

instance list_names_laws : IsNameSet (List Text)
list_names_laws = record {
  has-empty = λ x. refl;
  size-empty = refl;
  add_new = λ x s h. rw h refl;
  size-add = λ x s h. rw h (omega (arith, length-append s (x ∷ [])));
  has-add_self = λ x s. elim (Bool-cases (has_name x s)) [
    | inl h ↦ rw (h, h) refl
    | inr h ↦ rw h (ground (arith, has-snoc x x s, text_eq_refl x))
  ];
  has-add = λ x y s e. elim (Bool-cases (has_name x s)) [
    | inl h ↦ inr (rw h at e)
    | inr h ↦ elim (Bool-cases (text_eq y x)) [
      | inl g ↦ inl (sym (text_eq_iff y x g))
      | inr g ↦ inr (ground (arith, has-snoc x y s, rw h at e, g))
    ]
  ];
}

instance list_cols_laws : IsColSet ℕ (List (Column ℕ))
list_cols_laws = record {
  columns-no_columns = refl;
  columns-add = λ x s. refl;
  index-add = λ x s. refl;
  num-length = λ s. refl;
}

abbrev named : Text → Resource ℕ
named x = record { lower_limit = 5; upper_limit = 100; name = x; full_name = x; row_id = none }

abbrev market : Store ℕ
market = named (codes "3") ∷ named (codes "34") ∷ []

market_unique :
    (p q : ℕ) (r t : Resource ℕ)
    → get_elem? market p ≡ some r
    → get_elem? market q ≡ some t
    → r.name ≡ t.name
    → p ≡ q
market_unique zero zero r t e f h = refl
market_unique zero (suc zero) r t e f h = absurd (cc (e, f, h))
market_unique (suc zero) zero r t e f h = absurd (cc (e, f, h))
market_unique (suc zero) (suc zero) r t e f h = refl
market_unique (suc (suc p)) q r t e f h = absurd (cc e)
market_unique p (suc (suc q)) r t e f h = absurd (cc f)

market_no_money : (p : ℕ) (r : Resource ℕ) → get_elem? market p ≡ some r → r.name ≢ codes "BuyIn"
market_no_money zero r e h = cc (e, h)
market_no_money (suc zero) r e h = cc (e, h)
market_no_money (suc (suc p)) r e h = cc e

market-IsDistinct : IsDistinct market
market-IsDistinct = record { unique = market_unique; no_money = market_no_money }

abbrev empty_planner : Planner ℕ (List Text) (List (Column ℕ))
empty_planner = new_planner {W = ℕ} {N = List Text} {C = List (Column ℕ)}

abbrev refine : Job ℕ
refine = new_job ((0, 100) ∷ []) ((1, 300) ∷ []) 7 (codes "Refine") (codes "Refine")

empty-IsFed : IsFed (empty_planner, market)
empty-IsFed = new_planner-IsFed market market-IsDistinct

add_jobs-IsFed_example :
    (st' : State ℕ (List Text) (List (Column ℕ))) × (add_jobs (refine ∷ []) (empty_planner, market)
      ≡ ok st')
    × IsFed st'
    × (length st'.0.jobs ≡ 0 + 1)
    × (length st'.1 ≡ 2)
unfolding new_planner new_job
add_jobs-IsFed_example =
    add_jobs-IsFed (refine ∷ []) (empty_planner, market) empty-IsFed (refl, tt, tt)
      (((omega arith, tt), (omega arith, tt)), tt)

-- the planner that some jobs are added to
abbrev or_empty :
    Result (State ℕ (List Text) (List (Column ℕ))) → State ℕ (List Text) (List (Column ℕ))
or_empty (ok st) = st
or_empty (throw e) = (empty_planner, market)

abbrev filled : State ℕ (List Text) (List (Column ℕ))
filled = or_empty (add_jobs (refine ∷ []) (empty_planner, market))

filled-IsFed : IsFed filled
unfolding new_planner new_job
filled-IsFed =
    let (st, e, v, _, _) =
      add_jobs-IsFed (refine ∷ []) (empty_planner, market) empty-IsFed (refl, tt, tt)
        (((omega arith, tt), (omega arith, tt)), tt) in
    subst (λ r. IsFed (or_empty r)) (sym e) v

-- one row more than the largest index
abbrev rows_of_entries : List (Option ℕ × ℕ) → ℕ
rows_of_entries [] = 0
rows_of_entries ((none, w) ∷ es) = rows_of_entries es
rows_of_entries ((some k, w) ∷ es) =
    let rest = rows_of_entries es in if ltb rest (k + 1) then k + 1 else rest

abbrev count_rows : List (Column ℕ) → ℕ
count_rows [] = 0
count_rows (x ∷ xs) =
    let rest = count_rows xs in
    let here = rows_of_entries x.entries in if ltb rest here then here else rest

abbrev one_of_each : List (Column ℕ) → ℕ → List (Range ℕ) → Option (Solution ℕ)
one_of_each cols rows ranges = some record { primal = λ i. 300; dual = λ i. i + 100 }

filled_rows : length filled.0.row_names ≤ count_rows filled.0.cols
unfolding add_jobs add_job new_planner add_entries new_job add_entry ensure_resource text_eq
    new_column buy_in_entry
filled_rows = omega arith

filled_jobs : All (λ j. IsTraded j.kind (length filled.1)) filled.0.jobs
unfolding add_jobs add_job new_planner add_entries new_job add_entry ensure_resource
filled_jobs = (tt, tt)

solve-IsFed_example :
    (xs : List (Range ℕ)) × AreRanges 1 (at_places filled.1 filled.0.resources) xs
    × Reports
        (at_places filled.1 filled.0.resources)
        filled.0.jobs
        (one_of_each filled.0.cols (count_rows filled.0.cols) (
          record { row = some 0; at_least = cents_double.neg cents_double.infinity; at_most = 5000 }
          ∷ xs))
        (solve count_rows one_of_each 5000 filled)
solve-IsFed_example =
    solve-IsFed count_rows one_of_each 5000 filled.0 filled.1 filled-IsFed filled_jobs refl
      filled_rows

solve-new_planner_example :
    solve count_rows one_of_each 5000 (empty_planner, market) ≡ throw undefined
solve-new_planner_example =
    solve-new_planner (List Text) (List (Column ℕ)) count_rows one_of_each 5000 market refl refl

abbrev names : Names
names = record {
  names = (691, codes "Rifter Blueprint") ∷ [];
  type_ids = (codes "Rifter Blueprint", 691) ∷ [];
}

abbrev pilot : Skills ℕ
pilot = record {
  override_skills = false;
  production_lines = 3;
  science_labs = 2;
  manufacturing_time_reduction = 80;
  copy_time_reduction = 75;
  research_time_reduction = 85;
  cpu = 0;
  power = 0;
  racial_encryption_skills = [];
  advanced_science_skills = [];
  manufacturing_time_modifier_skills = [];
  skill_levels = [];
}

abbrev rifter : Blueprint ℕ
rifter = record {
  id = 691;
  node = record {
    blueprint_type_id = some 691;
    manufacturing_product = some 587;
    invention_products = [];
  };
  manufacturing = none;
  invention = none;
  copying = some record { products = none; materials = none; time = some 4800; skills = none };
}

abbrev ready : Workspace ℕ
ready = record {
  types = record no_types {
    blueprints = 691 ∷ [];
    manufacturing_outputs = 587 ∷ [];
    bp_to_product = (691, 587) ∷ [];
    product_to_bp = (587, 691) ∷ [];
  };
  jobs = record {
    copies = record { blueprint = 691; duration = 4800 } ∷ [];
    products = [];
    inventions = record { t2_blueprints = []; t3_blueprints = [] };
    schematics = [];
  };
  values = [];
  production_lines = 3;
  science_labs = 2;
}

construct-ready :
    construct names [] ((691, 90000) ∷ []) [] pilot 1000000 11 2 [] (rifter ∷ []) ≡ ok ready
unfolding construct eve_industry_planner.Planning.Workspace.process_blueprints
    eve_industry_planner.Planning.Workspace.process_blueprint
    eve_industry_planner.Catalog.Types.Register.register_blueprint
    eve_industry_planner.Catalog.Names.check_name eve_industry_planner.Prelude.lookup
    eve_industry_planner.Catalog.Types.Register.is_ancient_relic
    eve_industry_planner.Planning.Workspace.filter_jobs
    eve_industry_planner.Industry.Values.set_job_values eve_industry_planner.Prelude.add
    eve_industry_planner.Prelude.insert eve_industry_planner.Industry.Copies.filter_copies
    eve_industry_planner.Industry.Products.filter_products
    eve_industry_planner.Industry.Inventions.filter_inventions
    eve_industry_planner.Planning.Workspace.add_activities eve_industry_planner.Prelude.contains
    eve_industry_planner.Industry.Copies.add_copying_data
    eve_industry_planner.Industry.Products.add_manufacturing_data
    eve_industry_planner.Industry.Inventions.add_invention_data
    eve_industry_planner.Industry.Values.set_job_value
    eve_industry_planner.Industry.Copies.bpo_too_expensive
    eve_industry_planner.Industry.Values.input_values
    eve_industry_planner.Industry.Values.input_values_from
construct-ready = refl

construct-IsReady_example : IsReady names [] ((691, 90000) ∷ []) [] pilot 1000000 11 2 ready
construct-IsReady_example =
    construct-IsReady names [] ((691, 90000) ∷ []) [] pilot 1000000 11 2 [] (rifter ∷ []) ready
      construct-ready
