-- ===== src/Planning/Planner/Fed.antt =====
-- The columns of the linear program of apps/main/src/planner.cpp: `addJob` gives every job a column of
-- its own, whose entries are in the rows of the resources that the job produces and consumes.
use eve_industry_planner.Prelude.{
  ℕ, suc, ◌+◌, ◌≡◌, ◌≢◌, refl, sym, ap, subst, ◌∙◌, true, false, Option, some, List, [], ◌∷◌, ◌++◌,
  ◌==◌, get_elem?, ok, inl, inr, arith, length, length-append, All, get_elem?-append_left,
  get_elem?-append_end, get_elem?-append_cases, Bool-cases,
}
use eve_industry_planner.Text.{Text, codes}
use eve_industry_planner.Double.{Double}
use eve_industry_planner.Industry.Resource.{Store}
use eve_industry_planner.Industry.Job.{Job}
use eve_industry_planner.Industry.Stuff.Calls.{AreValid, PointersLead}
use eve_industry_planner.Planning.Lp.{NameSet, IsNameSet, ColSet, IsColSet, Column}
use eve_industry_planner.Planning.Planner.{
  Planner, State, new_planner, new_column, buy_in_entry, add_job, add_jobs,
}
use eve_industry_planner.Planning.Planner.Rows.{IsDistinct, HasRows, Grows-trans}
use eve_industry_planner.Planning.Planner.Entries.{
  AreEntries, AreEntries-kept, IsColumn, IsColumn-kept, add_entries_lem,
}

test_of_eq : {a b : ℕ} → a ≡ b → (a == b) ≡ true
test_of_eq h = ground (arith, h)

module _ {ℓ} {W N : Type ℓ} ⦃n : NameSet N⦄ where
  -- The jobs have names that the planner does not know, no two of them the same.
  abbrev pub AreNew : N → List (Job W) → Type 0
  AreNew names [] = Unit
  AreNew names (j ∷ js) =
      (n.has j.name names ≡ false) × All (λ i. j.name ≢ i.name) js × AreNew names js

  AreNew-add :
      ⦃l : IsNameSet N⦄ (x : Text) (names : N) (js : List (Job W))
      → All (λ i. x ≢ i.name) js
      → AreNew names js
      → AreNew (n.add x names).1 js
  AreNew-add x names [] u v = tt
  AreNew-add ⦃l⦄ x names (j ∷ js) (u, us) (v, w, vs) = (
    elim (Bool-cases (n.has j.name (n.add x names).1)) [
      | inr e ↦ e
      | inl e ↦ elim (l.has-add x j.name names e) [
        | inl f ↦ absurd (u f)
        | inr f ↦ absurd (cc (f, v))
      ]
    ],
    w,
    AreNew-add x names js us vs,
  )

module _ {ℓ} {W N C : Type ℓ} ⦃d : Double W⦄ ⦃n : NameSet N⦄ ⦃c : ColSet W C⦄
    ⦃l : IsNameSet N⦄ where
  pub record IsFed (st : State W N C) : Type ℓ where
    pub has_rows : HasRows st
    pub names : n.size st.0.col_names ≡ length st.0.jobs
    pub columns : length (c.columns st.0.cols) ≡ length st.0.jobs
    pub numbered : (k : ℕ) (job : Job W) → get_elem? st.0.jobs k ≡ some job → job.col_id ≡ some k
    pub described :
        (k : ℕ) (job : Job W)
        → get_elem? st.0.jobs k ≡ some job
        → (col : Column W) × (get_elem? (c.columns st.0.cols) k ≡ some col)
          × IsColumn st.0.resources job col

  pub new_planner-IsFed :
      ⦃m : IsColSet W C⦄ (store : Store W) → IsDistinct store → IsFed (new_planner, store)
  unfolding new_planner
  new_planner-IsFed ⦃m⦄ store v = record {
    has_rows = record {
      money =
          l.add_new (codes "BuyIn") n.empty (l.has-empty (codes "BuyIn")) ∙ ap some l.size-empty;
      rows = l.size-add (codes "BuyIn") n.empty (l.has-empty (codes "BuyIn")) ∙ ap suc l.size-empty;
      numbered = λ k p h. absurd (cc h);
      known = λ x h. elim (l.has-add (codes "BuyIn") x n.empty h) [
        | inl e ↦ inl (sym e)
        | inr e ↦ absurd (cc (e, l.has-empty x))
      ];
      distinct = v;
    };
    names = l.size-empty;
    columns = ap length m.columns-no_columns;
    numbered = λ k j h. absurd (cc h);
    described = λ k j h. absurd (cc h);
  }

  module _ ⦃m : IsColSet W C⦄ (s : Planner W N C) (store : Store W) (v : HasRows (s, store))
      (job : Job W) (outs ins : List (Option ℕ × W)) where
    new_col : Column W
    new_col = new_column job (buy_in_entry job.cost ++ (outs ++ ins))

    with_job : Planner W N C
    with_job = record s {
      cols = (c.add_column new_col s.cols).1;
      jobs = s.jobs ++ (record job { col_id = some (c.add_column new_col s.cols).0 } ∷ []);
    }

    with_job-IsFed :
        n.size s.col_names ≡ suc (length s.jobs)
        → length (c.columns s.cols) ≡ length s.jobs
        → ((k : ℕ) (j : Job W) → get_elem? s.jobs k ≡ some j → j.col_id ≡ some k)
        → ((k : ℕ) (j : Job W)
            → get_elem? s.jobs k ≡ some j
            → (col : Column W) × (get_elem? (c.columns s.cols) k ≡ some col)
              × IsColumn s.resources j col)
        → AreEntries d.neg s.resources job.outputs outs
        → AreEntries (λ w. w) s.resources job.inputs ins
        → IsFed (with_job, store)
    unfolding with_job new_col new_column
    with_job-IsFed a b num des p q = record {
      has_rows = record {
        money = v.money;
        rows = v.rows;
        numbered = v.numbered;
        known = v.known;
        distinct = v.distinct;
      };
      names = omega (
        arith,
        a,
        length-append s.jobs (record job { col_id = some (c.add_column new_col s.cols).0 } ∷ []),
      );
      columns = omega (
        arith,
        b,
        ap length (m.columns-add new_col s.cols),
        length-append (c.columns s.cols) (new_col ∷ []),
        length-append s.jobs (record job { col_id = some (c.add_column new_col s.cols).0 } ∷ []),
      );
      numbered = λ k j h. elim (get_elem?-append_cases s.jobs _ k j h) [
        | inl e ↦ num k j e
        | inr (e, f) ↦ ap (λ x. x.col_id) f ∙ ap some (m.index-add new_col s.cols ∙ b ∙ sym e)
      ];
      described = λ k j h. elim (get_elem?-append_cases s.jobs _ k j h) [
        | inl e ↦
            let (col, f, g) = des k j e in
            (
              col,
              subst (λ x. get_elem? x k ≡ some col) (sym (m.columns-add new_col s.cols))
                  (get_elem?-append_left (c.columns s.cols) (new_col ∷ []) k col f),
              g,
            )
        | inr (e, f) ↦ (
          new_col,
          subst (λ x. get_elem? x k ≡ some new_col) (sym (m.columns-add new_col s.cols))
              (get_elem?-append_end (c.columns s.cols) new_col k (b ∙ sym e)),
          subst (λ x. IsColumn s.resources x new_col) (sym f)
              record {
                objective = refl;
                lower = refl;
                upper = refl;
                outs = outs;
                ins = ins;
                entries = refl;
                produced = p;
                consumed = q;
              },
        )
      ];
    }

  module _ ⦃m : IsColSet W C⦄ (s : Planner W N C) (store : Store W) (v : IsFed (s, store))
      (job : Job W) where
    -- A job with a name that is not known, whose pointers lead to resources, is added behind the
    -- others with the number of its column, its name is recorded, the number of resources is the same,
    -- and the planner stays well formed: every resource has its row and every job the column that
    -- describes it. Conditions: the planner was well formed before, and the sets of SoPlex number
    -- their elements.
    pub add_job-IsFed :
        n.has job.name s.col_names ≡ false
        → AreValid job.outputs (length store)
        → AreValid job.inputs (length store)
        → (st' : State W N C) × (add_job job (s, store) ≡ ok st')
          × IsFed st'
          × (st'.0.jobs ≡ s.jobs ++ (record job { col_id = some (length s.jobs) } ∷ []))
          × (st'.0.col_names ≡ (n.add job.name s.col_names).1)
          × (length st'.1 ≡ length store)
    unfolding add_job new_column with_job new_col
    add_job-IsFed h a b =
        let s0 : Planner W N C = record s { col_names = (n.add job.name s.col_names).1 } in
        let w = v.has_rows in
        let v0 : HasRows (s0, store) = record {
          money = w.money;
          rows = w.rows;
          numbered = w.numbered;
          known = w.known;
          distinct = w.distinct;
        } in
        let (outs, st1, e1, v1, g1, t1) = add_entries_lem d.neg job.outputs (s0, store) v0 a in
        let (ins, st2, e2, v2, g2, t2) =
          add_entries_lem (λ x. x) job.inputs st1 v1
            (subst (λ x. AreValid job.inputs x) (sym g1.same_length) b) in
        let g = Grows-trans (s0, store) st1 st2 g1 g2 in
        let fed =
          with_job-IsFed st2.0 st2.1 v2 job outs ins
            (ap (λ x. n.size x) g.same_names
              ∙ l.size-add job.name s.col_names h
              ∙ ap suc (v.names ∙ ap length (sym g.same_jobs)))
            (ap (λ x. length (c.columns x)) g.same_cols ∙ v.columns ∙ ap length (sym g.same_jobs))
            (λ k j e. v.numbered k j (sym (ap (λ x. get_elem? x k) g.same_jobs) ∙ e))
            (λ k j e.
              let (col, f, i) = v.described k j (sym (ap (λ x. get_elem? x k) g.same_jobs) ∙ e) in
              (
                col,
                ap (λ x. get_elem? (c.columns x) k) g.same_cols ∙ f,
                IsColumn-kept s.resources st2.0.resources j col g.kept i,
              ))
            (AreEntries-kept d.neg st1.0.resources st2.0.resources job.outputs outs g2.kept t1)
            t2 in
        let count : (c.num (with_job st2.0 st2.1 v2 job outs ins).cols == n.size st2.0.col_names)
            ≡ true =
          test_of_eq (m.num-length _ ∙ fed.columns ∙ sym fed.names) in
        let index = ap some (
          m.index-add (new_col st2.0 st2.1 v2 job outs ins) st2.0.cols
          ∙ ap (λ x. length (c.columns x)) g.same_cols
          ∙ v.columns) in
        (
          (with_job st2.0 st2.1 v2 job outs ins, st2.1),
          rw (h, e1, e2, count) refl,
          fed,
          cc (g.same_jobs, index),
          g.same_names,
          g.same_length,
        )

  -- Jobs whose names are new and differ from one another, and whose pointers lead to resources, are
  -- all added: the planner then has as many jobs more, the store as many resources as before, every
  -- resource has a row of its own behind that of the money, and every job has the column at its place,
  -- with its value, its limits, the money that it needs, what it produces with a minus and what it
  -- consumes with a plus, each in the row of its resource. Conditions: the planner was so before, the
  -- names of the resources differ, and the sets of SoPlex number their elements.
  pub add_jobs-IsFed :
      ⦃m : IsColSet W C⦄ (js : List (Job W)) (st : State W N C)
      → IsFed st
      → AreNew st.0.col_names js
      → PointersLead js (length st.1)
      → (st' : State W N C) × (add_jobs js st ≡ ok st')
        × IsFed st'
        × (length st'.0.jobs ≡ length st.0.jobs + length js)
        × (length st'.1 ≡ length st.1)
  unfolding add_jobs
  add_jobs-IsFed [] st v a p = (st, refl, v, omega arith, refl)
  add_jobs-IsFed (j ∷ js) (s, store) v (a, b, later) ((p, q), ps) =
      let (st1, e1, v1, g, h, i) = add_job-IsFed s store v j a p q in
      let (st2, e2, v2, t, o) =
        add_jobs-IsFed js st1 v1
          (subst (λ x. AreNew x js) (sym h) (AreNew-add j.name s.col_names js b later))
          (subst (λ x. PointersLead js x) (sym i) ps) in
      (
        st2,
        rw (e1, e2) refl,
        v2,
        omega (
          arith,
          t,
          ap length g,
          length-append s.jobs (record j { col_id = some (length s.jobs) } ∷ []),
        ),
        o ∙ i,
      )
