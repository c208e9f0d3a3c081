-- ===== src/Planning/Planner/Entries.antt =====
-- The entries of a column, as the two loops of `addJob` in apps/main/src/planner.cpp make them.
use eve_industry_planner.Prelude.{
  ℕ, suc, ◌<◌, ◌≡◌, refl, sym, subst, Option, some, List, [], ◌∷◌, ◌++◌, get_elem?, ok, length,
}
use eve_industry_planner.Double.{Double}
use eve_industry_planner.Industry.Job.{Job}
use eve_industry_planner.Industry.Stuff.Calls.{AreValid}
use eve_industry_planner.Planning.Lp.{NameSet, IsNameSet, ColSet, Column}
use eve_industry_planner.Planning.Planner.{State, buy_in_entry, add_entry, add_entries}
use eve_industry_planner.Planning.Planner.Rows.{
  HasRows, Grows, Grows-refl, Grows-trans, ensure_resource-Ensures,
}

module _ {ℓ} {W : Type ℓ} where
  -- The entry is in the row of the resource that `p` leads to and has the amount, with the sign.
  abbrev pub IsEntry : (W → W) → List ℕ → ℕ × W → Option ℕ × W → Type ℓ
  IsEntry sign rs (p, w) (row, x) =
      (k : ℕ) × (get_elem? rs k ≡ some p) × (row ≡ some (suc k)) × (x ≡ sign w)

  abbrev pub AreEntries : (W → W) → List ℕ → List (ℕ × W) → List (Option ℕ × W) → Type ℓ
  AreEntries sign rs [] [] = Unit
  AreEntries sign rs (m ∷ ms) (e ∷ es) = IsEntry sign rs m e × AreEntries sign rs ms es
  AreEntries sign rs [] (e ∷ es) = (k : ℕ) × (w : W) × (suc k ≡ 0)
  AreEntries sign rs (m ∷ ms) [] = (k : ℕ) × (w : W) × (suc k ≡ 0)

  pub AreEntries-kept :
      (sign : W → W) (rs ss : List ℕ) (ms : List (ℕ × W)) (es : List (Option ℕ × W))
      → ((k p : ℕ) → get_elem? rs k ≡ some p → get_elem? ss k ≡ some p)
      → AreEntries sign rs ms es
      → AreEntries sign ss ms es
  AreEntries-kept sign rs ss [] [] h v = v
  AreEntries-kept sign rs ss [] (e ∷ es) h v = v
  AreEntries-kept sign rs ss (m ∷ ms) [] h v = v
  AreEntries-kept sign rs ss ((p, w) ∷ ms) ((row, x) ∷ es) h ((k, f, g, i), v) =
      ((k, h k p f, g, i), AreEntries-kept sign rs ss ms es h v)

module _ {ℓ} {W : Type ℓ} ⦃d : Double W⦄ where
  -- The column of a job: its value, its limits, the money it needs in row 0, what it produces with a
  -- minus and what it consumes with a plus.
  pub record IsColumn (rs : List ℕ) (job : Job W) (col : Column W) : Type ℓ where
    pub objective : col.objective ≡ job.cost
    pub lower : col.lower ≡ job.lower_limit
    pub upper : col.upper ≡ job.upper_limit
    pub outs : List (Option ℕ × W)
    pub ins : List (Option ℕ × W)
    pub entries : col.entries ≡ buy_in_entry job.cost ++ (outs ++ ins)
    pub produced : AreEntries d.neg rs job.outputs outs
    pub consumed : AreEntries (λ w. w) rs job.inputs ins

  pub IsColumn-kept :
      (rs ss : List ℕ) (job : Job W) (col : Column W)
      → ((k p : ℕ) → get_elem? rs k ≡ some p → get_elem? ss k ≡ some p)
      → IsColumn rs job col
      → IsColumn ss job col
  IsColumn-kept rs ss job col h v = record {
    objective = v.objective;
    lower = v.lower;
    upper = v.upper;
    outs = v.outs;
    ins = v.ins;
    entries = v.entries;
    produced = AreEntries-kept d.neg rs ss job.outputs v.outs h v.produced;
    consumed = AreEntries-kept (λ w. w) rs ss job.inputs v.ins h v.consumed;
  }

module _ {ℓ} {W N C : Type ℓ} ⦃d : Double W⦄ ⦃n : NameSet N⦄ ⦃c : ColSet W C⦄
    ⦃l : IsNameSet N⦄ where
  add_entry_lem :
      (sign : W → W) (p : ℕ) (w : W) (st : State W N C) (v : HasRows st)
      → p < length st.1
      → (e : Option ℕ × W) × (st' : State W N C) × (add_entry sign (p, w) st ≡ ok (e, st'))
        × HasRows st'
        × Grows st st'
        × IsEntry sign st'.0.resources (p, w) e
  unfolding add_entry
  add_entry_lem sign p w (s, store) v h =
      let (st', e, v', g, (k, f)) = ensure_resource-Ensures s store v p h in
      let (r, i, j) = v'.numbered k p f in (_, st', rw (e, i) refl, v', g, (k, f, j, refl))

  pub add_entries_lem :
      (sign : W → W) (ms : List (ℕ × W)) (st : State W N C) (v : HasRows st)
      → AreValid ms (length st.1)
      → (es : List (Option ℕ × W)) × (st' : State W N C) × (add_entries sign ms st ≡ ok (es, st'))
        × HasRows st'
        × Grows st st'
        × AreEntries sign st'.0.resources ms es
  unfolding add_entries
  add_entries_lem sign [] st v h = ([], st, refl, v, Grows-refl st, tt)
  add_entries_lem sign ((p, w) ∷ ms) st v (h, hs) =
      let (e, st1, f, v1, g1, (k, i, j, z)) = add_entry_lem sign p w st v h in
      let (es, st2, f2, v2, g2, t) =
        add_entries_lem sign ms st1 v1 (subst (λ x. AreValid ms x) (sym g1.same_length) hs) in
      (
        e ∷ es,
        st2,
        rw (f, f2) refl,
        v2,
        Grows-trans st st1 st2 g1 g2,
        ((k, g2.kept k p i, j, z), t),
      )
