-- ===== src/Pricing/Writer/Mirror/Replay.antt =====
-- A whole page: apps/pricing/json_reader.cpp replays what any run of the branches of `extract2` in
-- apps/pricing/json_writer.cpp has written.
use mathlib.Core.List.{append_assoc, append-nil}
use eve_industry_planner.Prelude.{
  ℕ, zero, suc, ◌+◌, ◌^◌, ◌≤◌, ◌<◌, ◌≡◌, refl, sym, subst, ◌∙◌, none, some, List, [], ◌∷◌, ◌++◌,
  arith, length, get_elem?, lookup, ok, Option-cases, inl, inr, lt-length_of_get_elem?, or_throw,
  or_throw-eq-ok, >>=-eq-ok, ok-injective, ◌⊎◌, runtime_error,
}
use eve_industry_planner.Double.{Double, IsBitwise}
use eve_industry_planner.Pricing.Order.{Order, IsOrder}
use eve_industry_planner.Pricing.Reader.{
  Reader, read_step, read_loop, read_doc, modify, modify-none,
}
use eve_industry_planner.Pricing.Reader.Total.{read_step-Shrinks, Shrinks}
use eve_industry_planner.Pricing.Writer.{Writer, new_index, write_new, write_changed, write_removed}
use eve_industry_planner.Pricing.Writer.Mirror.{Market, put, drop_id}
use eve_industry_planner.Pricing.Writer.Mirror.Steps.{
  Mirrors, Emits, new_next, new_reuse, changed, removed,
}

List-cases : (xs : List ℕ) → (xs ≡ []) ⊎ ((x : ℕ) × (r : List ℕ) × (xs ≡ x ∷ r))
List-cases [] = inl refl
List-cases (x ∷ r) = inr (x, r, refl)

modify_in_range {ℓ} :
    {A : Type ℓ} (xs : List A) (i : ℕ) (f : A → A) {ys : List A}
    → modify xs i f ≡ ok ys
    → i < length xs
modify_in_range xs i f h = elim (Option-cases (get_elem? xs i)) [
  | inl e ↦ absurd (ground (arith, modify-none xs i f e))
  | inr (x, e) ↦ lt-length_of_get_elem? xs i e
]

module _ {ℓ} {W : Type ℓ} ⦃d : Double W⦄ where
  new_in_range :
      (w : Writer W) (o : Order W) (s : ℕ) (free : List ℕ) {w' : Writer W}
      → write_new w o ≡ ok w'
      → w.free_list ≡ s ∷ free
      → s < length w.active_orders2
  unfolding write_new new_index
  new_in_range w o s free h e = elim (Option-cases (get_elem? w.active_orders2 s)) [
    | inl g ↦ absurd (ground (arith, modify-none w.active_orders2 s (λ (_ : Order W). o) g))
    | inr (x, g) ↦ lt-length_of_get_elem? w.active_orders2 s g
  ]

  changed_slot :
      (w : Writer W) (o : Order W) {w' : Writer W}
      → write_changed w o ≡ ok w'
      → (s : ℕ) × (lookup o.id w.index ≡ some s) × (s < length w.active_orders2)
  unfolding write_changed
  changed_slot w o h =
      let (s, e, k) = >>=-eq-ok (or_throw (lookup o.id w.index) runtime_error) _ h in
      let (slots, f, l) = >>=-eq-ok (modify w.active_orders2 s (λ _. o)) _ k in
      (
        s,
        or_throw-eq-ok (lookup o.id w.index) runtime_error e,
        modify_in_range w.active_orders2 s _ f,
      )

  removed_slot :
      (w : Writer W) (o : Order W) {w' : Writer W}
      → write_removed w o ≡ ok w'
      → (s : ℕ) × (lookup o.id w.index ≡ some s) × (s < length w.active_orders2)
  unfolding write_removed
  removed_slot w o h =
      let (s, e, k) = >>=-eq-ok (or_throw (lookup o.id w.index) runtime_error) _ h in
      let (slots, f, l) =
        >>=-eq-ok (modify w.active_orders2 s (λ (x : Order W). record x { volume = 0 })) _ k in
      (
        s,
        or_throw-eq-ok (lookup o.id w.index) runtime_error e,
        modify_in_range w.active_orders2 s _ f,
      )

  -- A run of the three branches, each of which has succeeded, and the market before and after it. The
  -- reader has `slots` slots, more than the writer hands out.
  pub data Story (slots : ℕ) : Writer W → Market W → Writer W → Market W → Type ℓ where
    done : {w : Writer W} {v : Market W} → Story slots w v w v
    wrote_new :
        {w w' w'' : Writer W} {v v'' : Market W} (o : Order W)
        → IsOrder o
        → v o.id ≡ none
        → length w.active_orders2 + 1 < slots
        → write_new w o ≡ ok w'
        → Story slots w' (put o.id o v) w'' v''
        → Story slots w v w'' v''
    wrote_changed :
        {w w' w'' : Writer W} {v v'' : Market W} (o old : Order W)
        → o.volume < 2 ^ 32
        → v o.id ≡ some old
        → write_changed w o ≡ ok w'
        → Story slots w' (put o.id (record old { price = o.price; volume = o.volume }) v) w'' v''
        → Story slots w v w'' v''
    wrote_removed :
        {w w' w'' : Writer W} {v v'' : Market W} (o : Order W)
        → write_removed w o ≡ ok w'
        → Story slots w' (drop_id o.id v) w'' v''
        → Story slots w v w'' v''

  module _ (laws : IsBitwise W) where
    new_Emits :
        (w : Writer W) (r : Reader W) (v : Market W) (m : Mirrors w r v) (o : Order W)
        {w' : Writer W}
        → IsOrder o
        → v o.id ≡ none
        → length w.active_orders2 + 1 < length r.active_orders
        → write_new w o ≡ ok w'
        → Emits w w' r (put o.id o v)
    new_Emits w r v m o i n room h = elim (List-cases w.free_list) [
      | inl e ↦
          let (u, e', em) = new_next laws w r v m o i n e room in
          subst (λ x. Emits w x r (put o.id o v)) (ok-injective (sym e' ∙ h)) em
      | inr (s, rest, e) ↦
          let (u, e', em) = new_reuse laws w r v m o s rest i n e (new_in_range w o s rest h e) in
          subst (λ x. Emits w x r (put o.id o v)) (ok-injective (sym e' ∙ h)) em
    ]

    changed_Emits :
        (w : Writer W) (r : Reader W) (v : Market W) (m : Mirrors w r v) (o old : Order W)
        {w' : Writer W}
        → o.volume < 2 ^ 32
        → v o.id ≡ some old
        → write_changed w o ≡ ok w'
        → Emits w w' r (put o.id (record old { price = o.price; volume = o.volume }) v)
    changed_Emits w r v m o old i n h =
        let (s, here, lt) = changed_slot w o h in
        let (x, known, u, e', em) = changed laws w r v m o s i here lt in
        let same : x ≡ old = ground arith in
        subst (λ y. Emits w y r (put o.id (record old { price = o.price; volume = o.volume }) v))
          (ok-injective (sym e' ∙ h))
          (subst (λ y. Emits w u r (put o.id (record y { price = o.price; volume = o.volume }) v))
            same em)

    removed_Emits :
        (w : Writer W) (r : Reader W) (v : Market W) (m : Mirrors w r v) (o : Order W)
        {w' : Writer W}
        → write_removed w o ≡ ok w'
        → Emits w w' r (drop_id o.id v)
    removed_Emits w r v m o h =
        let (s, here, lt) = removed_slot w o h in
        let (u, e', em) = removed laws w r v m o s here lt in
        subst (λ y. Emits w y r (drop_id o.id v)) (ok-injective (sym e' ∙ h)) em

  read_loop_next :
      (fuel : ℕ) (r r' : Reader W) (doc rest : List ℕ)
      → read_step r doc ≡ ok (r', rest)
      → length rest < length doc
      → length doc ≤ fuel
      → (f : ℕ) × (length rest ≤ f) × (read_loop fuel r doc ≡ read_loop f r' rest)
  unfolding read_loop
  read_loop_next zero r r' [] rest e s h = absurd (omega arith)
  read_loop_next (suc fuel) r r' [] rest e s h = absurd (omega arith)
  read_loop_next zero r r' (b ∷ doc) rest e s h = absurd (omega arith)
  read_loop_next (suc fuel) r r' (b ∷ doc) rest e s h = (fuel, omega arith, rw e)

  abbrev Replays : Writer W → Reader W → Writer W → Market W → Type ℓ
  Replays w r w' v' =
      (bytes : List ℕ) × (r' : Reader W) × (w'.written ≡ w.written ++ bytes)
      × ((fuel : ℕ) → length bytes ≤ fuel → read_loop fuel r bytes ≡ ok r')
      × Mirrors w' r' v'

  shrinks :
      (r : Reader W) (doc : List ℕ) {r' : Reader W} {rest : List ℕ}
      → read_step r doc ≡ ok (r', rest)
      → (length rest < length doc) × (length r'.active_orders ≡ length r.active_orders)
  shrinks r doc {r' = r'} {rest = rest} e = subst (Shrinks r doc) e (read_step-Shrinks r doc)

  -- One record in front of a replay.
  Emits-Replays :
      (w w' w'' : Writer W) (r : Reader W) (v' v'' : Market W)
      → Emits w w' r v'
      → ((r' : Reader W)
          → length r'.active_orders ≡ length r.active_orders
          → Mirrors w' r' v'
          → Replays w' r' w'' v'')
      → Replays w r w'' v''
  Emits-Replays w w' w'' r v' v'' (bytes, r', e, read, m) next =
      let (more, r'', e', replay, m') = next r' (shrinks r (bytes ++ []) (read [])).1 m in
      (
        bytes ++ more,
        r'',
        rw (e', e) (append_assoc w.written bytes more),
        λ fuel h.
            let (f, le, eq) =
              read_loop_next fuel r r' (bytes ++ more) more (read more)
                (shrinks r (bytes ++ more) (read more)).0 h in
            eq ∙ replay f le,
        m',
      )

  module _ (laws : IsBitwise W) where
    Story-Replays :
        {slots : ℕ} {w w' : Writer W} {v v' : Market W}
        → Story slots w v w' v'
        → (r : Reader W) → length r.active_orders ≡ slots
        → Mirrors w r v
        → Replays w r w' v'
    unfolding read_loop
    Story-Replays {w = w} done r n m = ([], r, sym (append-nil w.written), λ fuel h. refl, m)
    Story-Replays (wrote_new {w = w} {w' = w'} {w'' = w''} {v = v} {v'' = v''} o i f room e s) r n
          m =
        Emits-Replays w w' w'' r _ v'' (new_Emits laws w r v m o i f (omega arith) e)
          λ r' n' m'. Story-Replays s r' (n' ∙ n) m'
    Story-Replays (wrote_changed {w = w} {w' = w'} {w'' = w''} {v = v} {v'' = v''} o old i k e s) r
          n m =
        Emits-Replays w w' w'' r _ v'' (changed_Emits laws w r v m o old i k e)
          λ r' n' m'. Story-Replays s r' (n' ∙ n) m'
    Story-Replays (wrote_removed {w = w} {w' = w'} {w'' = w''} {v = v} {v'' = v''} o e s) r n m =
        Emits-Replays w w' w'' r _ v'' (removed_Emits laws w r v m o e)
          λ r' n' m'. Story-Replays s r' (n' ∙ n) m'

    -- Whatever a run of the branches for new, changed and removed orders has written for a page,
    -- `read_doc` reads back without error, and the slots of the reader then show the market as it is
    -- after the page. Conditions: the slots showed the market before the page, each branch of the run
    -- has succeeded, the reader has more slots than the run hands out and at most 2 ^ 31, every new
    -- order is in the ranges of its members and not yet in the market, every changed volume is below 2
    -- ^ 32, and the eight bytes of a `double` determine it.
    pub read_doc_replays :
        {slots : ℕ} {w w' : Writer W} {v v' : Market W} (r : Reader W)
        → Story slots w v w' v'
        → length r.active_orders ≡ slots
        → Mirrors w r v
        → (bytes : List ℕ) × (r' : Reader W) × (w'.written ≡ w.written ++ bytes)
          × (read_doc r bytes ≡ ok r')
          × Mirrors w' r' v'
    unfolding read_doc
    read_doc_replays r s n m =
        let (bytes, r', e, replay, m') = Story-Replays s r n m in
        (bytes, r', e, replay (length bytes) (omega arith), m')
