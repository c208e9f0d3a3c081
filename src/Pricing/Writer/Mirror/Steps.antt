-- ===== src/Pricing/Writer/Mirror/Steps.antt =====
-- What `extract2` of apps/pricing/json_writer.cpp writes, the reader of json_reader.cpp undoes: the
-- three branches of its loop keep the reader's slots and the writer's index in step with the market.
use eve_industry_planner.Prelude.{
  ℕ, suc, ◌+◌, ◌^◌, ◌≤◌, ◌<◌, ◌≡◌, refl, subst, none, some, List, [], ◌∷◌, ◌++◌, arith, length,
  length-append, length-set, get_elem?, set, lookup, emplace, erase, ok, Option-cases, inl, inr,
  get_elem?_in_range,
}
use eve_industry_planner.Double.{Double, IsBitwise}
use eve_industry_planner.Pricing.Order.{Order, Diff, IsOrder, apply_diff}
use eve_industry_planner.Pricing.Codec.Bytes.{le_bytes}
use eve_industry_planner.Pricing.Codec.{write_order, write_diff}
use eve_industry_planner.Pricing.Reader.{Reader, read_step, modify, modify-some, modify-none}
use eve_industry_planner.Pricing.Reader.Records.{read_step-order, read_step-diff}
use eve_industry_planner.Pricing.Writer.{Writer, new_index, write_new, write_changed, write_removed}
use eve_industry_planner.Pricing.Writer.Mirror.{Market, put, drop_id, IsStored, Unused, IsFree}
use eve_industry_planner.Pricing.Writer.Mirror.Slots.{
  put-IsStored, change-IsStored, remove-IsStored,
}
use eve_industry_planner.Pricing.Writer.Mirror.Free.{
  next_Unused, next-IsFree, reuse-IsFree, remove-IsFree,
}

modify-eq-ok {ℓ} :
    {A : Type ℓ} (xs : List A) (i : ℕ) (f : A → A) {ys : List A}
    → modify xs i f ≡ ok ys
    → (x : A) × (get_elem? xs i ≡ some x) × (ys ≡ set xs i (f x))
modify-eq-ok xs i f h = elim (Option-cases (get_elem? xs i)) [
  | inl e ↦ absurd (ground (arith, modify-none xs i f e))
  | inr (x, e) ↦ (x, e, ground (arith, modify-some xs i f e))
]

module _ {ℓ} {W : Type ℓ} where
  -- The writer, the reader and the market agree; there are fewer than 2 ^ 31 slots, and the reader has
  -- one more than the writer has handed out.
  pub record Mirrors (w : Writer W) (r : Reader W) (v : Market W) : Type ℓ where
    pub stored : IsStored w.index r.active_orders v
    pub free : IsFree w.index w.free_list (length w.active_orders2)
    pub room : length w.active_orders2 < length r.active_orders
    pub small : length r.active_orders ≤ 2 ^ 31

module _ {ℓ} {W : Type ℓ} ⦃d : Double W⦄ where
  -- The bytes that lead from `w` to `w'`, and what the reader makes of them, whatever follows.
  abbrev pub Emits : Writer W → Writer W → Reader W → Market W → Type ℓ
  Emits w w' r v' =
      (bytes : List ℕ) × (r' : Reader W) × (w'.written ≡ w.written ++ bytes)
      × ((rest : List ℕ) → read_step r (bytes ++ rest) ≡ ok (r', rest))
      × Mirrors w' r' v'

  abbrev new_state : Writer W → Order W → ℕ → List (Order W) → List ℕ → Writer W
  new_state w o slot slots free = record w {
    active_orders2 = slots;
    free_list = free;
    index = emplace o.id slot w.index;
    written = w.written ++ (le_bytes 4 slot ++ write_order o);
  }

  module _ (laws : IsBitwise W) (w : Writer W) (r : Reader W) (v : Market W)
      (m : Mirrors w r v) where
    open m use {stored, free, room, small}

    absent : (id : ℕ) → v id ≡ none → lookup id w.index ≡ none
    absent id e = elim (Option-cases (lookup id w.index)) [
      | inl n ↦ n
      | inr (s, h) ↦ let (o, a, b) = stored.held id s h in absurd (cc a)
    ]

    new-Emits :
        (o : Order W) (slot : ℕ) (slots : List (Order W)) (free' : List ℕ)
        → IsOrder o
        → v o.id ≡ none
        → Unused w.index slot
        → slot < length r.active_orders
        → IsFree (emplace o.id slot w.index) free' (length slots)
        → length slots < length r.active_orders
        → Emits w (new_state w o slot slots free') r (put o.id o v)
    new-Emits o slot slots free' i n unused h f room' = (
      le_bytes 4 slot ++ write_order o,
      record r { active_orders = set r.active_orders slot o },
      refl,
      λ rest. read_step-order laws r slot small o rest h i,
      record {
        stored = put-IsStored stored o.id o slot (absent o.id n) unused h;
        free = f;
        room = omega (arith, length-set r.active_orders slot o);
        small = omega (arith, length-set r.active_orders slot o);
      },
    )

    -- Storing a new order when no slot is free succeeds and writes a record from which the reader gets
    -- a state that shows the market with the order. Conditions: reader and writer agreed on the market
    -- before, the order is in the ranges of its members and not yet in the market, the reader has a
    -- slot to spare, and the eight bytes of a `double` determine it.
    pub new_next :
        (o : Order W)
        → IsOrder o
        → v o.id ≡ none
        → w.free_list ≡ []
        → length w.active_orders2 + 1 < length r.active_orders
        → (w' : Writer W) × (write_new w o ≡ ok w') × Emits w w' r (put o.id o v)
    unfolding write_new new_index
    new_next o i n e h =
        let slots = w.active_orders2 ++ (o ∷ []) in
        let count : length slots ≡ suc (length w.active_orders2) =
          omega (arith, length-append w.active_orders2 (o ∷ [])) in
        let unlisted : IsFree w.index [] (length w.active_orders2) =
          subst (λ l. IsFree w.index l (length w.active_orders2)) e free in
        (
          new_state w o (length slots) slots [],
          ground (arith, absent o.id n),
          new-Emits o (length slots) slots [] i n (rw count (next_Unused free)) (omega arith)
              (rw count (next-IsFree o.id (absent o.id n) unlisted)) (omega arith),
        )

    -- A new order when a slot is free, and is one of those that the writer's own vector has.
    pub new_reuse :
        (o : Order W) (s : ℕ) (rest : List ℕ)
        → IsOrder o
        → v o.id ≡ none
        → w.free_list ≡ s ∷ rest
        → s < length w.active_orders2
        → (w' : Writer W) × (write_new w o ≡ ok w') × Emits w w' r (put o.id o v)
    unfolding write_new new_index
    new_reuse o s rest i n e h =
        let (x, g) = get_elem?_in_range w.active_orders2 s h in
        let slots = set w.active_orders2 s o in
        let count : length slots ≡ length w.active_orders2 = length-set w.active_orders2 s o in
        let listed : IsFree w.index (s ∷ rest) (length w.active_orders2) =
          subst (λ l. IsFree w.index l (length w.active_orders2)) e free in
        (
          new_state w o s slots rest,
          ground (arith, absent o.id n, modify-some w.active_orders2 s (λ _. o) g),
          new-Emits o s slots rest i n listed.free_unused.0 (omega arith)
              (rw count (reuse-IsFree o.id s rest (absent o.id n) listed)) (omega arith),
        )

    -- An order whose price or volume has changed.
    pub changed :
        (o : Order W) (s : ℕ)
        → o.volume < 2 ^ 32
        → lookup o.id w.index ≡ some s
        → s < length w.active_orders2
        → (old : Order W) × (v o.id ≡ some old)
          × (w' : Writer W) × (write_changed w o ≡ ok w')
          × Emits w w' r (put o.id (record old { price = o.price; volume = o.volume }) v)
    unfolding write_changed apply_diff
    changed o s i here h =
        let (x, g) = get_elem?_in_range w.active_orders2 s h in
        let (old, known, held) = stored.held o.id s here in
        let diff : Diff W = record { buy = 2; price = o.price; volume = o.volume } in
        let count = length-set r.active_orders s (apply_diff diff old) in
        (
          old,
          known,
          record w {
            active_orders2 = set w.active_orders2 s o;
            written = w.written ++ (le_bytes 4 s ++ write_diff diff);
          },
          ground (arith, modify-some w.active_orders2 s (λ _. o) g),
          (
            le_bytes 4 s ++ write_diff diff,
            record r { active_orders = set r.active_orders s (apply_diff diff old) },
            refl,
            λ rest. read_step-diff laws r s small diff old rest held refl i,
            record {
              stored = change-IsStored stored o.id s (apply_diff diff old) here (omega arith);
              free = rw (length-set w.active_orders2 s o) free;
              room = omega (arith, count, length-set w.active_orders2 s o);
              small = omega (arith, count);
            },
          ),
        )

    -- An order that is gone.
    pub removed :
        (o : Order W) (s : ℕ)
        → lookup o.id w.index ≡ some s
        → s < length w.active_orders2
        → (w' : Writer W) × (write_removed w o ≡ ok w') × Emits w w' r (drop_id o.id v)
    unfolding write_removed apply_diff
    removed o s here h =
        let (x, g) = get_elem?_in_range w.active_orders2 s h in
        let (old, known, held) = stored.held o.id s here in
        let diff : Diff W = record { buy = 2; price = o.price; volume = 0 } in
        let count = length-set r.active_orders s (apply_diff diff old) in
        let count' = length-set w.active_orders2 s (record x { volume = 0 }) in
        (
          record w {
            active_orders2 = set w.active_orders2 s (record x { volume = 0 });
            free_list = w.free_list ++ (s ∷ []);
            index = erase o.id w.index;
            written = w.written ++ (le_bytes 4 s ++ write_diff diff);
          },
          ground
              (arith, modify-some w.active_orders2 s (λ (y : Order W). record y { volume = 0 }) g),
          (
            le_bytes 4 s ++ write_diff diff,
            record r { active_orders = set r.active_orders s (apply_diff diff old) },
            refl,
            λ rest. read_step-diff laws r s small diff old rest held refl (omega arith),
            record {
              stored = remove-IsStored stored o.id s (apply_diff diff old) here (omega arith) refl;
              free = rw count' (remove-IsFree o.id s w.free_list here stored.apart free);
              room = omega (arith, count, count');
              small = omega (arith, count);
            },
          ),
        )
