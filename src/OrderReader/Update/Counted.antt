-- ===== src/OrderReader/Update/Counted.antt =====
-- `updateOrders` of apps/order_reader.cpp waits for all its handlers, and returns.
use mathlib.Core.List.{append_assoc}
use eve_industry_planner.Prelude.{
  ◌++◌, sym, ◌∙◌, ℕ, suc, ◌+◌, ◌<◌, ◌≤◌, ◌≡◌, ◌≢◌, refl, ap, ◌⊎◌, inl, inr, false, List, [], ◌∷◌,
  length, length-append, arith,
}
use eve_industry_planner.OrderReader.Tables.{Tables, SingleOrderHandler}
use eve_industry_planner.OrderReader.Update.{
  Phase, reading, waiting, returned, State, add_handler, run_handler, Step, reserved, post,
  overflow, stop, run_next, pass, Reach, start, later,
}

-- what is left to do when the pages have been read
abbrev pub left_of : Phase → ℕ
left_of returned = 0
left_of _ = 1

left_of_le : (p : Phase) → left_of p ≤ 1
left_of_le reading = omega arith
left_of_le waiting = omega arith
left_of_le returned = omega arith

module _ {ℓ} {W : Type ℓ} where
  pub record IsCounted (orders : List (SingleOrderHandler W)) (s : State W) : Type ℓ where
    pub read : s.handlers ++ s.unread ≡ orders
    pub counted : s.count + length s.queue ≡ length s.handlers
    pub all_run : s.phase ≡ returned → length s.queue ≡ 0

  -- There is room for the next handler if there is room for all orders.
  pub has_room :
      {orders : List (SingleOrderHandler W)} (s : State W) (h : SingleOrderHandler W)
      (rest : List (SingleOrderHandler W))
      → length orders ≤ reserved
      → s.handlers ++ s.unread ≡ orders
      → s.unread ≡ h ∷ rest
      → length s.handlers < reserved
  has_room s h rest b r e =
      omega (arith, b, ap length r, ap length e, length-append s.handlers s.unread)

  Step-IsCounted :
      {orders : List (SingleOrderHandler W)} {s t : State W}
      → length orders ≤ reserved
      → Step s t
      → IsCounted orders s
      → IsCounted orders t
  unfolding add_handler run_handler
  Step-IsCounted {s = s} b (post h rest p e lt) v = record {
    read = append_assoc s.handlers (h ∷ []) rest ∙ ap (λ l. s.handlers ++ l) (sym e) ∙ v.read;
    counted =
        omega (arith, v.counted, length-append s.handlers (h ∷ []), length-append s.queue (h ∷ []));
    all_run = λ e. absurd (ground arith);
  }
  Step-IsCounted {s = s} b (overflow h rest t p e le) v =
      absurd (omega (arith, le, has_room s h rest b v.read e))
  Step-IsCounted b (stop p) v = record {
    read = v.read;
    counted = v.counted;
    all_run = λ e. absurd (ground arith);
  }
  Step-IsCounted b (run_next h rest fails now e) v = record {
    read = v.read;
    counted = omega (arith, v.counted, ap length e);
    all_run = λ q. absurd (omega (arith, v.all_run q, ap length e));
  }
  Step-IsCounted b (pass p e) v = record {
    read = v.read;
    counted = v.counted;
    all_run = λ q. omega (arith, v.counted);
  }

  pub Reach-IsCounted :
      {orders : List (SingleOrderHandler W)} {t : Tables W} {s : State W}
      → length orders ≤ reserved
      → Reach orders t s
      → IsCounted orders s
  Reach-IsCounted b start = record { read = refl; counted = refl; all_run = λ e. refl }
  Reach-IsCounted b (later r st) = Step-IsCounted b st (Reach-IsCounted b r)

  abbrev pub left : State W → ℕ
  left s = length s.queue + left_of s.phase

  -- a run of steps, with their number
  pub data Steps (s : State W) : ℕ → State W → Type ℓ where
    no_step : Steps s 0 s
    more : {t u : State W} {n : ℕ} → Steps s n t → Step t u → Steps s (suc n) u

  Step-left :
      {s t : State W} → Step s t → s.phase ≢ reading → (left t < left s) × (t.phase ≢ reading)
  unfolding run_handler
  Step-left (post h rest p e lt) r = absurd (r p)
  Step-left (overflow h rest t p e le) r = absurd (r p)
  Step-left (stop p) r = absurd (r p)
  Step-left (run_next h rest fails now e) r = (omega (arith, ap length e), r)
  Step-left {s = s} (pass p e) r = (rw p (omega arith), λ q. absurd (ground arith))

  Steps-left :
      {s t : State W} {n : ℕ}
      → Steps s n t
      → s.phase ≢ reading
      → (n + left t ≤ left s) × (t.phase ≢ reading)
  Steps-left no_step r = (omega arith, r)
  Steps-left (more ss st) r =
      let (le, q) = Steps-left ss r in let (lt, u) = Step-left st q in (omega (arith, le, lt), u)

  Steps-IsCounted :
      {orders : List (SingleOrderHandler W)} {s t : State W} {n : ℕ}
      → length orders ≤ reserved
      → Steps s n t
      → IsCounted orders s
      → IsCounted orders t
  Steps-IsCounted b no_step v = v
  Steps-IsCounted b (more ss st) v = Step-IsCounted b st (Steps-IsCounted b ss v)

  -- A state past reading has a step, unless it has returned with nothing left.
  moves :
      {orders : List (SingleOrderHandler W)} (p : Phase) (q : List (SingleOrderHandler W))
      (s : State W)
      → s.phase ≡ p
      → s.queue ≡ q
      → IsCounted orders s
      → p ≢ reading
      → ((w : State W) × Step s w) ⊎ ((p ≡ returned) × (length q ≡ 0))
  moves reading q s e1 e2 v r = absurd (r refl)
  moves p (h ∷ rest) s e1 e2 v r = inl (_, run_next h rest (λ k. false) 0 e2)
  moves waiting [] s e1 e2 v r = inl (_, pass e1 (omega (arith, v.counted, ap length e2)))
  moves returned [] s e1 e2 v r = inr (refl, refl)

  -- When the pages have been read, `updateOrders` returns: from a state that is reached there are at
  -- most as many steps as handlers in the queue and one more, and a state from which there is no step
  -- has returned, with an empty queue and as many releases as handlers. Condition: the pages have no
  -- more than 1,000,000 orders, for which there is room.
  pub update_orders_returns :
      {orders : List (SingleOrderHandler W)} {t : Tables W} {s u : State W} {n : ℕ}
      → length orders ≤ reserved
      → Reach orders t s
      → s.phase ≢ reading
      → Steps s n u
      → (n ≤ length s.queue + 1)
        × (((w : State W) × Step u w)
            ⊎ ((u.phase ≡ returned) × (length u.queue ≡ 0) × (u.count ≡ length u.handlers)))
  update_orders_returns {s = s} {u = u} b r q ss =
      let v = Steps-IsCounted b ss (Reach-IsCounted b r) in
      (
        omega (arith, left_of_le s.phase, (Steps-left ss q).0),
        elim (moves u.phase u.queue u refl refl v (Steps-left ss q).1) [
          | inl m ↦ inl m
          | inr e ↦ inr (e.0, e.1, omega (arith, v.counted, e.1))
        ],
      )
