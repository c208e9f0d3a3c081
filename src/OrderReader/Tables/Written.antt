-- ===== src/OrderReader/Tables/Written.antt =====
-- What `OrderHandler3::SingleOrderHandler::run` of apps/order_reader.cpp leaves in the tables.
use eve_industry_planner.Prelude.{
  ℕ, ◌≡◌, refl, Bool, true, false, ◌&&◌, ◌||◌, Option, none, some, List, [], ◌∷◌, ◌==◌,
  if◌then◌else◌, lookup, emplace, contains, contains-add, lookup-insert, arith, Bool-cases, inl,
  inr,
}
use eve_industry_planner.Text.{Text}
use eve_industry_planner.OrderReader.Tables.{
  OrderRow, ViewRow, Tables, SingleOrderHandler, ins_order, ins_buy_order, ins_sell_order,
  ins_order_view, drop_view, run,
}

lookup-emplace_self {ℓ} :
    {V : Type ℓ} (k : ℕ) (v : V) (m : List (ℕ × V)) → (w : V) × (lookup k (emplace k v m) ≡ some w)
unfolding lookup emplace
lookup-emplace_self k v [] = (v, ground arith)
lookup-emplace_self k v ((j, w) ∷ m) = elim (Bool-cases (j == k)) [
  | inl e ↦ (w, ground arith)
  | inr e ↦ let (x, q) = lookup-emplace_self k v m in (x, ground arith)
]

module _ {ℓ} {W : Type ℓ} where
  -- the view of an order at a time
  abbrev pub view_at : ℕ → ℕ → List (ViewRow W) → Option (ViewRow W)
  view_at time id [] = none
  view_at time id (v ∷ vs) =
      if v.view_time == time && v.id == id then some v else view_at time id vs

  view_at-drop_view :
      (time id at j : ℕ) (vs : List (ViewRow W))
      → (time == at && id == j) ≡ false
      → view_at at j (drop_view time id vs) ≡ view_at at j vs
  unfolding drop_view
  view_at-drop_view time id at j [] h = refl
  view_at-drop_view time id at j (v ∷ vs) h = ground (arith, view_at-drop_view time id at j vs)

  abbrev order_row : SingleOrderHandler W → OrderRow
  order_row h = record {
    type = h.type;
    station = h.station;
    volume_entered = h.volume_entered;
    duration = h.duration;
    min_volume = h.min_volume;
    active = 1;
  }

  abbrev view_row : ℕ → SingleOrderHandler W → ViewRow W
  view_row now h = record {
    view_time = now;
    id = h.id;
    price = h.price;
    volume = h.volume;
    start_date = h.start_date;
  }

  -- The order of the handler is in the tables as it is now, and of its side; the other orders and the
  -- other views are as before.
  pub record IsWritten (now : ℕ) (h : SingleOrderHandler W) (before after : Tables W) : Type ℓ where
    pub order :
        (j : ℕ)
        → lookup j after.orders ≡ (if h.id == j then some (order_row h) else lookup j before.orders)
    pub bought : h.buy ≡ true → (r : Text) × (lookup h.id after.buy_orders ≡ some r)
    pub sold : h.buy ≡ false → contains h.id after.sell_orders ≡ true
    pub view :
        (at j : ℕ)
        → view_at at j after.order_views ≡ (
            if now == at && h.id == j
            then some (view_row now h)
            else view_at at j before.order_views)

  views_written :
      (now : ℕ) (h : SingleOrderHandler W) (vs : List (ViewRow W)) (at j : ℕ)
      → view_at at j (view_row now h ∷ drop_view now h.id vs)
        ≡ (if now == at && h.id == j then some (view_row now h) else view_at at j vs)
  views_written now h vs at j = elim (Bool-cases (now == at && h.id == j)) [
    | inl e ↦ rw e refl
    | inr e ↦ rw e (view_at-drop_view now h.id at j vs e)
  ]

  -- the tables after the three statements
  written :
      (now : ℕ) (h : SingleOrderHandler W) (t : Tables W) (side : Bool)
      → h.buy ≡ side
      → IsWritten now h t (
          ins_order_view now h
            (if side then ins_buy_order h (ins_order h t) else ins_sell_order h (ins_order h t)))
  unfolding ins_order ins_buy_order ins_sell_order ins_order_view
  written now h t true e = record {
    order = λ j. lookup-insert h.id j (order_row h) t.orders;
    bought = λ b. lookup-emplace_self h.id h.range t.buy_orders;
    sold = λ b. absurd (ground arith);
    view = views_written now h t.order_views;
  }
  written now h t false e = record {
    order = λ j. lookup-insert h.id j (order_row h) t.orders;
    bought = λ b. absurd (ground arith);
    sold = λ b. ground (arith, contains-add h.id h.id t.sell_orders);
    view = views_written now h t.order_views;
  }

  views_kept_order :
      (h : SingleOrderHandler W) (t : Tables W) → (ins_order h t).order_views ≡ t.order_views
  unfolding ins_order
  views_kept_order h t = refl

  views_kept :
      (h : SingleOrderHandler W) (t : Tables W) (side : Bool)
      → (if side
          then ins_buy_order h (ins_order h t)
          else ins_sell_order h (ins_order h t)).order_views
        ≡ t.order_views
  unfolding ins_order ins_buy_order ins_sell_order
  views_kept h t true = refl
  views_kept h t false = refl

  -- Where no statement fails, a handler of an order ends at step 3, and the order is in its tables: it
  -- has its row among the orders, an entry on its side, and the view of this time, while every other
  -- order and view is as before. Where a statement fails, the handler ends at the step of a statement
  -- that failed, and the views are as before.
  pub run-IsWritten :
      (fails : ℕ → Bool) (now : ℕ) (h : SingleOrderHandler W) (t : Tables W)
      → (((fails 0 || fails 1 || fails 2) ≡ false)
          → ((run fails now h t).0 ≡ 3) × IsWritten now h t (run fails now h t).1)
        × (((fails 0 || fails 1 || fails 2) ≡ true)
            → (fails (run fails now h t).0 ≡ true)
              × ((run fails now h t).1.order_views ≡ t.order_views))
  unfolding run
  run-IsWritten fails now h t = elim (Bool-cases (fails 0)) [
    | inl a ↦ (λ e. absurd (ground arith), λ e. rw (a, run) (a, refl))
    | inr a ↦ elim (Bool-cases (fails 1)) [
      | inl b ↦ (λ e. absurd (ground arith), λ e. rw (a, b, run) (b, views_kept_order h t))
      | inr b ↦ elim (Bool-cases (fails 2)) [
        | inl c ↦ (λ e. absurd (ground arith), λ e. rw (a, b, c, run) (c, views_kept h t h.buy))
        | inr c ↦
            (λ e. rw (a, b, c, run) (refl, written now h t h.buy refl), λ e. absurd (ground arith))
      ]
    ]
  ]
