-- ===== src/OrderReader/Update/Sequential.antt =====
-- What `updateOrders` of apps/order_reader.cpp leaves in the tables, whatever the two threads do first.
use mathlib.Core.List.{append_assoc}
use eve_industry_planner.Prelude.{
  ℕ, ◌<◌, ◌≤◌, ◌≡◌, refl, sym, ap, ◌∙◌, Bool, List, [], ◌∷◌, ◌++◌, length, length-append, arith,
}
use eve_industry_planner.OrderReader.Tables.{Tables, SingleOrderHandler, run}
use eve_industry_planner.OrderReader.Update.Counted.{Reach-IsCounted, has_room}
use eve_industry_planner.OrderReader.Update.{
  State, add_handler, run_handler, Step, reserved, post, overflow, stop, run_next, pass, Reach,
  start, later,
}

-- a handler that ran, which statements failed, and when
pub record Ran {ℓ} (W : Type ℓ) : Type ℓ where
  pub handler : SingleOrderHandler W
  pub fails : ℕ → Bool
  pub now : ℕ

module _ {ℓ} {W : Type ℓ} where
  -- the handlers one after the other, with no other thread
  unfoldable pub run_all : List (Ran W) → Tables W → Tables W
  run_all [] t = t
  run_all (r ∷ rs) t = run_all rs (run r.fails r.now r.handler t).1

  unfoldable pub handlers_of : List (Ran W) → List (SingleOrderHandler W)
  handlers_of [] = []
  handlers_of (r ∷ rs) = r.handler ∷ handlers_of rs

  run_all-append :
      (rs : List (Ran W)) (r : Ran W) (t : Tables W)
      → run_all (rs ++ (r ∷ [])) t ≡ (run r.fails r.now r.handler (run_all rs t)).1
  unfolding run_all
  run_all-append [] r t = refl
  run_all-append (x ∷ rs) r t = run_all-append rs r (run x.fails x.now x.handler t).1

  handlers_of-append :
      (rs : List (Ran W)) (r : Ran W) (q : List (SingleOrderHandler W))
      → handlers_of (rs ++ (r ∷ [])) ++ q ≡ handlers_of rs ++ (r.handler ∷ q)
  unfolding handlers_of
  handlers_of-append [] r q = refl
  handlers_of-append (x ∷ rs) r q = ap (λ l. x.handler ∷ l) (handlers_of-append rs r q)

  pub record IsSequential (t : Tables W) (s : State W) : Type ℓ where
    pub ran : List (Ran W)
    pub handlers : s.handlers ≡ handlers_of ran ++ s.queue
    pub count : s.count ≡ length ran
    pub tables : s.tables ≡ run_all ran t

  Step-IsSequential :
      {t : Tables W} {s u : State W}
      → ((h : SingleOrderHandler W) (rest : List (SingleOrderHandler W))
          → s.unread ≡ h ∷ rest
          → length s.handlers < reserved)
      → Step s u
      → IsSequential t s
      → IsSequential t u
  unfolding add_handler run_handler
  Step-IsSequential {s = s} room (post h rest p e lt) v = record {
    ran = v.ran;
    handlers =
        ap (λ l. l ++ (h ∷ [])) v.handlers ∙ append_assoc (handlers_of v.ran) s.queue (h ∷ []);
    count = v.count;
    tables = v.tables;
  }
  Step-IsSequential room (overflow h rest t p e le) v = absurd (omega (arith, le, room h rest e))
  Step-IsSequential room (stop p) v = record {
    ran = v.ran;
    handlers = v.handlers;
    count = v.count;
    tables = v.tables;
  }
  Step-IsSequential room (run_next h rest fails now e) v =
      let r : Ran W = record { handler = h; fails = fails; now = now } in
      record {
        ran = v.ran ++ (r ∷ []);
        handlers =
            v.handlers ∙ ap (λ q. handlers_of v.ran ++ q) e ∙ sym (handlers_of-append v.ran r rest);
        count = omega (arith, v.count, length-append v.ran (r ∷ []));
        tables = ap (λ w. (run fails now h w).1) v.tables ∙ sym (run_all-append v.ran r _);
      }
  Step-IsSequential room (pass p e) v = record {
    ran = v.ran;
    handlers = v.handlers;
    count = v.count;
    tables = v.tables;
  }

  Reach-IsSequential :
      {orders : List (SingleOrderHandler W)} {t : Tables W} {s : State W}
      → length orders ≤ reserved
      → Reach orders t s
      → IsSequential t s
  unfolding run_all handlers_of
  Reach-IsSequential b start = record { ran = []; handlers = refl; count = refl; tables = refl }
  Reach-IsSequential b (later {s = s} r st) =
      Step-IsSequential (λ h rest e. has_room s h rest b (Reach-IsCounted b r).read e) st
        (Reach-IsSequential b r)

  -- However the two threads take turns, a state that `updateOrders` reaches has run a first part of
  -- the handlers, in the order in which they were posted: the handlers posted and the orders that are
  -- not yet read are together the orders of the pages, the handlers are those that have run and those
  -- in the queue, the semaphore has been released once for each that has run, and the tables are what
  -- they leave when they run one after the other on the tables of the start, each with the statements
  -- that failed and the time at which it ran. Condition: the pages have no more than 1,000,000 orders,
  -- for which there is room.
  pub update_orders-IsSequential :
      {orders : List (SingleOrderHandler W)} {t : Tables W} {s : State W}
      → length orders ≤ reserved
      → Reach orders t s
      → (s.handlers ++ s.unread ≡ orders) × IsSequential t s
  update_orders-IsSequential b r = ((Reach-IsCounted b r).read, Reach-IsSequential b r)
