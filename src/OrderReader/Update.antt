-- ===== src/OrderReader/Update.antt =====
-- `OrderHandler3` of apps/order_reader.cpp: the thread of `main` reads the pages, makes a handler of each
-- order and posts it to the thread of the database (`DatabaseConnection::withConnection` of
-- libs/QueryRunner/QueryRunner.cpp), which runs what was posted in that order. Each handler releases the
-- semaphore, and `updateOrders` waits until it has been released as often as there are handlers. The
-- orders that the pages hold, of which a handler can be made, are given; where reading stops is left
-- open: at an error, a signal, or the last page.
pub mod Counted
pub mod Sequential
use eve_industry_planner.Prelude.{
  ℕ, zero, suc, ◌+◌, ◌<◌, ◌≤◌, ◌≡◌, Bool, true, false, List, [], ◌∷◌, ◌++◌, length, Result, ok,
  throw,
}
use eve_industry_planner.OrderReader.Tables.{Tables, SingleOrderHandler, run}

-- in the loop over the pages; in `semaphore.waitFor`; behind it
pub data Phase : Type 0 where
  reading waiting returned : Phase

-- `count` is that of the semaphore.
pub record State {ℓ} (W : Type ℓ) : Type ℓ where
  pub unread : List (SingleOrderHandler W)
  pub handlers : List (SingleOrderHandler W)
  pub queue : List (SingleOrderHandler W)
  pub count : ℕ
  pub tables : Tables W
  pub phase : Phase

-- `singleOrderHandlers.reserve(1000000)`: past that `emplace_back` moves the handlers, to which the queue
-- has references.
abbrev pub reserved : ℕ
reserved = 1000000

module _ {ℓ} {W : Type ℓ} where
  unfoldable pub add_handler :
      SingleOrderHandler W → List (SingleOrderHandler W) → State W → State W
  add_handler h rest s = record s {
    unread = rest;
    handlers = s.handlers ++ (h ∷ []);
    queue = s.queue ++ (h ∷ []);
  }

  -- `q.run(db)`, or `q.onSqlError(e)`, and in both `finalize`
  unfoldable pub run_handler :
      (ℕ → Bool) → ℕ → SingleOrderHandler W → List (SingleOrderHandler W) → State W → State W
  run_handler fails now h rest s = record s {
    queue = rest;
    count = s.count + 1;
    tables = (run fails now h s.tables).1;
  }

  pub data Step (s : State W) : State W → Type ℓ where
    post :
        (h : SingleOrderHandler W) (rest : List (SingleOrderHandler W))
        → s.phase ≡ reading
        → s.unread ≡ h ∷ rest
        → length s.handlers < reserved
        → Step s (add_handler h rest s)
    -- past the room that was reserved the behaviour is undefined: anything can happen
    overflow :
        (h : SingleOrderHandler W) (rest : List (SingleOrderHandler W)) (t : State W)
        → s.phase ≡ reading
        → s.unread ≡ h ∷ rest
        → reserved ≤ length s.handlers
        → Step s t
    stop : s.phase ≡ reading → Step s (record s { phase = waiting })
    run_next :
        (h : SingleOrderHandler W) (rest : List (SingleOrderHandler W)) (fails : ℕ → Bool) (now : ℕ)
        → s.queue ≡ h ∷ rest
        → Step s (run_handler fails now h rest s)
    pass : s.phase ≡ waiting → s.count ≡ length s.handlers → Step s (record s { phase = returned })

  abbrev pub new_state : List (SingleOrderHandler W) → Tables W → State W
  new_state orders t = record {
    unread = orders;
    handlers = [];
    queue = [];
    count = 0;
    tables = t;
    phase = reading;
  }

  pub data Reach (orders : List (SingleOrderHandler W)) (t : Tables W) : State W → Type ℓ where
    start : Reach orders t (new_state orders t)
    later : {s u : State W} → Reach orders t s → Step s u → Reach orders t u
