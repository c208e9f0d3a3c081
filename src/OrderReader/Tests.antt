-- ===== src/OrderReader/Tests.antt =====
-- The theorems about `OrderHandler3` of apps/order_reader.cpp, at concrete orders and steps.
use eve_industry_planner.Prelude.{
  ◌∷◌, ◌++◌, ℕ, ◌+◌, ◌≤◌, ◌≡◌, refl, ◌⊎◌, Bool, true, false, ◌||◌, [], length, arith,
}
use eve_industry_planner.Text.{codes}
use eve_industry_planner.OrderReader.Tables.{Tables, SingleOrderHandler, run}
use eve_industry_planner.OrderReader.Tables.Written.{IsWritten, run-IsWritten}
use eve_industry_planner.OrderReader.Update.{
  State, waiting, returned, add_handler, run_handler, Step, post, stop, run_next, Reach, start,
  later, new_state,
}
use eve_industry_planner.OrderReader.Update.Counted.{Steps, no_step, more, update_orders_returns}
use eve_industry_planner.OrderReader.Update.Sequential.{IsSequential, update_orders-IsSequential}

abbrev tritanium : SingleOrderHandler ℕ
tritanium = record {
  id = 4681236211;
  type = 34;
  station = 60003760;
  volume_entered = 500;
  start_date = 1480550713;
  duration = 90;
  range = codes "region";
  price = 512;
  volume = 300;
  min_volume = 1;
  buy = true;
}

abbrev empty_tables : Tables ℕ
empty_tables = record { orders = []; buy_orders = []; sell_orders = []; order_views = [] }

abbrev never : ℕ → Bool
never k = false

run-IsWritten_example :
    ((never 0 || never 1 || never 2) ≡ false
      → ((run never 5 tritanium empty_tables).0 ≡ 3)
        × IsWritten 5 tritanium empty_tables (run never 5 tritanium empty_tables).1)
    × ((never 0 || never 1 || never 2) ≡ true
        → (never (run never 5 tritanium empty_tables).0 ≡ true)
          × ((run never 5 tritanium empty_tables).1.order_views ≡ empty_tables.order_views))
run-IsWritten_example = run-IsWritten never 5 tritanium empty_tables

-- One order has been posted, and reading has stopped.
abbrev posted : State ℕ
posted = record (add_handler tritanium [] (new_state (tritanium ∷ []) empty_tables)) {
  phase = waiting;
}

posted_reached : Reach (tritanium ∷ []) empty_tables posted
unfolding add_handler
posted_reached = later (later start (post tritanium [] refl refl (omega arith))) (stop refl)

abbrev ran : State ℕ
ran = run_handler never 5 tritanium [] posted

one_step : Steps posted 1 ran
unfolding add_handler run_handler
one_step = more no_step (run_next tritanium [] never 5 refl)

update_orders_returns_example :
    (1 ≤ length posted.queue + 1)
    × (((w : State ℕ) × Step ran w)
        ⊎ ((ran.phase ≡ returned) × (length ran.queue ≡ 0) × (ran.count ≡ length ran.handlers)))
update_orders_returns_example =
    update_orders_returns (omega arith) posted_reached (λ e. absurd (cc e)) one_step

update_orders-IsSequential_example :
    ((posted.handlers ++ posted.unread) ≡ (tritanium ∷ [])) × IsSequential empty_tables posted
update_orders-IsSequential_example = update_orders-IsSequential (omega arith) posted_reached
