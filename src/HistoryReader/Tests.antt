-- ===== src/HistoryReader/Tests.antt =====
-- The theorems about apps/history_reader.cpp, at concrete items and statements.
use eve_industry_planner.Prelude.{
  ℕ, ◌+◌, ◌*◌, ◌≤◌, ◌≡◌, refl, ◌⊎◌, Bool, true, false, ◌||◌, not, ◌==◌, Option, none, some, List,
  [], ◌∷◌, length, Result, ok,
}
use eve_industry_planner.HistoryReader.Queries.{
  HistoryQuery, Database, Statements, run_update, run_queries,
}
use eve_industry_planner.HistoryReader.Queries.Stuck.{run_queries_stuck}
use eve_industry_planner.HistoryReader.Request.{
  reading, finished, State, items_of, acquired, post_query, post_update, finalize, ran,
  handle_response, Step, skip, post, wait, update, finish, run_last, Reach, start, later,
}
use eve_industry_planner.HistoryReader.Request.Kept.{IsWritten, handle_response-IsWritten}
use eve_industry_planner.HistoryReader.Request.Returns.{
  Steps, no_step, more, handle_response-returns,
}

abbrev day : HistoryQuery ℕ
day = record {
  type = 34;
  then_time = 1480550400;
  order_count = 2267;
  low = 490;
  high = 520;
  avg = 505;
  volume = 5000000;
}

abbrev no_trade : HistoryQuery ℕ
no_trade = record day { volume = 0 }

-- The state of a statement is whether it was stepped and not reset; a row without a volume is refused.
abbrev statements : Statements ℕ Bool
statements = record {
  exec_insert = λ q s. (not (s || q.volume == 0), true);
  exec_update = λ t s. (not s, true);
  reset = λ s. false;
}

abbrev empty_database : Database ℕ Bool
empty_database = record {
  history = [];
  last_history_update = [];
  insert_stmt = false;
  update_stmt = false;
}

refuses :
    (q : HistoryQuery ℕ) (s : Bool)
    → s ≡ true
    → ((statements.exec_insert q s).0 ≡ false) × ((statements.exec_insert q s).1 ≡ true)
refuses q true h = (refl, refl)
refuses q false h = absurd (cc h)

run_queries_stuck_example :
    (run_queries statements (no_trade ∷ day ∷ []) empty_database).history ≡ []
run_queries_stuck_example =
    run_queries_stuck statements (λ s. s) (record { blocked = refuses }) no_trade (day ∷ [])
      empty_database refl refl

abbrev parsed : Result (List (Option (HistoryQuery ℕ)))
parsed = ok (none ∷ some day ∷ [])

abbrev first : State ℕ Bool
first = handle_response parsed empty_database

abbrev read : State ℕ Bool
read = post_query day [] (record first { phase = reading (some day ∷ []) })

one_read : Steps statements 34 first 2 read
unfolding items_of
one_read = more (more no_step (skip (some day ∷ []) refl)) (post day [] refl)

handle_response-returns_example :
    (2 ≤ 2 * length (items_of parsed) + 4)
    × (((t : State ℕ Bool) × Step statements 34 read t)
        ⊎ ((read.phase ≡ finished) × (read.released ≡ 1) × (acquired read.queries ≤ read.lock)))
handle_response-returns_example =
    handle_response-returns statements 34 parsed empty_database one_read

-- The steps to the end of a request without items.
abbrev nothing : State ℕ Bool
nothing = handle_response (ok []) empty_database

abbrev at_end : State ℕ Bool
at_end = finalize (ran [] (run_update statements 34 5 empty_database) (post_update nothing))

nothing_reached : Reach statements 34 nothing at_end
unfolding items_of post_update ran finalize
nothing_reached =
    later (later (later (later start (wait refl)) (update refl refl)) (run_last [] 5 refl))
      (finish refl refl)

at_end_finished : at_end.phase ≡ finished
unfolding finalize
at_end_finished = refl

handle_response-IsWritten_example : IsWritten statements 34 (items_of (ok [])) empty_database at_end
handle_response-IsWritten_example =
    handle_response-IsWritten statements 34 (ok []) nothing_reached at_end_finished
