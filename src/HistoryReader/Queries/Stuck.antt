-- ===== src/HistoryReader/Queries/Stuck.antt =====
-- What a statement that is not reset does to the queries of apps/history_reader.cpp behind it.
use eve_industry_planner.Prelude.{◌≡◌, refl, ◌∙◌, Bool, true, false, List, [], ◌∷◌}
use eve_industry_planner.HistoryReader.Queries.{
  HistoryQuery, Database, Statements, run_query, run_queries,
}

module _ {ℓ κ} {W : Type ℓ} {S : Type κ} (statements : Statements W S) where
  -- A statement that has been stepped and not reset cannot be bound, as SQLite documents it.
  pub record IsBlocked (busy : S → Bool) : Type (ℓ ⊔ κ) where
    pub blocked :
        (q : HistoryQuery W) (s : S)
        → busy s ≡ true
        → ((statements.exec_insert q s).0 ≡ false) × (busy (statements.exec_insert q s).1 ≡ true)

  module _ (busy : S → Bool) (laws : IsBlocked busy) where
    run_query_stuck :
        (q : HistoryQuery W) (db : Database W S)
        → busy db.insert_stmt ≡ true
        → ((run_query statements q db).history ≡ db.history)
          × (busy (run_query statements q db).insert_stmt ≡ true)
    unfolding run_query
    run_query_stuck q db h =
        let (e, b) = laws.blocked q db.insert_stmt h in rw (e, run_query) (refl, b)

    run_queries_busy :
        (qs : List (HistoryQuery W)) (db : Database W S)
        → busy db.insert_stmt ≡ true
        → (run_queries statements qs db).history ≡ db.history
    unfolding run_queries
    run_queries_busy [] db h = refl
    run_queries_busy (q ∷ qs) db h =
        let (e, b) = run_query_stuck q db h in run_queries_busy qs (run_query statements q db) b ∙ e

    run_query_failed :
        (q : HistoryQuery W) (db : Database W S)
        → (statements.exec_insert q db.insert_stmt).0 ≡ false
        → run_query statements q db
          ≡ record db { insert_stmt = (statements.exec_insert q db.insert_stmt).1 }
    unfolding run_query
    run_query_failed q db e = rw (e, run_query) refl

    -- After a query that throws and leaves the statement stepped, no query that runs behind it writes
    -- a row: the history stays as it was. Condition: a statement that was stepped and not reset
    -- refuses to be bound and stays so, as SQLite documents it.
    pub run_queries_stuck :
        (q : HistoryQuery W) (qs : List (HistoryQuery W)) (db : Database W S)
        → (statements.exec_insert q db.insert_stmt).0 ≡ false
        → busy (statements.exec_insert q db.insert_stmt).1 ≡ true
        → (run_queries statements (q ∷ qs) db).history ≡ db.history
    unfolding run_queries
    run_queries_stuck q qs db e b =
        rw (run_query_failed q db e, run_queries)
          (run_queries_busy qs
            (record db { insert_stmt = (statements.exec_insert q db.insert_stmt).1 }) b)
