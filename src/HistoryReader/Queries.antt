-- ===== src/HistoryReader/Queries.antt =====
-- `HistoryQuery` and `UpdateQuery` of apps/history_reader.cpp, and the tables of create_history.sql that
-- they write. A prepared statement is SQLite's: its state is a type, and what binding, stepping and
-- resetting make of it are arguments. A statement that throws is not reset.
pub mod Stuck
use eve_industry_planner.Prelude.{
  ℕ, Bool, true, false, ◌&&◌, ◌||◌, List, [], ◌∷◌, ◌==◌, if◌then◌else◌, insert,
}

-- A query has the columns of its row in `history`, where the region is always the same one.
pub record HistoryQuery {ℓ} (W : Type ℓ) : Type ℓ where
  pub type : ℕ
  pub then_time : ℕ
  pub order_count : ℕ
  pub low : W
  pub high : W
  pub avg : W
  pub volume : ℕ

pub record Database {ℓ κ} (W : Type ℓ) (S : Type κ) : Type (ℓ ⊔ κ) where
  pub history : List (HistoryQuery W)
  pub last_history_update : List (ℕ × ℕ)
  pub insert_stmt : S
  pub update_stmt : S

-- What is done with a statement: the bindings and the step, which return whether nothing was thrown,
-- and the reset.
pub record Statements {ℓ κ} (W : Type ℓ) (S : Type κ) : Type (ℓ ⊔ κ) where
  pub exec_insert : HistoryQuery W → S → Bool × S
  pub exec_update : ℕ → S → Bool × S
  pub reset : S → S

module _ {ℓ} {W : Type ℓ} where
  -- a row with the same type and date
  unfoldable pub has_row : HistoryQuery W → List (HistoryQuery W) → Bool
  has_row q [] = false
  has_row q (r ∷ rs) = (r.type == q.type && r.then_time == q.then_time) || has_row q rs

  -- `insert or ignore`
  unfoldable pub add_row : HistoryQuery W → List (HistoryQuery W) → List (HistoryQuery W)
  add_row q rows = if has_row q rows then rows else q ∷ rows

  module _ {κ} {S : Type κ} (statements : Statements W S) where
    -- `HistoryQuery::run`, and what an exception leaves
    unfoldable pub run_query : HistoryQuery W → Database W S → Database W S
    run_query q db =
        let (done, stmt) = statements.exec_insert q db.insert_stmt in
        if done
        then record db { history = add_row q db.history; insert_stmt = statements.reset stmt }
        else record db { insert_stmt = stmt }

    -- `UpdateQuery::run` at a time, `insert or replace`
    unfoldable pub run_update : ℕ → ℕ → Database W S → Database W S
    run_update type now db =
        let (done, stmt) = statements.exec_update type db.update_stmt in
        if done
        then record db {
          last_history_update = insert type now db.last_history_update;
          update_stmt = statements.reset stmt;
        }
        else record db { update_stmt = stmt }

    -- queries that run one after the other
    unfoldable pub run_queries : List (HistoryQuery W) → Database W S → Database W S
    run_queries [] db = db
    run_queries (q ∷ qs) db = run_queries qs (run_query q db)
