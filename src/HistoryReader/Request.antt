-- ===== src/HistoryReader/Request.antt =====
-- `HistoryRequest` of apps/history_reader.cpp: the thread of a handler reads the items of a response,
-- posts a query for each to the thread of the database, waits for them, posts the query that dates the
-- type, waits for it, and releases the semaphore of `HistoryHandler`. The steps are those of the two
-- threads for one request; the queries of other requests, which share the connection, are left out.
pub mod Kept
pub mod Returns
use eve_industry_planner.Prelude.{
  ℕ, zero, suc, ◌+◌, ◌≡◌, Bool, true, false, Option, none, some, List, [], ◌∷◌, ◌++◌, length,
  Result, ok, throw,
}
use eve_industry_planner.HistoryReader.Queries.{
  HistoryQuery, Database, Statements, run_query, run_update,
}

-- what was posted to the connection
pub data Posted {ℓ} (W : Type ℓ) : Type ℓ where
  history_query : HistoryQuery W → Posted W
  update_query : Posted W

-- In the loop over the items, with those that are left; in the first `waitFor`; in the second; behind
-- `finalize`. An item is `none` if the constructor of its query throws.
pub data Phase {ℓ} (W : Type ℓ) : Type ℓ where
  reading : List (Option (HistoryQuery W)) → Phase W
  waiting : Phase W
  updating : Phase W
  finished : Phase W

-- `lock` and `released` are the counts of the semaphores of the request and of its parent.
pub record State {ℓ κ} (W : Type ℓ) (S : Type κ) : Type (ℓ ⊔ κ) where
  pub queries : List (HistoryQuery W)
  pub queue : List (Posted W)
  pub lock : ℕ
  pub released : ℕ
  pub phase : Phase W
  pub database : Database W S

-- `items`, which is empty after an exception
unfoldable pub items_of {ℓ} :
    {W : Type ℓ} → Result (List (Option (HistoryQuery W))) → List (Option (HistoryQuery W))
items_of (ok items) = items
items_of (throw e) = []

-- the number that the destructor acquires
unfoldable pub acquired {ℓ} : {W : Type ℓ} → List (HistoryQuery W) → ℕ
acquired [] = 0
acquired (q ∷ qs) = length (q ∷ qs) + 1

module _ {ℓ κ} {W : Type ℓ} {S : Type κ} where
  unfoldable pub post_query :
      HistoryQuery W → List (Option (HistoryQuery W)) → State W S → State W S
  post_query q items s = record s {
    queries = s.queries ++ (q ∷ []);
    queue = s.queue ++ (history_query q ∷ []);
    phase = reading items;
  }

  unfoldable pub post_update : State W S → State W S
  post_update s = record s { queue = s.queue ++ (update_query ∷ []); phase = updating }

  unfoldable pub finalize : State W S → State W S
  finalize s = record s { released = s.released + 1; phase = finished }

  -- `lock.release()` after a query that ran or threw
  unfoldable pub ran : List (Posted W) → Database W S → State W S → State W S
  ran rest db s = record s { queue = rest; lock = s.lock + 1; database = db }

  abbrev pub handle_response : Result (List (Option (HistoryQuery W))) → Database W S → State W S
  handle_response parsed db = record {
    queries = [];
    queue = [];
    lock = 0;
    released = 0;
    phase = reading (items_of parsed);
    database = db;
  }

  module _ (statements : Statements W S) (type : ℕ) where
    pub data Step (s : State W S) : State W S → Type (ℓ ⊔ κ) where
      skip :
          (items : List (Option (HistoryQuery W)))
          → s.phase ≡ reading (none ∷ items)
          → Step s (record s { phase = reading items })
      post :
          (q : HistoryQuery W) (items : List (Option (HistoryQuery W)))
          → s.phase ≡ reading (some q ∷ items)
          → Step s (post_query q items s)
      wait : s.phase ≡ reading [] → Step s (record s { phase = waiting })
      update : s.phase ≡ waiting → s.lock ≡ length s.queries → Step s (post_update s)
      finish : s.phase ≡ updating → s.lock ≡ length s.queries + 1 → Step s (finalize s)
      run_history :
          (q : HistoryQuery W) (rest : List (Posted W))
          → s.queue ≡ history_query q ∷ rest
          → Step s (ran rest (run_query statements q s.database) s)
      run_last :
          (rest : List (Posted W)) (now : ℕ)
          → s.queue ≡ update_query ∷ rest
          → Step s (ran rest (run_update statements type now s.database) s)

    pub data Reach (first : State W S) : State W S → Type (ℓ ⊔ κ) where
      start : Reach first first
      later : {s t : State W S} → Reach first s → Step s t → Reach first t
