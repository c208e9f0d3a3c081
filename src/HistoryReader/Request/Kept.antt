-- ===== src/HistoryReader/Request/Kept.antt =====
-- The order in which `HistoryRequest` of apps/history_reader.cpp writes.
use mathlib.Core.List.{append_assoc, append-nil}
use eve_industry_planner.Prelude.{
  ℕ, ◌+◌, ◌≡◌, refl, sym, ap, subst, ◌∙◌, ◌⊎◌, inl, inr, Option, none, some, List, [], ◌∷◌, ◌++◌,
  length, length-append, arith, Result,
}
use eve_industry_planner.HistoryReader.Queries.{
  HistoryQuery, Database, Statements, run_query, run_update, run_queries,
}
use eve_industry_planner.HistoryReader.Request.{
  Posted, history_query, update_query, Phase, reading, waiting, updating, finished, State, items_of,
  post_query, post_update, finalize, ran, handle_response, Step, skip, post, wait, update, finish,
  run_history, run_last, Reach, start, later,
}

module _ {ℓ} {W : Type ℓ} where
  -- the queries that the items make
  abbrev pub queries_of : List (Option (HistoryQuery W)) → List (HistoryQuery W)
  queries_of [] = []
  queries_of (none ∷ items) = queries_of items
  queries_of (some q ∷ items) = q ∷ queries_of items

  -- the items that are left
  abbrev pub items_left : Phase W → List (Option (HistoryQuery W))
  items_left (reading items) = items
  items_left _ = []

  abbrev pub posted : List (HistoryQuery W) → List (Posted W)
  posted [] = []
  posted (q ∷ qs) = history_query q ∷ posted qs

  posted-append :
      (qs : List (HistoryQuery W)) (q : HistoryQuery W)
      → posted qs ++ (history_query q ∷ []) ≡ posted (qs ++ (q ∷ []))
  posted-append [] q = refl
  posted-append (x ∷ qs) q = ap (λ l. history_query x ∷ l) (posted-append qs q)

  abbrev pub IsEarly : Phase W → Type 0
  IsEarly (reading items) = Unit
  IsEarly waiting = Unit
  IsEarly updating = ⊥
  IsEarly finished = ⊥

module _ {ℓ κ} {W : Type ℓ} {S : Type κ} (statements : Statements W S) (type : ℕ) where
  run_queries-append :
      (qs : List (HistoryQuery W)) (q : HistoryQuery W) (db : Database W S)
      → run_queries statements (qs ++ (q ∷ [])) db
        ≡ run_query statements q (run_queries statements qs db)
  unfolding run_queries
  run_queries-append [] q db = refl
  run_queries-append (x ∷ qs) q db = run_queries-append qs q (run_query statements x db)

  -- Before the query that dates the type is posted, while it is in the queue, and after it has run.
  pub data Kept (db : Database W S) (s : State W S) : Type (ℓ ⊔ κ) where
    early :
        (done left : List (HistoryQuery W))
        → IsEarly s.phase
        → s.queries ≡ done ++ left
        → s.queue ≡ posted left
        → s.lock ≡ length done
        → s.database ≡ run_queries statements done db
        → s.released ≡ 0
        → Kept db s
    asked :
        s.phase ≡ updating
        → s.queue ≡ update_query ∷ []
        → s.lock ≡ length s.queries
        → s.database ≡ run_queries statements s.queries db
        → s.released ≡ 0
        → Kept db s
    dated :
        (now : ℕ)
        → ((s.phase ≡ updating) × (s.released ≡ 0)) ⊎ ((s.phase ≡ finished) × (s.released ≡ 1))
        → s.queue ≡ []
        → s.lock ≡ length s.queries + 1
        → s.database ≡ run_update statements type now (run_queries statements s.queries db)
        → Kept db s

  not_early :
      {p : Phase W} {n : ℕ}
      → IsEarly p
      → ((p ≡ updating) × (n ≡ 0)) ⊎ ((p ≡ finished) × (n ≡ 1))
      → ⊥
  not_early e (inl (q, r)) = subst IsEarly q e
  not_early e (inr (q, r)) = subst IsEarly q e

  -- What is in front of the queue, when the queries that are left are in it.
  front :
      (q x : HistoryQuery W) (rest : List (Posted W)) (left : List (HistoryQuery W))
      {queue : List (Posted W)}
      → queue ≡ history_query q ∷ rest
      → queue ≡ posted (x ∷ left)
      → (q ≡ x) × (rest ≡ posted left)
  front q x rest left h e =
      let j : history_query q ∷ rest ≡ history_query x ∷ posted left = sym h ∙ e in (cc j, cc j)

  Step-Kept :
      {db : Database W S} {s t : State W S} → Step statements type s t → Kept db s → Kept db t
  unfolding post_query post_update finalize ran
  Step-Kept (skip items p) (early done left e qs qu l d r) = early done left tt qs qu l d r
  Step-Kept (skip items p) (asked p' qu l d r) = absurd (cc (p, p'))
  Step-Kept (skip items p) (dated now e qu l d) = absurd (not_early (subst IsEarly (sym p) tt) e)
  Step-Kept (post q items p) (early done left e qs qu l d r) =
      early done (left ++ (q ∷ [])) tt
        (ap (λ x. x ++ (q ∷ [])) qs ∙ append_assoc done left (q ∷ []))
        (ap (λ x. x ++ (history_query q ∷ [])) qu ∙ posted-append left q) l d r
  Step-Kept (post q items p) (asked p' qu l d r) = absurd (cc (p, p'))
  Step-Kept (post q items p) (dated now e qu l d) = absurd (not_early (subst IsEarly (sym p) tt) e)
  Step-Kept (wait p) (early done left e qs qu l d r) = early done left tt qs qu l d r
  Step-Kept (wait p) (asked p' qu l d r) = absurd (cc (p, p'))
  Step-Kept (wait p) (dated now e qu l d) = absurd (not_early (subst IsEarly (sym p) tt) e)
  Step-Kept {db = db} (update p w) (early done [] e qs qu l d r) =
      asked refl (ap (λ x. x ++ (update_query ∷ [])) qu) w
        (d ∙ ap (λ x. run_queries statements x db) (sym (qs ∙ append-nil done))) r
  Step-Kept (update p w) (early done (q ∷ left) e qs qu l d r) =
      absurd (omega (arith, w, ap length qs, length-append done (q ∷ left), l))
  Step-Kept (update p w) (asked p' qu l d r) = absurd (cc (p, p'))
  Step-Kept (update p w) (dated now e qu l d) = absurd (not_early (subst IsEarly (sym p) tt) e)
  Step-Kept (finish p w) (early done left e qs qu l d r) = absurd (subst IsEarly p e)
  Step-Kept (finish p w) (asked p' qu l d r) = absurd (omega (arith, w, l))
  Step-Kept (finish p w) (dated now (inl e) qu l d) =
      dated now (inr (refl, ap (λ n. n + 1) e.1)) qu l d
  Step-Kept (finish p w) (dated now (inr e) qu l d) = absurd (cc (p, e.0))
  Step-Kept (run_history q rest h) (early done [] e qs qu l d r) = absurd (cc (h, qu))
  Step-Kept {db = db} {s = s} (run_history q rest h) (early done (x ∷ left) e qs qu l d r) =
      early (done ++ (x ∷ [])) left e (qs ∙ sym (append_assoc done (x ∷ []) left))
        (front q x rest left h qu).1 (omega (arith, l, length-append done (x ∷ [])))
        (ap (λ y. run_query statements y s.database) (front q x rest left h qu).0
          ∙ ap (run_query statements x) d
          ∙ sym (run_queries-append done x db))
        r
  Step-Kept (run_history q rest h) (asked p' qu l d r) = absurd (cc (h, qu))
  Step-Kept (run_history q rest h) (dated now e qu l d) = absurd (cc (h, qu))
  Step-Kept (run_last rest now h) (early done [] e qs qu l d r) = absurd (cc (h, qu))
  Step-Kept (run_last rest now h) (early done (x ∷ left) e qs qu l d r) = absurd (cc (h, qu))
  Step-Kept (run_last rest now h) (asked p' qu l d r) =
      dated now (inl (p', r)) (let j : update_query ∷ rest ≡ update_query ∷ [] = sym h ∙ qu in cc j)
        (ap (λ n. n + 1) l) (ap (run_update statements type now) d)
  Step-Kept (run_last rest now h) (dated now' e qu l d) = absurd (cc (h, qu))

  pub Reach-Kept :
      (parsed : Result (List (Option (HistoryQuery W)))) {db : Database W S} {s : State W S}
      → Reach statements type (handle_response parsed db) s
      → Kept db s
  unfolding run_queries
  Reach-Kept parsed start = early [] [] tt refl refl refl refl refl
  Reach-Kept parsed (later r st) = Step-Kept st (Reach-Kept parsed r)

  -- The queries that were posted and those of the items that are left are the queries of the items.
  Step-queries :
      {s t : State W S}
      → Step statements type s t
      → t.queries ++ queries_of (items_left t.phase) ≡ s.queries ++ queries_of (items_left s.phase)
  unfolding post_query post_update finalize ran
  Step-queries {s = s} (skip items p) = ap (λ x. s.queries ++ queries_of (items_left x)) (sym p)
  Step-queries {s = s} (post q items p) =
      append_assoc s.queries (q ∷ []) (queries_of items)
      ∙ ap (λ x. s.queries ++ queries_of (items_left x)) (sym p)
  Step-queries {s = s} (wait p) = ap (λ x. s.queries ++ queries_of (items_left x)) (sym p)
  Step-queries {s = s} (update p w) = ap (λ x. s.queries ++ queries_of (items_left x)) (sym p)
  Step-queries {s = s} (finish p w) = ap (λ x. s.queries ++ queries_of (items_left x)) (sym p)
  Step-queries (run_history q rest h) = refl
  Step-queries (run_last rest now h) = refl

  Reach-queries :
      (parsed : Result (List (Option (HistoryQuery W)))) {db : Database W S} {s : State W S}
      → Reach statements type (handle_response parsed db) s
      → s.queries ++ queries_of (items_left s.phase) ≡ queries_of (items_of parsed)
  Reach-queries parsed start = refl
  Reach-queries parsed (later r st) = Step-queries st ∙ Reach-queries parsed r

  -- What a request has done: its queries ran one after the other, then the one that dates the type, and
  -- the semaphore of the parent was released once.
  pub record IsWritten (items : List (Option (HistoryQuery W))) (db : Database W S) (s : State W S)
      : Type (ℓ ⊔ κ) where
    pub now : ℕ
    pub database :
        s.database ≡ run_update statements type now (run_queries statements (queries_of items) db)
    pub queries : s.queries ≡ queries_of items
    pub queue : s.queue ≡ []
    pub lock : s.lock ≡ length s.queries + 1
    pub released : s.released ≡ 1

  finished-IsWritten :
      (items : List (Option (HistoryQuery W))) {db : Database W S} {s : State W S}
      → s.phase ≡ finished
      → s.queries ≡ queries_of items
      → Kept db s
      → IsWritten items db s
  finished-IsWritten items f all (early done left e qs qu l d r) = absurd (subst IsEarly f e)
  finished-IsWritten items f all (asked p qu l d r) = absurd (cc (f, p))
  finished-IsWritten items f all (dated now (inl e) qu l d) = absurd (cc (f, e.0))
  finished-IsWritten items {db} f all (dated now (inr e) qu l d) = record {
    now = now;
    database = d ∙ ap (λ x. run_update statements type now (run_queries statements x db)) all;
    queries = all;
    queue = qu;
    lock = l;
    released = e.1;
  }

  -- However the two threads take turns, a request of `HistoryHandler` that has finished has made a
  -- query of each item that could be read, the database is what these queries leave when they run one
  -- after the other and then the query that dates the type, nothing is left in the queue, the lock has
  -- been released once for each query, and the semaphore of the parent once. The queries of other
  -- requests are left out.
  pub handle_response-IsWritten :
      (parsed : Result (List (Option (HistoryQuery W)))) {db : Database W S} {s : State W S}
      → Reach statements type (handle_response parsed db) s
      → s.phase ≡ finished
      → IsWritten (items_of parsed) db s
  handle_response-IsWritten parsed {s = s} r f =
      let all : s.queries ≡ queries_of (items_of parsed) =
        sym (append-nil s.queries)
        ∙ ap (λ x. s.queries ++ queries_of (items_left x)) (sym f)
        ∙ Reach-queries parsed r in
      finished-IsWritten (items_of parsed) f all (Reach-Kept parsed r)
