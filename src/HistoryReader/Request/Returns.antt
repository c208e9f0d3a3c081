-- ===== src/HistoryReader/Request/Returns.antt =====
-- A request of apps/history_reader.cpp comes to its end.
use mathlib.Core.List.{append-nil}
use eve_industry_planner.Prelude.{
  ℕ, suc, ◌+◌, ◌*◌, ◌<◌, ◌≤◌, ◌≡◌, refl, subst, ap, ◌∙◌, ◌⊎◌, inl, inr, Option, none, some, List,
  [], ◌∷◌, length, length-append, arith, Result,
}
use eve_industry_planner.HistoryReader.Queries.{HistoryQuery, Database, Statements}
use eve_industry_planner.HistoryReader.Request.{
  Phase, reading, waiting, updating, finished, State, items_of, acquired, post_query, post_update,
  finalize, ran, handle_response, Step, skip, post, wait, update, finish, run_history, run_last,
  Reach, start, later,
}
use eve_industry_planner.HistoryReader.Request.Kept.{
  Kept, early, asked, dated, Reach-Kept, posted, IsEarly, handle_response-IsWritten,
}

-- what is left to do
abbrev pub left_of {ℓ} : {W : Type ℓ} → Phase W → ℕ
left_of (reading items) = 2 * length items + 4
left_of waiting = 3
left_of updating = 1
left_of finished = 0

module _ {ℓ κ} {W : Type ℓ} {S : Type κ} where
  abbrev pub left : State W S → ℕ
  left s = left_of s.phase + length s.queue

  module _ (statements : Statements W S) (type : ℕ) where
    Step-left : {s t : State W S} → Step statements type s t → left t < left s
    unfolding post_query post_update finalize ran
    Step-left {s = s} (skip items p) = rw p (omega arith)
    Step-left {s = s} (post q items p) = rw p (omega (arith, length-append s.queue (_ ∷ [])))
    Step-left {s = s} (wait p) = rw p (omega arith)
    Step-left {s = s} (update p w) = rw p (omega (arith, length-append s.queue (_ ∷ [])))
    Step-left {s = s} (finish p w) = rw p (omega arith)
    Step-left (run_history q rest h) = omega (arith, ap length h)
    Step-left (run_last rest now h) = omega (arith, ap length h)

    -- steps, with their number
    pub data Steps (s : State W S) : ℕ → State W S → Type (ℓ ⊔ κ) where
      no_step : Steps s 0 s
      more : {t u : State W S} {n : ℕ} → Steps s n t → Step statements type t u → Steps s (suc n) u

    Steps-left : {s t : State W S} {n : ℕ} → Steps s n t → n + left t ≤ left s
    Steps-left no_step = omega arith
    Steps-left (more ss st) = omega (arith, Steps-left ss, Step-left st)

    Steps-Reach : {first s : State W S} {n : ℕ} → Steps first n s → Reach statements type first s
    Steps-Reach no_step = start
    Steps-Reach (more ss st) = later (Steps-Reach ss) st

    -- A request that has not finished has a step.
    moves :
        {db : Database W S} (p : Phase W) (s : State W S)
        → s.phase ≡ p
        → Kept statements type db s
        → ((t : State W S) × Step statements type s t) ⊎ (s.phase ≡ finished)
    moves p s e (early done (q ∷ left) f qs qu l d r) = inl (_, run_history q (posted left) qu)
    moves (reading []) s e (early done [] f qs qu l d r) = inl (_, wait e)
    moves (reading (none ∷ items)) s e (early done [] f qs qu l d r) = inl (_, skip items e)
    moves (reading (some q ∷ items)) s e (early done [] f qs qu l d r) = inl (_, post q items e)
    moves waiting s e (early done [] f qs qu l d r) =
        inl (_, update e (omega (arith, l, ap length (qs ∙ append-nil done))))
    moves updating s e (early done [] f qs qu l d r) = absurd (subst IsEarly e f)
    moves finished s e (early done [] f qs qu l d r) = absurd (subst IsEarly e f)
    moves p s e (asked f qu l d r) = inl (_, run_last [] 0 qu)
    moves p s e (dated now (inl f) qu l d) = inl (_, finish f.0 l)
    moves p s e (dated now (inr f) qu l d) = inr f.0

    acquired_le : (qs : List (HistoryQuery W)) → acquired qs ≤ length qs + 1
    unfolding acquired
    acquired_le [] = omega arith
    acquired_le (q ∷ qs) = omega arith

    -- A request of `HistoryHandler` comes to an end: from its start there are at most twice as many
    -- steps as items, and four more; a state from which there is no step has finished, with one
    -- release of the semaphore of the parent, and its lock has what the destructor acquires.
    pub handle_response-returns :
        (parsed : Result (List (Option (HistoryQuery W)))) (db : Database W S) {s : State W S}
        {n : ℕ}
        → Steps (handle_response parsed db) n s
        → (n ≤ 2 * length (items_of parsed) + 4)
          × (((t : State W S) × Step statements type s t)
              ⊎ ((s.phase ≡ finished) × (s.released ≡ 1) × (acquired s.queries ≤ s.lock)))
    handle_response-returns parsed db {s} ss =
        let r = Steps-Reach ss in
        (
          omega (arith, Steps-left ss),
          elim (moves s.phase s refl (Reach-Kept statements type parsed r)) [
            | inl m ↦ inl m
            | inr f ↦
                let w = handle_response-IsWritten statements type parsed r f in
                inr (f, w.released, omega (arith, w.lock, acquired_le s.queries))
          ],
        )
