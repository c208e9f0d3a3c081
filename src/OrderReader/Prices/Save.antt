-- ===== src/OrderReader/Prices/Save.antt =====
-- `OrderHandler::saveOrders` of apps/order_reader.cpp: two transactions of every type are posted, and the
-- semaphore is awaited. The handlers answer the transactions in any order, and the thread of the
-- database runs its queue in between.
use eve_industry_planner.Prelude.{
  ℕ, suc, ◌+◌, ◌*◌, ◌<◌, ◌≤◌, ◌≡◌, refl, ap, ◌∙◌, ◌⊎◌, inl, inr, Bool, true, false, ◌||◌, leb, List,
  [], ◌∷◌, ◌++◌, length, length-append, arith, Result, ok, some,
}
use eve_industry_planner.Text.{Text}
use eve_industry_planner.Double.{Double}
use eve_industry_planner.Requests.Http.{
  Request, Response, Message, Session, get, follow, post_request,
}
use eve_industry_planner.Requests.Http.Redirects.{Leads}
use eve_industry_planner.Requests.Http.Calls.{post_request-IsCalled}
use eve_industry_planner.OrderReader.Prices.{
  Side, buy_orders, sell_orders, Limits, Offer, Query, OrderHandler, answers, run_query,
}
use eve_industry_planner.OrderReader.Prices.Compared.{IsCompared}
use eve_industry_planner.OrderReader.Prices.Released.{
  promised, answered_promises, answers-count, run_query_count,
}

-- A transaction is a side and a type.
abbrev pub Transaction : Type 0
Transaction = Side × ℕ

-- the transactions that the loop posts
unfoldable pub transactions : List ℕ → List Transaction
transactions [] = []
transactions (p ∷ ps) = (buy_orders, p) ∷ (sell_orders, p) ∷ transactions ps

-- The condition of `waitFor`, `total` being twice the number of the types.
unfoldable pub all_done : Bool → List ℕ → ℕ → Bool
all_done sig_caught types count = sig_caught || leb (2 * length types) count

length-transactions : (types : List ℕ) → length (transactions types) ≡ 2 * length types
unfolding transactions
length-transactions [] = refl
length-transactions (p ∷ ps) = omega (arith, length-transactions ps)

pub record Saving {ℓ} (W : Type ℓ) : Type ℓ where
  pub pending : List Transaction
  pub handler : OrderHandler W

module _ {ℓ κ} {W : Type ℓ} {S : Type κ} ⦃d : Double W⦄ (limits : Limits W)
    (exchange : S → Message → Result (Response × List (Text × Text)) × S)
    (parse : Response → Result (List (Offer W))) where
  -- A handler of the group takes a transaction, or the thread of the database a query.
  pub data Step (s : Saving W) : Saving W → Type (ℓ ⊔ κ) where
    respond :
        (before after : List Transaction) (side : Side) (type fuel : ℕ) (request : Request)
        (session session' : Session S)
        → s.pending ≡ before ++ ((side, type) ∷ after)
        → session.calls ≡ []
        → post_request exchange fuel (λ r. ok tt) request [] session ≡ some session'
        → Step s (record {
          pending = before ++ after;
          handler = answers limits parse side type session'.calls s.handler;
        })
    run_next :
        (q : Query W) (rest : List (Query W)) (fails : Bool) (now : ℕ)
        → s.handler.queue ≡ q ∷ rest
        → Step s (record s { handler = run_query limits fails now q rest s.handler })

  abbrev pub save_orders : List ℕ → Saving W
  save_orders types = record {
    pending = transactions types;
    handler = record { count = 0; queue = []; robust_price = [] };
  }

  pub data Steps (s : Saving W) : ℕ → Saving W → Type (ℓ ⊔ κ) where
    no_step : Steps s 0 s
    more : {t u : Saving W} {n : ℕ} → Steps s n t → Step t u → Steps s (suc n) u

  module _ (laws : IsCompared W limits) where
    -- the releases that are still to come, each of a transaction or of a query
    abbrev owed : Saving W → ℕ
    owed s = length s.pending + promised limits laws s.handler

    -- two steps for a transaction, one for a query
    abbrev left : Saving W → ℕ
    left s = 2 * length s.pending + length s.handler.queue

    Step-owed : {s t : Saving W} → Step s t → owed t ≡ owed s
    Step-owed {s} (respond before after side type fuel request session session' p c h) = omega (
      arith,
      ap length p,
      length-append before ((side, type) ∷ after),
      length-append before after,
      answered_promises limits laws parse side type exchange fuel request session session' s.handler
          c h,
    )
    Step-owed {s} (run_next q rest fails now h) =
        let (c, e) = run_query_count limits laws fails now q rest s.handler in
        omega (arith, c, ap length e, ap length h)

    Step-left : {s t : Saving W} → Step s t → left t < left s
    Step-left {s} (respond before after side type fuel request session session' p c h) = omega (
      arith,
      ap length p,
      length-append before ((side, type) ∷ after),
      length-append before after,
      answered_promises limits laws parse side type exchange fuel request session session' s.handler
          c h,
      answers-count limits laws parse side type session'.calls s.handler,
    )
    Step-left {s} (run_next q rest fails now h) =
        let (c, e) = run_query_count limits laws fails now q rest s.handler in
        omega (arith, ap length e, ap length h)

    Steps-owed : {s t : Saving W} {n : ℕ} → Steps s n t → (owed t ≡ owed s) × (n + left t ≤ left s)
    Steps-owed no_step = (refl, omega arith)
    Steps-owed (more ss st) =
        let (e, l) = Steps-owed ss in (Step-owed st ∙ e, omega (arith, l, Step-left st))

    -- Where the server leads every request to its end, there is a step while a transaction or a query
    -- is left.
    moves :
        (measure : S → ℕ)
        → Leads exchange measure
        → (server : S) (ts : List Transaction) (qs : List (Query W)) (s : Saving W) → s.pending ≡ ts
        → s.handler.queue ≡ qs
        → ((t : Saving W) × Step s t) ⊎ ((length ts ≡ 0) × (length qs ≡ 0))
    moves measure leads server ((side, type) ∷ ts) qs s p h =
        let request : Request = record { method = get; location = []; follow_redirects = follow } in
        let session : Session S = record { server = server; cookies = []; sent = []; calls = [] } in
        let (session', e, c) =
          post_request-IsCalled exchange (λ r. ok tt) (λ r q. cc q) measure leads request [] session
            (measure server) (omega arith) in
        inl (_, respond [] ts side type (suc (measure server)) request session session' p refl e)
    moves measure leads server [] (q ∷ qs) s p h = inl (_, run_next q qs false 0 h)
    moves measure leads server [] [] s p h = inr (refl, refl)

    -- `saveOrders` of `OrderHandler` returns, and not too early: in whatever order its transactions
    -- are answered and the queries run, there are at most four steps for each type, a state without a
    -- further step meets the condition that is waited for, and a state that meets it has no
    -- transaction unanswered and no query in the queue. This holds whatever the server answers or
    -- throws, whatever the text of a response is, and whichever statements fail. Conditions: the
    -- server leads every request to its end, in that it brings a measure down at every redirect that
    -- it answers with, comparisons of doubles are as IEEE 754 has them, and no signal is caught.
    pub save_orders_returns :
        (measure : S → ℕ)
        → Leads exchange measure
        → (server : S) (types : List ℕ) {s : Saving W} {n : ℕ} → Steps (save_orders types) n s
        → (n ≤ 4 * length types)
          × (((t : Saving W) × Step s t) ⊎ (all_done false types s.handler.count ≡ true))
          × (all_done false types s.handler.count ≡ true
              → (length s.pending ≡ 0) × (length s.handler.queue ≡ 0))
    unfolding all_done
    save_orders_returns measure leads server types {s} ss =
        let (e, l) = Steps-owed ss in
        let k = length-transactions types in
        (
          omega (arith, l, k),
          elim (moves measure leads server s.pending s.handler.queue s refl refl) [
            | inl m ↦ inl m
            | inr (p, q) ↦ inr (ground (arith, e, k, p, q))
          ],
          λ h.
              let le : 2 * length types ≤ s.handler.count = ground arith in
              (omega (arith, e, k, le), omega (arith, e, k, le)),
        )
