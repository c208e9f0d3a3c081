-- ===== src/OrderReader/Prices/Released.antt =====
-- Every transaction of `OrderHandler` of apps/order_reader.cpp releases the semaphore once.
use eve_industry_planner.Prelude.{
  ℕ, suc, ◌+◌, ◌≡◌, ◌≤◌, Bool-cases, refl, subst, inl, inr, Bool, true, false, List, [], ◌∷◌,
  length, length-append, arith, Result, ok, some, ◌>>=◌, >>=-eq-ok, Result-cases,
}
use eve_industry_planner.Text.{Text}
use eve_industry_planner.Double.{Double}
use eve_industry_planner.Requests.Http.{
  Request, Response, Message, Call, Session, handle_response, on_http_error, post_request,
}
use eve_industry_planner.Requests.Http.Calls.{posted-IsCalled, IsCalled}
use eve_industry_planner.OrderReader.Prices.{
  Side, Limits, Offer, Query, OrderHandler, price_in_station, finalize, price_response, answer,
  answers, run_query,
}
use eve_industry_planner.OrderReader.Prices.Compared.{IsCompared}
use eve_industry_planner.OrderReader.Prices.Best.{price_in_station-number}

module _ {ℓ} {W : Type ℓ} ⦃d : Double W⦄ (limits : Limits W) (laws : IsCompared W limits) where
  -- the releases, and those that the queue will make
  abbrev pub promised : OrderHandler W → ℕ
  promised s = s.count + length s.queue

  -- The queue, run to its end: which statements fail, and when they run.
  unfoldable pub run_queue : (ℕ → Bool) → (ℕ → ℕ) → List (Query W) → OrderHandler W → OrderHandler W
  run_queue fails now [] s = s
  run_queue fails now (q ∷ rest) s =
      run_queue fails now rest (run_query limits (fails (length rest)) (now (length rest)) q rest s)

  pub run_query_count :
      (fails : Bool) (now : ℕ) (q : Query W) (rest : List (Query W)) (s : OrderHandler W)
      → ((run_query limits fails now q rest s).count ≡ s.count + 1)
        × ((run_query limits fails now q rest s).queue ≡ rest)
  unfolding run_query finalize
  run_query_count true now q rest s = (refl, refl)
  run_query_count false now q rest s = (refl, refl)

  run_queue_count :
      (fails : ℕ → Bool) (now : ℕ → ℕ) (qs : List (Query W)) (s : OrderHandler W)
      → s.queue ≡ qs
      → ((run_queue fails now qs s).count ≡ s.count + length qs)
        × ((run_queue fails now qs s).queue ≡ [])
  unfolding run_queue
  run_queue_count fails now [] s e = (omega arith, e)
  run_queue_count fails now (q ∷ rest) s e =
      let (c, r) = run_query_count (fails (length rest)) (now (length rest)) q rest s in
      let (c', r') =
        run_queue_count fails now rest
          (run_query limits (fails (length rest)) (now (length rest)) q rest s) r in
      (omega (arith, c, c'), r')

  module _ (parse : Response → Result (List (Offer W))) (side : Side) (type : ℕ) where
    price_response-promises :
        (r : Response) (s : OrderHandler W)
        → promised (price_response limits parse side type r s) ≡ suc (promised s)
    unfolding price_response finalize
    price_response-promises r s = elim (Result-cases (parse r >>= price_in_station side 60003760)) [
      | inr (e, q) ↦ rw (q, laws.nan, price_response) (omega arith)
      | inl (x, q) ↦
          let (vs, p, h) = >>=-eq-ok (parse r) (price_in_station side 60003760) q in
          rw (q, price_in_station-number limits laws side 60003760 vs h, price_response)
            (omega
              (arith, length-append s.queue (record { side = side; type = type; price = x } ∷ [])))
    ]

    answer-promises :
        (c : Call) (s : OrderHandler W)
        → promised (answer limits parse side type c s) ≡ suc (promised s)
    unfolding answer finalize
    answer-promises (handle_response r) s = price_response-promises r s
    answer-promises (on_http_error e) s = omega arith

    -- The semaphore is only released.
    price_response-count :
        (r : Response) (s : OrderHandler W)
        → s.count ≤ (price_response limits parse side type r s).count
    unfolding price_response finalize
    price_response-count r s = elim (Result-cases (parse r >>= price_in_station side 60003760)) [
      | inr (e, q) ↦ rw (q, laws.nan, price_response) (omega arith)
      | inl (x, q) ↦ elim (Bool-cases (limits.is_nan x)) [
        | inl n ↦ rw (q, n, price_response) (omega arith)
        | inr n ↦ rw (q, n, price_response) (omega arith)
      ]
    ]

    pub answers-count :
        (calls : List Call) (s : OrderHandler W)
        → s.count ≤ (answers limits parse side type calls s).count
    unfolding answers answer finalize
    answers-count [] s = omega arith
    answers-count (handle_response r ∷ calls) s = omega (
      arith,
      price_response-count r s,
      answers-count calls (price_response limits parse side type r s),
    )
    answers-count (on_http_error e ∷ calls) s =
        omega (arith, answers-count calls (finalize limits s))

    module _ {κ} {S : Type κ}
        (exchange : S → Message → Result (Response × List (Text × Text)) × S) where
      -- `handleResponse` throws nothing, since it catches what it meets, so there is one call.
      one_call :
          {calls : List Call} (s : OrderHandler W)
          → IsCalled exchange (λ r. ok tt) [] calls
          → promised (answers limits parse side type calls s) ≡ suc (promised s)
      unfolding answers
      one_call s (inl (r, g, k, q)) = rw q (answer-promises (handle_response r) s)
      one_call s (inr (inl (r, e, g, k, q))) = absurd (cc k)
      one_call s (inr (inr (e, q))) = rw q (answer-promises (on_http_error e) s)

      -- A transaction that is answered is owed one release more.
      pub answered_promises :
          (fuel : ℕ) (request : Request) (session session' : Session S) (s : OrderHandler W)
          → session.calls ≡ []
          → post_request exchange fuel (λ r. ok tt) request [] session ≡ some session'
          → promised (answers limits parse side type session'.calls s) ≡ suc (promised s)
      answered_promises fuel request session session' s e h = one_call s (
          subst (λ before. IsCalled exchange (λ r. ok tt) before session'.calls) e
            (posted-IsCalled exchange (λ r. ok tt) fuel request [] session h))

      -- When a transaction has been answered and the queue has run, the semaphore has been released once
      -- for it and once for each query that was in the queue.
      pub transaction_releases :
          (fuel : ℕ) (request : Request) (session session' : Session S) (s : OrderHandler W)
          (fails : ℕ → Bool) (now : ℕ → ℕ)
          → session.calls ≡ []
          → post_request exchange fuel (λ r. ok tt) request [] session ≡ some session'
          → let after = answers limits parse side type session'.calls s in
            (run_queue fails now after.queue after).count ≡ s.count + length s.queue + 1
      transaction_releases fuel request session session' s fails now e h =
          let after = answers limits parse side type session'.calls s in
          omega (
            arith,
            answered_promises fuel request session session' s e h,
            run_queue_count fails now after.queue after refl,
          )
