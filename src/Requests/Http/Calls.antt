-- ===== src/Requests/Http/Calls.antt =====
-- Which calls a request gets that is posted to a handler of
-- libs/HTTPSRequestHandler/HTTPSRequestHandler.cpp.
use mathlib.Core.List.{append_assoc}
use eve_industry_planner.Prelude.{
  ℕ, ◌<◌, ◌≢◌, some, some-injective, sym, zero, suc, ◌≡◌, refl, ◌∙◌, ap, ◌⊎◌, inl, inr, true, List,
  [], ◌∷◌, ◌++◌, arith, Result, ok, throw, Error, runtime_error, logic_error, out_of_range,
  assertion, undefined, no_fuel, Bool-cases, Option-cases, Result-cases,
}
use eve_industry_planner.Text.{Text}
use eve_industry_planner.Requests.Http.Redirects.{Leads, handle_request_ends}
use eve_industry_planner.Requests.Http.{
  Request, follow, dont_follow, Response, Message, Call, handle_response, on_http_error, Session, M,
  is_success, is_redirect, has_location, if_follow, settle, message_of, OnRedirect,
  handle_request_no_redirect, handle_redirect, handle_request, deliver, post_request,
}

module _ {ℓ} {S : Type ℓ} (exchange : S → Message → Result (Response × List (Text × Text)) × S)
    (handler : Response → Result (Unit {0})) where
  -- `handleResponse` has been called, once and with a success, or not at all and something was thrown.
  data Delivered (calls : List Call) (d : Result (Unit {0}) × Session S) : Type ℓ where
    called :
        (r : Response)
        → is_success r ≡ true
        → d.0 ≡ handler r
        → d.1.calls ≡ calls ++ (handle_response r ∷ [])
        → Delivered calls d
    thrown : (e : Error) → d.0 ≡ throw e → d.1.calls ≡ calls → Delivered calls d

  deliver-Delivered :
      (r : Response) (s : Session S) → Delivered s.calls (deliver exchange handler r s)
  unfolding deliver
  deliver-Delivered r s = elim (Bool-cases (is_success r)) [
    | inl e ↦ called r e (ground arith) (ground arith)
    | inr e ↦ thrown runtime_error (ground arith) (ground arith)
  ]

  no_redirect-Delivered :
      (request : Request) (data_ : Text) (f : Response → M S)
      → ((r : Response) (s : Session S) → Delivered s.calls (f r s))
      → (s : Session S) → Delivered s.calls (handle_request_no_redirect exchange request data_ f s)
  unfolding handle_request_no_redirect
  no_redirect-Delivered request data_ f h s =
      let answered = exchange s.server (message_of request data_ s.cookies) in
      elim (Result-cases answered.0) [
        | inr (e, q) ↦ rw (q, handle_request_no_redirect) (thrown e refl refl)
        | inl (x, q) ↦ rw (q, handle_request_no_redirect) (h x.0 _)
      ]

  redirect-Delivered :
      (fuel : ℕ) (f : Response → M S)
      → ((r : Response) (s : Session S) → Delivered s.calls (f r s))
      → (r : Response) (s : Session S) → Delivered s.calls (handle_redirect exchange fuel f r s)
  unfolding handle_redirect
  redirect-Delivered zero f h r s = thrown no_fuel refl refl
  redirect-Delivered (suc fuel) f h r s = elim (Bool-cases (is_redirect r)) [
    | inr e ↦ rw (e, handle_redirect) (h r s)
    | inl e ↦ elim (Option-cases (has_location r)) [
      | inl n ↦ rw (e, n, handle_redirect) (thrown runtime_error refl refl)
      | inr (location, n) ↦
          rw (e, n, handle_redirect)
            (no_redirect-Delivered _ [] (handle_redirect exchange fuel f)
              (redirect-Delivered fuel f h) s)
    ]
  ]

  request-Delivered :
      (fuel : ℕ) (request : Request) (data_ : Text) (s : Session S)
      → Delivered s.calls (handle_request exchange fuel request data_ (deliver exchange handler) s)
  unfolding handle_request
  request-Delivered fuel request data_ s =
      no_redirect-Delivered request data_ _ (chosen request.follow_redirects) s
    where
      chosen :
          (o : OnRedirect) (r : Response) (x : Session S)
          → Delivered x.calls (
              if_follow o
                (handle_redirect exchange fuel (deliver exchange handler))
                (deliver exchange handler)
                r
                x)
      chosen follow = redirect-Delivered fuel _ deliver-Delivered
      chosen dont_follow = deliver-Delivered

  -- The calls of a request: its handler once, with a success; the same, and its error handler with what
  -- the handler threw; or its error handler alone.
  abbrev pub IsCalled : List Call → List Call → Type 0
  IsCalled before after =
      ((r : Response) × (is_success r ≡ true)
        × (handler r ≡ ok tt)
        × (after ≡ before ++ (handle_response r ∷ [])))
      ⊎ ((r : Response) × (e : Error) × (is_success r ≡ true)
          × (handler r ≡ throw e)
          × (after ≡ before ++ (handle_response r ∷ (on_http_error e ∷ []))))
      ⊎ ((e : Error) × (after ≡ before ++ (on_http_error e ∷ [])))

  settle-thrown :
      (e : Error) (s : Session S) {s' : Session S}
      → settle (throw e, s) ≡ some s'
      → s'.calls ≡ s.calls ++ (on_http_error e ∷ [])
  settle-thrown no_fuel s q = absurd (cc q)
  settle-thrown runtime_error s q = sym (ap (λ x. x.calls) (some-injective q))
  settle-thrown logic_error s q = sym (ap (λ x. x.calls) (some-injective q))
  settle-thrown out_of_range s q = sym (ap (λ x. x.calls) (some-injective q))
  settle-thrown assertion s q = sym (ap (λ x. x.calls) (some-injective q))
  settle-thrown undefined s q = sym (ap (λ x. x.calls) (some-injective q))

  settle-ok :
      (x : Unit {0}) (s : Session S) {s' : Session S}
      → settle (ok x, s) ≡ some s'
      → s'.calls ≡ s.calls
  settle-ok x s q = sym (ap (λ y. y.calls) (some-injective q))

  settle-IsCalled :
      (before : List Call) (d : Result (Unit {0}) × Session S) {s' : Session S}
      → Delivered before d
      → settle d ≡ some s'
      → IsCalled before s'.calls
  settle-IsCalled before (m, s) (thrown e q c) h = inr (
      inr (
        e,
        settle-thrown e s (ap (λ x. settle (x, s)) (sym q) ∙ h)
            ∙ ap (λ l. l ++ (on_http_error e ∷ [])) c,
      ))
  settle-IsCalled before (m, s) (called r g q c) h = elim (Result-cases (handler r)) [
    | inl (x, k) ↦ inl (r, g, k, settle-ok x s (ap (λ y. settle (y, s)) (sym (q ∙ k)) ∙ h) ∙ c)
    | inr (e, k) ↦ inr (
        inl (
          r,
          e,
          g,
          k,
          settle-thrown e s (ap (λ y. settle (y, s)) (sym (q ∙ k)) ∙ h)
              ∙ ap (λ l. l ++ (on_http_error e ∷ [])) c
              ∙ append_assoc before _ _,
        ))
  ]

  settles :
      (m : Result (Unit {0})) (s : Session S)
      → m ≢ throw no_fuel
      → (s' : Session S) × (settle (m, s) ≡ some s')
  settles (ok x) s h = (s, refl)
  settles (throw no_fuel) s h = absurd (h refl)
  settles (throw runtime_error) s h = (_, refl)
  settles (throw logic_error) s h = (_, refl)
  settles (throw out_of_range) s h = (_, refl)
  settles (throw assertion) s h = (_, refl)
  settles (throw undefined) s h = (_, refl)

  -- the calls of a request that comes to its end
  pub posted-IsCalled :
      (fuel : ℕ) (request : Request) (data_ : Text) (s : Session S) {s' : Session S}
      → post_request exchange fuel handler request data_ s ≡ some s'
      → IsCalled s.calls s'.calls
  unfolding post_request
  posted-IsCalled fuel request data_ s h =
      settle-IsCalled s.calls _ (request-Delivered fuel request data_ s) h

  -- A request that is posted comes to its end and gets exactly one of these sequences of calls: its
  -- handler, once and with a status of success, which throws nothing; its handler with a status of
  -- success and then its error handler, with what the handler threw; or its error handler once.
  -- Conditions: the server brings a measure down at every redirect that it answers with, the fuel of
  -- the model is more than this measure, and neither the server nor the handler throws the error that
  -- stands for too little fuel.
  pub post_request-IsCalled :
      ((r : Response) → handler r ≢ throw no_fuel)
      → (measure : S → ℕ) → Leads exchange measure
      → (request : Request) (data_ : Text) (s : Session S) (fuel : ℕ) → measure s.server < suc fuel
      → (s' : Session S) × (post_request exchange (suc fuel) handler request data_ s ≡ some s')
        × IsCalled s.calls s'.calls
  unfolding post_request
  post_request-IsCalled h measure l request data_ s fuel m =
      let (s', e) =
        settles (handle_request exchange (suc fuel) request data_ (deliver exchange handler) s).0 _
          (handle_request_ends exchange handler h measure l request data_ s fuel m) in
      (s', e, posted-IsCalled (suc fuel) request data_ s e)
