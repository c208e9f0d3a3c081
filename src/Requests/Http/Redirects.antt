-- ===== src/Requests/Http/Redirects.antt =====
-- How long `handleRequest` of libs/HTTPSRequestHandler/HTTPSRequestHandler.cpp follows redirects.
use eve_industry_planner.Prelude.{
  ℕ, zero, suc, ◌<◌, ◌≡◌, ◌≢◌, refl, ap, ◌∙◌, true, some, List, [], arith, Result, ok, throw,
  no_fuel, Bool-cases, Option-cases, Result-cases, inl, inr,
}
use eve_industry_planner.Text.{Text}
use eve_industry_planner.Requests.Http.{
  Request, get, follow, dont_follow, OnRedirect, Response, Message, Session, M, is_success,
  is_redirect, has_location, message_of, if_follow, handle_request_no_redirect, handle_redirect,
  handle_request, deliver,
}

module _ {ℓ} {S : Type ℓ}
    (exchange : S → Message → Result (Response × List (Text × Text)) × S) where
  -- Every redirect that the server answers with brings it nearer to an end, and it throws what it may.
  pub record Leads (measure : S → ℕ) : Type ℓ where
    pub falls :
        (s : S) (m : Message) (r : Response) (cookies : List (Text × Text))
        → (exchange s m).0 ≡ ok (r, cookies)
        → is_redirect r ≡ true
        → measure (exchange s m).1 < measure s
    pub throws : (s : S) (m : Message) → (exchange s m).0 ≢ throw no_fuel

  module _ (handler : Response → Result (Unit {0})) (h : (r : Response) → handler r ≢ throw no_fuel)
      (measure : S → ℕ) (l : Leads measure) where
    deliver_ends : (r : Response) (s : Session S) → (deliver exchange handler r s).0 ≢ throw no_fuel
    unfolding deliver
    deliver_ends r s e = elim (Bool-cases (is_success r)) [
      | inl q ↦ h r (ground arith)
      | inr q ↦ absurd (ground arith)
    ]

    -- A request after which the response, if it is a redirect, has fuel left.
    request_ends :
        (fuel : ℕ) (f : Response → M S)
        → ((r : Response) (s : Session S)
            → (is_redirect r ≡ true → measure s.server < fuel)
            → (f r s).0 ≢ throw no_fuel)
        → (request : Request) (data_ : Text) (s : Session S) → measure s.server < suc fuel
        → (handle_request_no_redirect exchange request data_ f s).0 ≢ throw no_fuel
    unfolding handle_request_no_redirect
    request_ends fuel f g request data_ s m =
        let message = message_of request data_ s.cookies in
        elim (Result-cases (exchange s.server message).0) [
          | inr (e, q) ↦
              rw (q, handle_request_no_redirect)
                (λ k. let y : e ≡ no_fuel = cc in l.throws s.server message (q ∙ ap throw y))
          | inl (x, q) ↦
              rw (q, handle_request_no_redirect)
                (g x.0 _ (λ k. omega (arith, l.falls s.server message x.0 x.1 q k)))
        ]

    redirect_ends :
        (fuel : ℕ) (r : Response) (s : Session S)
        → (is_redirect r ≡ true → measure s.server < fuel)
        → (handle_redirect exchange (suc fuel) (deliver exchange handler) r s).0 ≢ throw no_fuel
    unfolding handle_redirect
    redirect_ends zero r s m = elim (Bool-cases (is_redirect r)) [
      | inr e ↦ rw (e, handle_redirect) (deliver_ends r s)
      | inl e ↦ absurd (omega (arith, m e))
    ]
    redirect_ends (suc fuel) r s m = elim (Bool-cases (is_redirect r)) [
      | inr e ↦ rw (e, handle_redirect) (deliver_ends r s)
      | inl e ↦ elim (Option-cases (has_location r)) [
        | inl n ↦ rw (e, n, handle_redirect) (λ k. absurd (ground arith))
        | inr (location, n) ↦
            rw (e, n, handle_redirect)
              (request_ends fuel (handle_redirect exchange (suc fuel) (deliver exchange handler))
                (redirect_ends fuel)
                (record { method = get; location = location; follow_redirects = follow }) [] s
                (m e))
      ]
    ]

    -- A request ends without running out of fuel if there is more fuel than the measure of the server,
    -- where the server brings its measure down at every redirect that it answers with and neither it
    -- nor the handler throws that error itself.
    pub handle_request_ends :
        (request : Request) (data_ : Text) (s : Session S) (fuel : ℕ)
        → measure s.server < suc fuel
        → (handle_request exchange (suc fuel) request data_ (deliver exchange handler) s).0
          ≢ throw no_fuel
    unfolding handle_request
    handle_request_ends request data_ s fuel m =
        request_ends fuel _ (chosen request.follow_redirects) request data_ s m
      where
        chosen :
            (o : OnRedirect) (r : Response) (x : Session S)
            → (is_redirect r ≡ true → measure x.server < fuel)
            → (if_follow o
                (handle_redirect exchange (suc fuel) (deliver exchange handler))
                (deliver exchange handler)
                r
                x).0
              ≢ throw no_fuel
        chosen follow r x k = redirect_ends fuel r x k
        chosen dont_follow r x k = deliver_ends r x

  -- A server that answers every request with a redirect.
  abbrev pub Redirects : Type ℓ
  Redirects =
      (s : S) (m : Message)
      → (r : Response) × (cookies : List (Text × Text)) × (location : Text) × ((exchange s m).0
          ≡ ok (r, cookies))
        × (is_redirect r ≡ true)
        × (has_location r ≡ some location)

  module _ (all : Redirects) (f : Response → M S) where
    no_response :
        (fuel : ℕ) (r : Response) (location : Text) (s : Session S)
        → is_redirect r ≡ true
        → has_location r ≡ some location
        → (handle_redirect exchange fuel f r s).0 ≡ throw no_fuel
    unfolding handle_redirect handle_request_no_redirect
    no_response zero r location s e n = refl
    no_response (suc fuel) r location s e n =
        let (r', cookies, location', q, e', n') = all s.server (
          message_of (record { method = get; location = location; follow_redirects = follow }) []
            s.cookies) in
        rw (e, n, handle_redirect)
          (rw (q, handle_request_no_redirect) (no_response fuel r' location' _ e' n'))

    -- With a server that answers everything with a redirect to some location, a request that follows
    -- redirects runs out of every amount of fuel: nothing in the source ends it.
    pub redirects_forever :
        (fuel : ℕ) (request : Request) (data_ : Text) (s : Session S)
        → request.follow_redirects ≡ follow
        → (handle_request exchange fuel request data_ f s).0 ≡ throw no_fuel
    unfolding handle_request handle_request_no_redirect
    redirects_forever fuel request data_ s o =
        let (r, cookies, location, q, e, n) = all s.server (message_of request data_ s.cookies) in
        rw (o, handle_request)
          (rw (q, handle_request_no_redirect) (no_response fuel r location _ e n))
