-- ===== src/Requests/Http.antt =====
-- libs/HTTPSRequestHandler/HTTPSRequestHandler.cpp: requests with cookies and redirects. The server is a
-- parameter, a function that answers a message and may throw; what is kept in the course of an exception
-- is kept here too, so a computation always returns the session.
pub mod Calls
pub mod Redirects
use eve_industry_planner.Prelude.{
  ℕ, zero, suc, ◌≡◌, Bool, true, false, ◌&&◌, ◌||◌, ltb, leb, ◌==◌, if◌then◌else◌, Option, none,
  some, List, [], ◌∷◌, ◌++◌, Result, ok, throw, Error, runtime_error, no_fuel, lookup_by, insert_by,
}
use eve_industry_planner.Text.{Text, codes, text_eq}

pub data Method : Type 0 where
  get post : Method

pub data OnRedirect : Type 0 where
  follow dont_follow : OnRedirect

pub record Request : Type 0 where
  pub method : Method
  pub location : Text
  pub follow_redirects : OnRedirect

-- The header is the list of its entries; the map that the source makes of it keeps the first of a name.
pub record Response : Type 0 where
  pub status : ℕ
  pub reason : Text
  pub header : List (Text × Text)
  pub body : Text

-- What is sent: of the data nothing if they are empty, and no cookies if there are none.
pub record Message : Type 0 where
  pub method : Method
  pub location : Text
  pub content : Text
  pub cookies : List (Text × Text)

-- The calls that a posted request gets.
pub data Call : Type 0 where
  handle_response : Response → Call
  on_http_error : Error → Call

pub record Session {ℓ} (S : Type ℓ) : Type ℓ where
  pub server : S
  pub cookies : List (Text × Text)
  pub sent : List Message
  pub calls : List Call

-- A computation that may throw and keeps the session all the same.
abbrev pub M {ℓ} : Type ℓ → Type ℓ
M S = Session S → Result (Unit {0}) × Session S

abbrev pub set_cookies : List (Text × Text) → List (Text × Text) → List (Text × Text)
set_cookies [] cookies = cookies
set_cookies ((name, value) ∷ more) cookies = set_cookies more (insert_by text_eq name value cookies)

abbrev pub has_location : Response → Option Text
has_location r = lookup_by text_eq (codes "Location") r.header

-- `response.getStatus() >= HTTP_OK && response.getStatus() < HTTP_MULTIPLE_CHOICES`
abbrev pub is_success : Response → Bool
is_success r = leb 200 r.status && ltb r.status 300

abbrev pub is_redirect : Response → Bool
is_redirect r = r.status == 302 || r.status == 301

abbrev pub message_of : Request → Text → List (Text × Text) → Message
message_of request data_ cookies = record {
  method = request.method;
  location = request.location;
  content = data_;
  cookies = cookies;
}

abbrev pub if_follow {ℓ} :
    {S : Type ℓ} → OnRedirect → (Response → M S) → (Response → M S) → Response → M S
if_follow follow f g = f
if_follow dont_follow f g = g

-- `catch (const std::exception& e)` of the posted task. `no_fuel` is no exception: the task is still
-- busy with redirects, and there is no session yet.
abbrev pub settle {ℓ} : {S : Type ℓ} → Result (Unit {0}) × Session S → Option (Session S)
settle (ok x, session) = some session
settle (throw no_fuel, session) = none
settle (throw e, session) =
    some (record session { calls = session.calls ++ (on_http_error e ∷ []) })

-- `exchange` is `sendRequest` and `receiveResponse`: the response with the cookies that it sets.
module _ {ℓ} {S : Type ℓ}
    (exchange : S → Message → Result (Response × List (Text × Text)) × S) where
  unfoldable pub handle_request_no_redirect : Request → Text → (Response → M S) → M S
  handle_request_no_redirect request data_ f session =
      let message = message_of request data_ session.cookies in
      let answered = exchange session.server message in
      let session' = record session {
        server = answered.1;
        sent = session.sent ++ (message ∷ []);
      } in
      elim answered.0 [
        | throw e ↦ (throw e, session')
        | ok (response, cookies) ↦
            f response (record session' { cookies = set_cookies cookies session.cookies })
      ]

  -- Each round follows one redirect; the source has no limit, the model has its fuel.
  unfoldable pub handle_redirect : ℕ → (Response → M S) → Response → M S
  handle_redirect zero f response session = (throw no_fuel, session)
  handle_redirect (suc fuel) f response session = elim (is_redirect response) [
    | false ↦ f response session
    | true ↦ elim (has_location response) [
      | none ↦ (throw runtime_error, session)
      | some location ↦
          handle_request_no_redirect
            (record { method = get; location = location; follow_redirects = follow }) []
            (handle_redirect fuel f) session
    ]
  ]

  unfoldable pub handle_request : ℕ → Request → Text → (Response → M S) → M S
  handle_request fuel request data_ f =
      handle_request_no_redirect request data_
        (if_follow request.follow_redirects (handle_redirect fuel f) f)

  -- The function that `postRequest` passes on, where `handler` says whether `handleResponse` throws.
  unfoldable pub deliver : (Response → Result (Unit {0})) → Response → M S
  deliver handler response session =
      if is_success response
      then (
        handler response,
        record session { calls = session.calls ++ (handle_response response ∷ []) },
      )
      else (throw runtime_error, session)

  -- The task that `postRequest` posts; `none` where it needs more fuel than there is.
  unfoldable pub post_request :
      ℕ → (Response → Result (Unit {0})) → Request → Text → Session S → Option (Session S)
  post_request fuel handler request data_ session =
      settle (handle_request fuel request data_ (deliver handler) session)
