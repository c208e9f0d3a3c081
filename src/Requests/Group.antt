-- ===== src/Requests/Group.antt =====
-- The groups of libs/HTTPSRequestHandler/HTTPSRequestHandler.cpp and libs/QueryRunner/QueryRunner.cpp,
-- which give what is posted to their handlers in turn. A handler is the queue of what was posted to it.
pub mod Dealt
use eve_industry_planner.Prelude.{
  ℕ, zero, suc, ◌+◌, ◌%◌, Bool, List, [], ◌∷◌, ◌++◌, ◌==◌, if◌then◌else◌, length, replicate, set,
  get_elem?, Result, ok, throw, ◌>>=◌, or_throw, runtime_error, undefined,
}

pub record Group {ℓ} (T : Type ℓ) : Type ℓ where
  pub next : ℕ
  pub handlers : List (List T)

unfoldable pub new_group {ℓ} : {T : Type ℓ} → ℕ → Group T
new_group n = record { next = 0; handlers = replicate n [] }

-- The handler whose turn it is gets it, and the turn moves on. `% 0` is undefined, as is the access.
unfoldable pub post_next {ℓ} : {T : Type ℓ} → T → Group T → Result (Group T)
post_next t g = do
  queue ← or_throw (get_elem? g.handlers g.next) undefined
  ok (record {
    next = (g.next + 1) % length g.handlers;
    handlers = set g.handlers g.next (queue ++ (t ∷ []));
  })

-- `HTTPSRequestHandlerGroup::postRequest`
unfoldable pub post_request {ℓ} : {T : Type ℓ} → T → Group T → Result (Group T)
post_request t g = if length g.handlers == 0 then throw runtime_error else post_next t g

-- `QueryRunnerGroup::postQuery`
unfoldable pub post_query {ℓ} : {T : Type ℓ} → T → Group T → Result (Group T)
post_query t g = post_next t g

unfoldable pub post_requests {ℓ} : {T : Type ℓ} → List T → Group T → Result (Group T)
post_requests [] g = ok g
post_requests (t ∷ ts) g = post_request t g >>= λ g'. post_requests ts g'

unfoldable pub post_queries {ℓ} : {T : Type ℓ} → List T → Group T → Result (Group T)
post_queries [] g = ok g
post_queries (t ∷ ts) g = post_query t g >>= λ g'. post_queries ts g'
