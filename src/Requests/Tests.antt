-- ===== src/Requests/Tests.antt =====
-- The theorems about the semaphore, the requests and the groups, at concrete threads and servers.
use eve_industry_planner.Prelude.{
  ℕ, zero, suc, ◌<◌, ◌≡◌, ◌≢◌, refl, subst, sym, ap, true, false, some, List, [], ◌∷◌, get_elem?,
  arith, Result, ok, throw, no_fuel, lookup_by,
}
use eve_industry_planner.Prelude.Int.{pos}
use eve_industry_planner.Text.{Text, codes, text_eq}
use eve_industry_planner.Requests.Semaphore.{
  Op, acquire, outside, prepare, to_int, condition, System, put, asleep, testing, call, wait, Reach,
  start, later,
}
use eve_industry_planner.Requests.Semaphore.Awake.{WaitsUpward, asleep_rightly}
use eve_industry_planner.Requests.Http.{
  Request, Response, Message, Session, get, follow, is_redirect, handle_request, post_request,
  deliver,
}
use eve_industry_planner.Requests.Http.Calls.{IsCalled, post_request-IsCalled}
use eve_industry_planner.Requests.Http.Redirects.{
  Leads, Redirects, handle_request_ends, redirects_forever,
}
use eve_industry_planner.Requests.Group.{Group, new_group, post_requests, post_queries}
use eve_industry_planner.Requests.Group.Dealt.{dealt, group-dealt}

-- The threads only acquire, and the first one that does falls asleep.
abbrev Acquires : Op → Type 0
Acquires o = o ≡ acquire 1

Acquires-WaitsUpward : (o : Op) → Acquires o → WaitsUpward o
Acquires-WaitsUpward o e = subst WaitsUpward (sym e) tt

abbrev sleeping : System
sleeping = record {
  count = pos 0;
  threads = put 0 (asleep (acquire 1)) (put 0 (testing (acquire 1)) (λ i. outside));
}

prepared : prepare (acquire 1) ≡ ok (acquire 1)
unfolding prepare to_int
prepared = refl

sleeping_reached : Reach Acquires (pos 0) sleeping
sleeping_reached =
    later (later start (call 0 (acquire 1) (acquire 1) refl refl prepared))
      (wait 0 (acquire 1) refl refl)

asleep_rightly_example : condition (acquire 1) (pos 0) ≡ false
asleep_rightly_example = asleep_rightly Acquires-WaitsUpward sleeping_reached 0 (acquire 1) refl

abbrev home : Request
home = record { method = get; location = codes "/home"; follow_redirects = follow }

abbrev page : Response
page = record { status = 200; reason = codes "OK"; header = []; body = codes "{}" }

abbrev moved : Response
moved = record {
  status = 302;
  reason = codes "Found";
  header = (codes "Location", codes "/home") ∷ [];
  body = [];
}

-- a server that redirects as often as its state says
abbrev exchange : ℕ → Message → Result (Response × List (Text × Text)) × ℕ
exchange zero m = (ok (page, []), zero)
exchange (suc n) m = (ok (moved, []), n)

-- a server that always does
abbrev loops : ℕ → Message → Result (Response × List (Text × Text)) × ℕ
loops s m = (ok (moved, []), s)

abbrev session : Session ℕ
session = record { server = 1; cookies = []; sent = []; calls = [] }

exchange_falls :
    (s : ℕ) (m : Message) (r : Response) (cookies : List (Text × Text))
    → (exchange s m).0 ≡ ok (r, cookies)
    → is_redirect r ≡ true
    → (exchange s m).1 < s
exchange_falls zero m r cookies e h = let q : page ≡ r = cc e in absurd (cc (ap is_redirect q, h))
exchange_falls (suc n) m r cookies e h = omega arith

exchange_throws : (s : ℕ) (m : Message) → (exchange s m).0 ≢ throw no_fuel
exchange_throws zero m e = cc e
exchange_throws (suc n) m e = cc e

exchange-Leads : Leads exchange (λ n. n)
exchange-Leads = record { falls = exchange_falls; throws = exchange_throws }

post_request-IsCalled_example :
    (s' : Session ℕ) × (post_request exchange 5 (λ r. ok tt) home [] session ≡ some s')
    × IsCalled exchange (λ r. ok tt) [] s'.calls
post_request-IsCalled_example =
    post_request-IsCalled exchange (λ r. ok tt) (λ r e. absurd (cc e)) (λ n. n) exchange-Leads home
      [] session 4 (omega arith)

handle_request_ends_example :
    (handle_request exchange 5 home [] (deliver exchange (λ r. ok tt)) session).0 ≢ throw no_fuel
handle_request_ends_example =
    handle_request_ends exchange (λ r. ok tt) (λ r e. absurd (cc e)) (λ n. n) exchange-Leads home []
      session 4 (omega arith)

loops_all : Redirects loops
unfolding lookup_by text_eq
loops_all s m = (moved, [], codes "/home", refl, refl, refl)

redirects_forever_example :
    (handle_request loops 1000 home [] (deliver loops (λ r. ok tt)) session).0 ≡ throw no_fuel
redirects_forever_example =
    redirects_forever loops loops_all (deliver loops (λ r. ok tt)) 1000 home [] session refl

group-dealt_example :
    ((g : Group ℕ) × (post_requests (7 ∷ 8 ∷ 9 ∷ []) (new_group 2) ≡ ok g)
      × ((i : ℕ) → i < 2 → get_elem? g.handlers i ≡ some (dealt 2 i 0 (7 ∷ 8 ∷ 9 ∷ []))))
    × ((g : Group ℕ) × (post_queries (7 ∷ 8 ∷ 9 ∷ []) (new_group 2) ≡ ok g)
        × ((i : ℕ) → i < 2 → get_elem? g.handlers i ≡ some (dealt 2 i 0 (7 ∷ 8 ∷ 9 ∷ []))))
group-dealt_example = group-dealt 2 (omega arith) (7 ∷ 8 ∷ 9 ∷ [])
