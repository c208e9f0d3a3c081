-- ===== src/OrderReader/Prices/Tests.antt =====
-- The theorems about `OrderHandler` of apps/order_reader.cpp, at concrete prices and steps.
use eve_industry_planner.Prelude.{
  ℕ, ◌*◌, ◌/◌, ◌^◌, ◌≤◌, ◌≡◌, refl, ◌⊎◌, Bool, true, false, not, List, [], ◌∷◌, All, length, arith,
  Result, ok, Option, some, none, ltb, ok-injective, sym, ap, ◌∙◌, ◌≢◌, lookup_by,
}
use eve_industry_planner.Text.{Text, codes}
use eve_industry_planner.Double.{Double}
use eve_industry_planner.Requests.Http.{
  Request, Response, Message, Session, get, follow, is_redirect, message_of, handle_response,
  post_request, handle_request, handle_request_no_redirect, handle_redirect, deliver,
}
use eve_industry_planner.Requests.Http.Redirects.{Leads}
use eve_industry_planner.OrderReader.Prices.{
  Limits, Offer, buy_orders, sell_orders, worst, price_in_station, answers,
}
use eve_industry_planner.OrderReader.Prices.Compared.{IsCompared, IsNoBetter}
use eve_industry_planner.OrderReader.Prices.Best.{IsRead, Offered, price_in_station-IsBest}
use eve_industry_planner.OrderReader.Prices.Save.{
  Saving, Step, Steps, no_step, more, transactions, all_done, respond, save_orders,
  save_orders_returns,
}

-- Hundredths, with the number that is none; minus infinity is 0.
abbrev less : Option ℕ → Option ℕ → Bool
less (some a) (some b) = ltb a b
less _ _ = false

instance abbrev nan_double : Double (Option ℕ)
nan_double = record {
  literal = λ m e. some (m * 100 / 10 ^ e);
  of_nat = λ n. some (n * 100);
  infinity = some (10 ^ 18);
  neg = λ a. some 0;
  plus = λ a b. a;
  minus = λ a b. a;
  times = λ a b. a;
  divide = λ a b. a;
  ceil = λ a. a;
  lt = less;
  le = λ a b. not (less b a);
  eq = λ a b. false;
  abs = λ a. a;
  llround = λ a. 0;
  show = λ a. [];
  bits = λ a. 0;
  of_bits = λ n. some n;
}

abbrev none_of : Option ℕ → Bool
none_of none = true
none_of (some a) = false

abbrev limits : Limits (Option ℕ)
limits = record { quiet_nan = none; is_nan = none_of; lowest = some 1; greatest = some (10 ^ 17) }

less_asymmetric : (a b : Option ℕ) → less a b ≡ true → less b a ≡ false
less_asymmetric none b h = absurd (cc h)
less_asymmetric (some a) none h = refl
less_asymmetric (some a) (some b) h = ground arith

less_nan : (a b : Option ℕ) → none_of a ≡ true → (less a b ≡ false) × (less b a ≡ false)
less_nan none none h = (refl, refl)
less_nan none (some b) h = (refl, refl)
less_nan (some a) b h = absurd (cc h)

less_trans :
    (a b c : Option ℕ) → none_of b ≡ false → less b a ≡ false → less c b ≡ false → less c a ≡ false
less_trans a none c h p q = absurd (cc h)
less_trans a (some b) none h p q = refl
less_trans none (some b) (some c) h p q = refl
less_trans (some a) (some b) (some c) h p q = ground arith

limits-IsCompared : IsCompared (Option ℕ) limits
limits-IsCompared = record {
  asymmetric = less_asymmetric;
  nan_lt = less_nan;
  not_lt_trans = less_trans;
  numbers = (refl, refl);
  nan = refl;
}

abbrev dear : Offer (Option ℕ)
dear = record { location = ok 60003760; min_volume = ok 1; price = ok (some 612) }

abbrev cheap : Offer (Option ℕ)
cheap = record { location = ok 60003760; min_volume = ok 1; price = ok (some 512) }

offers-IsRead : All (IsRead limits limits-IsCompared) (dear ∷ cheap ∷ [])
offers-IsRead = (
  record { location = (_, refl); min_volume = (_, refl); price = (_, refl) },
  (record { location = (_, refl); min_volume = (_, refl); price = (_, refl) }, tt),
)

price_in_station-IsBest_example :
    (x : Option ℕ) × (price_in_station sell_orders 60003760 (dear ∷ cheap ∷ []) ≡ ok x)
    × ((x ≡ worst sell_orders)
        ⊎ Offered limits limits-IsCompared sell_orders 60003760 x (dear ∷ cheap ∷ []))
    × (none_of x ≡ false)
    × ((b : Option ℕ)
        → Offered limits limits-IsCompared sell_orders 60003760 b (dear ∷ cheap ∷ [])
        → IsNoBetter limits limits-IsCompared sell_orders b x)
price_in_station-IsBest_example =
    price_in_station-IsBest limits limits-IsCompared sell_orders 60003760 (dear ∷ cheap ∷ [])
      offers-IsRead

abbrev orders_of : Response → Result (List (Offer (Option ℕ)))
orders_of r = ok (dear ∷ cheap ∷ [])

abbrev served : Response
served = record { status = 200; reason = codes "OK"; header = []; body = [] }

abbrev answered : Unit {0} → Message → Result (Response × List (Text × Text)) × Unit {0}
answered s m = (ok (served, []), s)

abbrev request : Request
request = record {
  method = get;
  location = codes "/market/10000002/orders/sell/";
  follow_redirects = follow;
}

answered-Leads : Leads answered (λ s. 0)
unfolding lookup_by
answered-Leads = record {
  falls = λ s m r c e h. absurd (not_moved r (sym (ap (λ x. x.0) (ok-injective e))) h);
  throws = λ s m e. cc e;
}
  where
    not_moved : (r : Response) → r ≡ served → is_redirect r ≢ true
    not_moved r e h = let q : is_redirect served ≡ true = ap is_redirect (sym e) ∙ h in cc q

abbrev session : Session (Unit {0})
session = record { server = tt; cookies = []; sent = []; calls = [] }

-- when the response has been handled
abbrev session' : Session (Unit {0})
session' = record {
  server = tt;
  cookies = [];
  sent = message_of request [] [] ∷ [];
  calls = handle_response served ∷ [];
}

abbrev types : List ℕ
types = 34 ∷ []

-- The sell orders are answered first.
abbrev half : Saving (Option ℕ)
half = record {
  pending = (buy_orders, 34) ∷ [];
  handler =
      answers limits orders_of sell_orders 34 session'.calls
        (save_orders limits answered orders_of types).handler;
}

half_saved : Steps limits answered orders_of (save_orders limits answered orders_of types) 1 half
unfolding transactions post_request handle_request handle_request_no_redirect handle_redirect
    deliver
half_saved =
    more no_step
      (respond ((buy_orders, 34) ∷ []) [] sell_orders 34 5 request session session' refl refl refl)

save_orders_returns_example :
    (1 ≤ 4 * length types)
    × (((t : Saving (Option ℕ)) × Step limits answered orders_of half t)
        ⊎ (all_done false types half.handler.count ≡ true))
    × (all_done false types half.handler.count ≡ true
        → (length half.pending ≡ 0) × (length half.handler.queue ≡ 0))
save_orders_returns_example =
    save_orders_returns limits answered orders_of limits-IsCompared (λ s. 0) answered-Leads tt types
      half_saved
