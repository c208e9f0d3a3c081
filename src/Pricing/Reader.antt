-- ===== src/Pricing/Reader.antt =====
-- `OrderReader` of apps/pricing/json_reader.cpp: the decoder of the archive. Reading past the end of a
-- view and indexing a vector out of bounds are undefined in the source, and throw `undefined` here.
pub mod Total
pub mod Finalize
pub mod Records
use eve_industry_planner.Prelude.{
  ℕ, zero, suc, ◌+◌, ◌-◌, ◌^◌, ◌≡◌, refl, Bool, true, false, Option, none, some, List, [], ◌∷◌,
  ◌++◌, arith, ltb, leb, ◌==◌, if◌then◌else◌, length, get_elem?, set, take, drop, replicate, Result,
  ok, throw, ◌>>=◌, ◌>>◌, or_throw, require, undefined, no_fuel, runtime_error,
}
use eve_industry_planner.Double.{Double}
use eve_industry_planner.Pricing.Order.{Order, Diff, zero_order, apply_diff}
use eve_industry_planner.Pricing.Codec.Bytes.{read_le}
use eve_industry_planner.Pricing.Codec.{read_order, read_diff}

pub record Reader {ℓ} (W : Type ℓ) : Type ℓ where
  pub text : List ℕ
  pub viewtime : ℕ
  pub active_orders : List (Order W)
  pub deleted : List ℕ
  pub inserted : List (Order W)

-- `static_cast<std::size_t>` of an `int32_t`, given as its bit pattern
unfoldable pub to_size : ℕ → ℕ
to_size n = if ltb n (2 ^ 31) then n else n + (2 ^ 64 - 2 ^ 32)

-- How often `for (auto i = 0; i < doc_count; ++i)` runs, for the bit pattern of an `int8_t`
unfoldable pub rounds : ℕ → ℕ
rounds n = if ltb n (2 ^ 7) then n else 0

unfoldable pub modify {ℓ} : {A : Type ℓ} → List A → ℕ → (A → A) → Result (List A)
modify xs i f = elim (get_elem? xs i) [ none ↦ throw undefined | some x ↦ ok (set xs i (f x)) ]

pub modify-none {ℓ} :
    {A : Type ℓ} (xs : List A) (i : ℕ) (f : A → A)
    → get_elem? xs i ≡ none
    → modify xs i f ≡ throw undefined
unfolding modify
modify-none xs i f e = rw (e, modify)

pub modify-some {ℓ} :
    {A : Type ℓ} (xs : List A) (i : ℕ) (f : A → A) {x : A}
    → get_elem? xs i ≡ some x
    → modify xs i f ≡ ok (set xs i (f x))
unfolding modify
modify-some xs i f e = rw (e, modify)

-- `doc[0]`
unfoldable pub front : List ℕ → Result ℕ
front [] = throw undefined
front (b ∷ s) = ok b

module _ {ℓ} {W : Type ℓ} ⦃d : Double W⦄ where
  pub new_reader : List ℕ → Reader W
  new_reader text = record {
    text = text;
    viewtime = 0;
    active_orders = replicate 600_000 zero_order;
    deleted = [];
    inserted = [];
  }

  step_diff : Reader W → ℕ → List ℕ → Result (Reader W × List ℕ)
  step_diff r index doc = do
    (x, doc) ← or_throw (read_diff doc) undefined
    active ← modify r.active_orders index (apply_diff x)
    ok (record r { active_orders = active }, doc)

  step_order : Reader W → ℕ → List ℕ → Result (Reader W × List ℕ)
  step_order r index doc = do
    (o, doc) ← or_throw (read_order doc) undefined
    active ← modify r.active_orders index (λ _. o)
    ok (record r { active_orders = active }, doc)

  -- `read_step`: one record, and the rest of the document.
  unfoldable pub read_step : Reader W → List ℕ → Result (Reader W × List ℕ)
  unfolding step_diff step_order to_size front
  read_step r doc = do
    (read_index, doc) ← or_throw (read_le 4 doc) undefined
    tag ← front doc
    if tag == 2 then step_diff r (to_size read_index) doc else step_order r (to_size read_index) doc

  -- `while (!doc.empty()) doc = read_step(doc)`; every round takes at least 17 bytes.
  unfoldable pub read_loop : ℕ → Reader W → List ℕ → Result (Reader W)
  read_loop fuel r [] = ok r
  read_loop zero r (b ∷ doc) = throw no_fuel
  read_loop (suc fuel) r (b ∷ doc) = do (r, doc) ← read_step r (b ∷ doc); read_loop fuel r doc

  unfoldable pub read_doc : Reader W → List ℕ → Result (Reader W)
  read_doc r doc = read_loop (length doc) r doc

  -- One round of the loop of `step`: the header of a page, and the page.
  unfoldable pub step_page : Reader W → Result (Reader W)
  unfolding to_size
  step_page r = do
    (first_id, text) ← or_throw (read_le 8 r.text) undefined
    (last_id, text) ← or_throw (read_le 8 text) undefined
    (doc_size, text) ← or_throw (read_le 4 text) undefined
    r ← read_doc (record r { text = text }) (take (to_size doc_size) text)
    require (leb (to_size doc_size) (length text)) undefined
    ok (record r { text = drop (to_size doc_size) text })

  unfoldable pub step_pages : ℕ → Reader W → Result (Reader W)
  step_pages zero r = ok r
  step_pages (suc n) r = do r ← step_page r; step_pages n r

  -- `step`: one view of the market.
  unfoldable pub step : Reader W → Result (Reader W)
  unfolding rounds
  step r = do
    (viewtime, text) ← or_throw (read_le 4 r.text) undefined
    (doc_count, text) ← or_throw (read_le 1 text) undefined
    step_pages (rounds doc_count) (record r { text = text; viewtime = viewtime })
