-- ===== src/Pricing/Writer/Extract.antt =====
-- `JsonWriter::extract2` of apps/pricing/json_writer.cpp: one view of the market, page by page. The
-- pages are what `readOrders` returns, which has no empty page, and the view's time is what `strptime`
-- makes of the file's name, `none` if it fails. `lower_bound` and `upper_bound` are linear searches,
-- which find the same places in a list that is sorted by id.
pub mod Fails
use eve_industry_planner.Prelude.{
  ℕ, zero, suc, ◌+◌, ◌-◌, ◌^◌, ◌≡◌, refl, Bool, true, false, ◌&&◌, ◌||◌, not, Option, none, some,
  List, [], ◌∷◌, ◌++◌, arith, ltb, leb, ◌==◌, if◌then◌else◌, length, take, drop, remove_if, min,
  Result, ok, throw, ◌>>=◌, ◌>>◌, or_throw, require, runtime_error,
}
use eve_industry_planner.Double.{Double}
use eve_industry_planner.Pricing.Order.{Order, Diff, equal_ignoring_issued}
use eve_industry_planner.Pricing.Codec.Bytes.{le_bytes}
use eve_industry_planner.Pricing.Reader
use eve_industry_planner.Pricing.Writer.{
  Writer, write_new, write_changed, write_removed, check, all_equal,
}

abbrev is_empty {ℓ} : {A : Type ℓ} → List A → Bool
is_empty [] = true
is_empty (x ∷ xs) = false

module _ {ℓ} {W : Type ℓ} where
  -- the orders before, and those from the first that fails the test on
  span : (Order W → Bool) → List (Order W) → List (Order W) × List (Order W)
  span p [] = ([], [])
  span p (x ∷ xs) =
      let (before, after) = span p xs in if p x then (x ∷ before, after) else ([], x ∷ xs)

  last_or : Order W → List (Order W) → Order W
  last_or o [] = o
  last_or o (x ∷ xs) = last_or x xs

  insert_sorted : Order W → List (Order W) → List (Order W)
  insert_sorted o [] = o ∷ []
  insert_sorted o (x ∷ xs) = if ltb x.id o.id then x ∷ insert_sorted o xs else o ∷ (x ∷ xs)

  sort_by_id : List (Order W) → List (Order W)
  unfolding insert_sorted
  sort_by_id [] = []
  sort_by_id (x ∷ xs) = insert_sorted x (sort_by_id xs)

module _ {ℓ} {W : Type ℓ} ⦃d : Double W⦄ where
  -- `check(tmp, current_, order_count)`, where `tmp` was `current_` in the state `before`
  check_since : Writer W → Writer W → ℕ → Result (Writer W)
  check_since before w n = check w (drop (length before.written) w.written) n

  -- the loop over the orders that are left after the last of the old ones
  new_tail : Writer W → ℕ → List (Order W) → Result (Writer W)
  unfolding check_since
  new_tail w n [] = ok w
  new_tail w n (o ∷ os) = do w' ← write_new w o; w' ← check_since w w' n; new_tail w' (n + 1) os

  -- the loop over the old orders that are left
  removed_tail : Writer W → ℕ → List (Order W) → Result (Writer W)
  unfolding check_since
  removed_tail w n [] = ok w
  removed_tail w n (o ∷ os) = do
    w' ← write_removed w o
    w' ← check_since w w' n
    removed_tail w' n os

  write_if_changed : Writer W → Order W → Order W → Result (Writer W)
  write_if_changed w current last =
      if not (d.eq current.price last.price) || not (current.volume == last.volume)
      then write_changed w current
      else ok w

  -- The end of a round of `while (true)`: out of the loop where a list has run out, else the check.
  check_unless_done : Writer W → Writer W → ℕ → List (Order W) → List (Order W) → Result (Writer W)
  unfolding check_since
  check_unless_done before w n current last =
      if is_empty current || is_empty last then ok w else check_since before w n

  -- `current` are the orders of the page, `last` those of the last view between its first id and its
  -- last, and `n` is `current - active_orders_.begin()`.
  merge : Writer W → ℕ → List (Order W) → List (Order W) → Result (Writer W)
  unfolding new_tail removed_tail write_if_changed check_unless_done
  merge w n [] last = removed_tail w n last
  merge w n (c ∷ cs) [] = new_tail w n (c ∷ cs)
  merge w n (c ∷ cs) (l ∷ ls) = elim (ltb c.id l.id) [
    | true ↦ do
      w' ← write_new w c
      w' ← check_unless_done w w' (n + 1) cs (l ∷ ls)
      merge w' (n + 1) cs (l ∷ ls)
    | false ↦ elim (c.id == l.id) [
      | true ↦ do
        w' ← write_if_changed w c l
        w' ← check_unless_done w w' (n + 1) cs ls
        merge w' (n + 1) cs ls
      | false ↦ do
        w' ← write_removed w l
        w' ← check_unless_done w w' n (c ∷ cs) ls
        merge w' n (c ∷ cs) ls
    ]
  ]

  -- `std::memcpy(header, &size, sizeof(size))`
  patch_size : ℕ → Writer W → Writer W
  patch_size header w = record w {
    written =
        take header w.written
        ++ (le_bytes 4 (length w.written - header - 4) ++ drop (header + 4) w.written);
  }

  write_page : Writer W → List (Order W) → Result (Writer W)
  unfolding span last_or merge patch_size
  write_page w [] = ok w
  write_page w (o ∷ os) =
      let last = last_or o os in
      let (before, rest) = span (λ x. ltb x.id o.id) w.active_orders in
      let (between, after) = span (λ x. leb x.id last.id) rest in
      let ids = w.written ++ (le_bytes 8 o.id ++ le_bytes 8 last.id) in
      do
        w' ←
            merge
              (record w {
                active_orders = before ++ ((o ∷ os) ++ after);
                written = ids ++ le_bytes 4 0;
              })
              (length before) (o ∷ os) between
        ok (patch_size (length ids) w')

  write_pages : Writer W → List (List (Order W)) → Result (Writer W)
  unfolding write_page
  write_pages w [] = ok w
  write_pages w (page ∷ pages) = do w' ← write_page w page; write_pages w' pages

  -- What the reader makes of the view is compared with what was to be stored.
  verify : Writer W → Result (Writer W)
  unfolding sort_by_id all_equal
  verify w = do
    r ← Reader.step (record w.reader { text = drop w.consumed w.written })
    let read_orders = sort_by_id (remove_if (λ o. o.volume == 0) r.active_orders)
    let order_count = min (length read_orders) (length w.active_orders)
    require (all_equal order_count read_orders w.active_orders) runtime_error
    ok (record w { reader = r; consumed = length w.written - length r.text; started = true })

  unfoldable pub extract2 : Writer W → Option ℕ → List (List (Order W)) → Result (Writer W)
  unfolding write_pages verify
  extract2 w time docs = do
    viewtime ← or_throw time runtime_error
    w' ←
        write_pages
          (record w { written = w.written ++ (le_bytes 4 viewtime ++ le_bytes 1 (length docs)) })
          docs
    verify w'
