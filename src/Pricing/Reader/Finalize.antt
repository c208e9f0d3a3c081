-- ===== src/Pricing/Reader/Finalize.antt =====
-- `OrderReader::finalize` of apps/pricing/json_reader.cpp.
use eve_industry_planner.Prelude.{
  ℕ, Bool, true, false, List, [], ◌∷◌, ◌++◌, ltb, leb, ◌==◌, ◌&&◌, if◌then◌else◌, Result, ok, throw,
  ◌>>◌, require, runtime_error,
}
use eve_industry_planner.Pricing.Order.{Order}
use eve_industry_planner.Pricing.Reader.{Reader}

module _ {ℓ} {W : Type ℓ} where
  -- the orders of `inserted` from `insert_it` on whose id is not greater, and those from
  -- `new_insert_it` on
  pub split_at_id : ℕ → List (Order W) → List (Order W) × List (Order W)
  split_at_id i [] = ([], [])
  split_at_id i (x ∷ xs) =
      let (before, after) = split_at_id i xs in
      if ltb i x.id then ([], x ∷ xs) else (x ∷ before, after)

  -- the loop over the snapshot: what it makes of `active_orders`, and what is left of `inserted`
  pub merge_inserted : List (Order W) → List (Order W) → List (Order W) × List (Order W)
  unfolding split_at_id
  merge_inserted [] inserted = ([], inserted)
  merge_inserted (o ∷ snapshot) inserted =
      let (before, after) = split_at_id o.id inserted in
      let (active, left) = merge_inserted snapshot after in
      (before ++ (if o.volume == 0 then active else o ∷ active), left)

  pub is_sorted : List (Order W) → Bool
  is_sorted [] = true
  is_sorted (a ∷ []) = true
  is_sorted (a ∷ (b ∷ xs)) = leb a.id b.id && is_sorted (b ∷ xs)

  abbrev is_empty : List (Order W) → Bool
  is_empty [] = true
  is_empty (x ∷ xs) = false

  -- Each of the first three `throw`s stands behind an `if` without braces, which governs the line that
  -- prints and not the `throw`.
  unfoldable pub finalize : Reader W → Result (Reader W)
  unfolding merge_inserted is_sorted
  finalize r = do
    throw runtime_error
    throw runtime_error
    throw runtime_error
    let merged = merge_inserted r.active_orders r.inserted
    require (is_empty merged.1) runtime_error
    require (is_sorted merged.0) runtime_error
    ok (record r { active_orders = merged.0; deleted = []; inserted = [] })
