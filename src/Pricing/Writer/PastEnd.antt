-- ===== src/Pricing/Writer/PastEnd.antt =====
-- The slot that `new_index` of apps/pricing/json_writer.cpp gives to an order when no slot is free: the
-- size of `active_orders2_` after `push_back`, one past the element that it has stored.
use eve_industry_planner.Prelude.{
  ◌≡◌, refl, none, some, List, [], ◌∷◌, ◌++◌, arith, length, get_elem?, lookup, lookup-emplace, ok,
  throw, undefined, Option-cases, inl, inr,
}
use eve_industry_planner.Double.{Double}
use eve_industry_planner.Pricing.Order.{Order}
use eve_industry_planner.Pricing.Reader.{modify-none}
use eve_industry_planner.Pricing.Writer.{Writer, new_index, write_new, write_changed, write_removed}

get_elem?_out_of_range {ℓ} : {A : Type ℓ} (xs : List A) → get_elem? xs (length xs) ≡ none
get_elem?_out_of_range [] = refl
get_elem?_out_of_range (x ∷ xs) = get_elem?_out_of_range xs

module _ {ℓ} {W : Type ℓ} ⦃d : Double W⦄ (w : Writer W) (o : Order W) {w' : Writer W} where
  slot_past_end :
      w.free_list ≡ []
      → write_new w o ≡ ok w'
      → lookup o.id w'.index ≡ some (length w'.active_orders2)
  unfolding write_new new_index
  slot_past_end e h = elim (Option-cases (lookup o.id w.index)) [
    | inl n ↦
        ground (arith, lookup-emplace o.id o.id (length (w.active_orders2 ++ (o ∷ []))) w.index n)
    | inr (s, n) ↦ absurd (ground arith)
  ]

  -- When an order has just been stored in a new slot, because no slot was free, a change or the
  -- removal of that order accesses `active_orders2_` out of bounds.
  pub next_write_undefined :
      (o' : Order W)
      → w.free_list ≡ []
      → write_new w o ≡ ok w'
      → o'.id ≡ o.id
      → (write_changed w' o' ≡ throw undefined) × (write_removed w' o' ≡ throw undefined)
  unfolding write_changed write_removed
  next_write_undefined o' e h same =
      let here : lookup o'.id w'.index ≡ some (length w'.active_orders2) =
        rw same (slot_past_end e h) in
      let out = get_elem?_out_of_range w'.active_orders2 in
      (
        rw (here, modify-none w'.active_orders2 _ (λ (_ : Order W). o') out),
        rw (here, modify-none w'.active_orders2 _ (λ (x : Order W). record x { volume = 0 }) out),
      )
