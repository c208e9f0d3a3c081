-- ===== src/Pricing/Reader/Total.antt =====
-- The loops of `OrderReader` end: apps/pricing/json_reader.cpp.
use eve_industry_planner.Prelude.{
  ℕ, zero, suc, ◌≤◌, ◌<◌, ◌≡◌, ◌≢◌, refl, ◌∙◌, List, [], ◌∷◌, some, arith, length, get_elem?,
  length-set, Option-cases, inl, inr, if◌then◌else◌, Bool-cases, ◌==◌, Result, ok, throw, ◌>>=◌,
  no_fuel,
}
use eve_industry_planner.Double.{Double}
use eve_industry_planner.Pricing.Order.{Order, Diff}
use eve_industry_planner.Pricing.Codec.Bytes.{read_le, length-read_le, length-le_of_read}
use eve_industry_planner.Pricing.Codec.{read_order, read_diff}
use eve_industry_planner.Pricing.Reader.{
  Reader, read_step, read_loop, read_doc, modify-none, modify-some, step_diff, step_order, to_size,
  front,
}

module _ {ℓ} {W : Type ℓ} ⦃d : Double W⦄ where
  length-read_order :
      (s : List ℕ) {o : Order W} {t : List ℕ} → read_order s ≡ some (o, t) → length t ≤ length s
  unfolding read_order
  length-read_order s h = length-le_of_read 1 s _ h λ _ s h. length-le_of_read 4 s _ h λ _ s h.
      length-le_of_read 8 s _ h λ _ s h. length-le_of_read 4 s _ h λ _ s h.
        length-le_of_read 8 s _ h λ _ s h. length-le_of_read 4 s _ h λ _ s h.
          length-le_of_read 1 s _ h λ _ s h. length-le_of_read 4 s _ h λ _ s h.
            length-le_of_read 4 s _ h λ _ s h.
              length-le_of_read 4 s _ h λ _ s h. length-le_of_read 8 s _ h λ _ s h. ground arith

  length-read_diff :
      (s : List ℕ) {x : Diff W} {t : List ℕ} → read_diff s ≡ some (x, t) → length t ≤ length s
  unfolding read_diff
  length-read_diff s h =
      length-le_of_read 1 s _ h
        λ _ s h. length-le_of_read 8 s _ h λ _ s h. length-le_of_read 4 s _ h λ _ s h. ground arith

  -- What a step leaves: no more bytes than before, and as many slots.
  abbrev Leaves : Reader W → List ℕ → Result (Reader W × List ℕ) → Type 0
  Leaves r doc (ok (r', rest)) =
      (length rest ≤ length doc) × (length r'.active_orders ≡ length r.active_orders)
  Leaves r doc (throw e) = e ≢ no_fuel

  step_diff-Leaves : (r : Reader W) (i : ℕ) (doc : List ℕ) → Leaves r doc (step_diff r i doc)
  unfolding step_diff
  step_diff-Leaves r i doc = elim (Option-cases (read_diff {W = W} doc)) [
    | inl e ↦ rw e (λ h. cc)
    | inr ((x, rest), e) ↦ elim (Option-cases (get_elem? r.active_orders i)) [
      | inl g ↦ rw (e, modify-none r.active_orders i _ g) (λ h. cc)
      | inr (o, g) ↦
          rw (e, modify-some r.active_orders i _ g)
            (length-read_diff doc e, length-set r.active_orders i _)
    ]
  ]

  step_order-Leaves : (r : Reader W) (i : ℕ) (doc : List ℕ) → Leaves r doc (step_order r i doc)
  unfolding step_order
  step_order-Leaves r i doc = elim (Option-cases (read_order {W = W} doc)) [
    | inl e ↦ rw e (λ h. cc)
    | inr ((x, rest), e) ↦ elim (Option-cases (get_elem? r.active_orders i)) [
      | inl g ↦ rw (e, modify-none r.active_orders i _ g) (λ h. cc)
      | inr (o, g) ↦
          rw (e, modify-some r.active_orders i _ g)
            (length-read_order doc e, length-set r.active_orders i _)
    ]
  ]

  -- A step that succeeds takes at least one byte.
  abbrev pub Shrinks : Reader W → List ℕ → Result (Reader W × List ℕ) → Type 0
  Shrinks r doc (ok (r', rest)) =
      (length rest < length doc) × (length r'.active_orders ≡ length r.active_orders)
  Shrinks r doc (throw e) = e ≢ no_fuel

  Leaves-Shrinks :
      (r : Reader W) (doc doc' : List ℕ) (m : Result (Reader W × List ℕ))
      → length doc' < length doc
      → Leaves r doc' m
      → Shrinks r doc m
  Leaves-Shrinks r doc doc' (ok (r', rest)) h l = omega arith
  Leaves-Shrinks r doc doc' (throw e) h l = l

  branch-Leaves :
      (r : Reader W) (tag i : ℕ) (doc : List ℕ)
      → Leaves r doc (if tag == 2 then step_diff r i doc else step_order r i doc)
  branch-Leaves r tag i doc = elim (Bool-cases (tag == 2)) [
    | inl e ↦ rw e (step_diff-Leaves r i doc)
    | inr e ↦ rw e (step_order-Leaves r i doc)
  ]

  tagged-Leaves :
      (r : Reader W) (i : ℕ) (doc : List ℕ)
      → Leaves r doc
          (front doc >>= λ tag. if tag == 2 then step_diff r i doc else step_order r i doc)
  unfolding front
  tagged-Leaves r i [] = λ h. cc
  tagged-Leaves r i (b ∷ doc) = branch-Leaves r b i (b ∷ doc)

  -- A step of the reader that succeeds takes at least one byte from the document and leaves the number
  -- of slots; one that fails does so for another reason than the fuel of the model.
  pub read_step-Shrinks : (r : Reader W) (doc : List ℕ) → Shrinks r doc (read_step r doc)
  unfolding read_step
  read_step-Shrinks r doc = elim (Option-cases (read_le 4 doc)) [
    | inl e ↦ rw e (λ h. cc)
    | inr ((i, rest), e) ↦ rw e (
        Leaves-Shrinks r doc rest _ (omega (arith, length-read_le 4 doc e))
          (tagged-Leaves r (to_size i) rest))
  ]

  -- A reader with as many slots, or an error other than the want of fuel.
  abbrev pub Ends : Reader W → Result (Reader W) → Type 0
  Ends r (ok r') = length r'.active_orders ≡ length r.active_orders
  Ends r (throw e) = e ≢ no_fuel

  Ends-trans :
      (r r' : Reader W) (m : Result (Reader W))
      → length r'.active_orders ≡ length r.active_orders
      → Ends r' m
      → Ends r m
  Ends-trans r r' (ok x) h e = e ∙ h
  Ends-trans r r' (throw x) h e = e

  next-Ends :
      (r : Reader W) (doc : List ℕ) (m : Result (Reader W × List ℕ))
      (f : Reader W × List ℕ → Result (Reader W))
      → Shrinks r doc m
      → ((r' : Reader W) (rest : List ℕ) → length rest < length doc → Ends r' (f (r', rest)))
      → Ends r (m >>= f)
  next-Ends r doc (ok (r', rest)) f s k = Ends-trans r r' (f (r', rest)) s.1 (k r' rest s.0)
  next-Ends r doc (throw e) f s k = s

  read_loop-Ends :
      (fuel : ℕ) (r : Reader W) (doc : List ℕ) → length doc ≤ fuel → Ends r (read_loop fuel r doc)
  unfolding read_loop
  read_loop-Ends zero r [] h = refl
  read_loop-Ends (suc fuel) r [] h = refl
  read_loop-Ends zero r (b ∷ doc) h = absurd (omega arith)
  read_loop-Ends (suc fuel) r (b ∷ doc) h =
      next-Ends r (b ∷ doc) (read_step r (b ∷ doc)) _ (read_step-Shrinks r (b ∷ doc))
        λ r' rest s. read_loop-Ends fuel r' rest (omega arith)

  -- `read_doc` ends on every document, well formed or not: it gives a reader with as many slots as
  -- before, or fails, and the fuel of the model, the length of the document, never runs out.
  pub read_doc-Ends : (r : Reader W) (doc : List ℕ) → Ends r (read_doc r doc)
  unfolding read_doc
  read_doc-Ends r doc = read_loop-Ends (length doc) r doc (omega arith)
