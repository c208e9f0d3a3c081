-- ===== src/Pricing/Writer/Extract/Fails.antt =====
-- Why `JsonWriter` stores nothing: `check` of apps/pricing/json_writer.cpp calls
-- `OrderReader::finalize` of json_reader.cpp, which throws whatever it finds.
use eve_industry_planner.Prelude.{
  ℕ, ◌≡◌, Option, List, [], ◌∷◌, Result, ok, throw, ◌>>=◌, Bool, or_throw, runtime_error,
}
use eve_industry_planner.Double.{Double}
use eve_industry_planner.Pricing.Order.{Order}
use eve_industry_planner.Pricing.Reader.{read_step}
use eve_industry_planner.Pricing.Reader.Finalize.{finalize}
use eve_industry_planner.Pricing.Writer.{Writer, check, write_new}
use eve_industry_planner.Pricing.Writer.Extract.{extract2, merge, new_tail, check_since, span}

abbrev pub Fails {ℓ} : {A : Type ℓ} → Result A → Type 0
Fails (ok a) = ⊥
Fails (throw e) = Unit {0}

Fails-bind {ℓ κ} :
    {A : Type ℓ} {B : Type κ} (m : Result A) (f : A → Result B) → Fails m → Fails (m >>= f)
Fails-bind (ok a) f h = absurd h
Fails-bind (throw e) f h = tt

Fails-next {ℓ κ} :
    {A : Type ℓ} {B : Type κ} (m : Result A) (f : A → Result B)
    → ((a : A) → Fails (f a))
    → Fails (m >>= f)
Fails-next (ok a) f h = h a
Fails-next (throw e) f h = tt

module _ {ℓ} {W : Type ℓ} ⦃d : Double W⦄ where
  -- No call of `check` returns, whatever the writer has stored and whatever the bytes are.
  pub check-Fails : (w : Writer W) (doc : List ℕ) (n : ℕ) → Fails (check w doc n)
  unfolding check finalize
  check-Fails w doc n = Fails-next (read_step w.reader doc) _ λ _. tt

  new_tail-Fails :
      (w : Writer W) (n : ℕ) (o : Order W) (os : List (Order W)) → Fails (new_tail w n (o ∷ os))
  unfolding new_tail check_since
  new_tail-Fails w n o os =
      Fails-next (write_new w o) _ λ w'. Fails-bind (check w' _ n) _ (check-Fails w' _ n)

  merge-Fails :
      (w : Writer W) (n : ℕ) (o : Order W) (os active : List (Order W)) (p q : Order W → Bool)
      → active ≡ []
      → Fails (merge w n (o ∷ os) (span q (span p active).1).0)
  unfolding merge span
  merge-Fails w n o os [] p q e = new_tail-Fails w n o os
  merge-Fails w n o os (x ∷ xs) p q e = cc

  -- A writer that holds no orders yet cannot store a first page: `extract2` of a view that begins with
  -- a page of orders ends in an exception, since `finalize` throws whatever it finds.
  pub extract2-Fails :
      (w : Writer W) (time : Option ℕ) (o : Order W) (page : List (Order W))
      (pages : List (List (Order W)))
      → w.active_orders ≡ []
      → Fails (extract2 w time ((o ∷ page) ∷ pages))
  unfolding extract2
  extract2-Fails w time o page pages e = Fails-next (or_throw time runtime_error) _ λ viewtime.
      Fails-bind _ _
        (Fails-bind _ _ (Fails-bind _ _ (merge-Fails _ _ o page w.active_orders _ _ e)))
