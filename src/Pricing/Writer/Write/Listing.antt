-- ===== src/Pricing/Writer/Write/Listing.antt =====
-- The order in which a directory lists its files does not matter to `JsonWriter::write` of
-- apps/pricing/json_writer.cpp.
use mathlib.Core.List.{Permᴰ}
use eve_industry_planner.Prelude.{ℕ, ◌≡◌, refl, sym, ◌∙◌, true, false, Option, List, [], ◌∷◌, arith}
use eve_industry_planner.Text.{Text}
use eve_industry_planner.Double.{Double}
use eve_industry_planner.Pricing.Order.{Order}
use eve_industry_planner.Pricing.Pages.{Entry}
use eve_industry_planner.Pricing.Writer.{Writer}
use eve_industry_planner.Pricing.Writer.Write.{text_lt, insert_path, archives, write}

lt_antisym : (xs ys : Text) → text_lt xs ys ≡ false → text_lt ys xs ≡ false → xs ≡ ys
unfolding text_lt
lt_antisym [] [] h k = refl
lt_antisym [] (y ∷ ys) h k = cc
lt_antisym (x ∷ xs) [] h k = cc
lt_antisym (x ∷ xs) (y ∷ ys) h k = ground (arith, lt_antisym xs ys)

lt_asym : (xs ys : Text) → text_lt xs ys ≡ true → text_lt ys xs ≡ false
unfolding text_lt
lt_asym [] [] h = refl
lt_asym [] (y ∷ ys) h = refl
lt_asym (x ∷ xs) [] h = cc
lt_asym (x ∷ xs) (y ∷ ys) h = ground (arith, lt_asym xs ys)

-- b ≤ g and g < a
le_lt_trans : (b g a : Text) → text_lt g b ≡ false → text_lt g a ≡ true → text_lt b a ≡ true
unfolding text_lt
le_lt_trans [] [] [] h k = cc
le_lt_trans [] [] (z ∷ zs) h k = refl
le_lt_trans [] (y ∷ ys) [] h k = cc
le_lt_trans [] (y ∷ ys) (z ∷ zs) h k = refl
le_lt_trans (x ∷ xs) [] a h k = cc
le_lt_trans (x ∷ xs) (y ∷ ys) [] h k = cc
le_lt_trans (x ∷ xs) (y ∷ ys) (z ∷ zs) h k = ground (arith, le_lt_trans xs ys zs)

insert_comm :
    (a b : Text) (qs : List Text)
    → insert_path a (insert_path b qs) ≡ insert_path b (insert_path a qs)
unfolding insert_path
insert_comm a b [] = ground (arith, lt_antisym a b, lt_asym a b, lt_asym b a)
insert_comm a b (g ∷ gs) = ground (
  arith,
  insert_comm a b gs,
  lt_antisym a b,
  lt_asym a b,
  lt_asym b a,
  le_lt_trans b g a,
  le_lt_trans a g b,
)

swapped : (a b : Text) (l : List Text) → archives (a ∷ (b ∷ l)) ≡ archives (b ∷ (a ∷ l))
unfolding archives
swapped a b l = ground (arith, insert_comm a b (archives l))

archives-Perm : {ps qs : List Text} → Permᴰ ps qs → archives ps ≡ archives qs
unfolding archives
archives-Perm Permᴰ.nil = refl
archives-Perm (Permᴰ.cons {a = a} {b = b} {l₁ = ps} {l₂ = qs} e p) = rw (e, archives-Perm p) refl
archives-Perm (Permᴰ.swap {a = a} {b = b} {l = l} e f) = rw (sym e, sym f) (swapped a b l)
archives-Perm (Permᴰ.trans p q) = archives-Perm p ∙ archives-Perm q

-- What `write` stores does not depend on the order in which the directory lists its files.
pub write-Perm {ℓ} :
    {W : Type ℓ} ⦃d : Double W⦄ (time view_time : Text → Option ℕ) (indeterminate : Order W)
    (capacity : ℕ) (contents : Text → List (Entry W)) (w : Writer W) (ps qs : List Text)
    → Permᴰ ps qs
    → write time view_time indeterminate capacity contents w ps
      ≡ write time view_time indeterminate capacity contents w qs
unfolding write
write-Perm time view_time indeterminate capacity contents w ps qs p = rw (archives-Perm p) refl
