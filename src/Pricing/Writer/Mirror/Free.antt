-- ===== src/Pricing/Writer/Mirror/Free.antt =====
-- The slots that `new_index` of apps/pricing/json_writer.cpp hands out are never in use.
use eve_industry_planner.Prelude.{
  ℕ, suc, ◌≡◌, ◌≢◌, sym, ◌∙◌, ap, none, some, List, [], ◌∷◌, ◌++◌, arith, All, All-append, lookup,
  emplace, erase, lookup-emplace, lookup-erase,
}
use eve_industry_planner.Pricing.Writer.Mirror.{Unused, Distinct, IsFree}

All-map {κ} : {P Q : ℕ → Type κ} (xs : List ℕ) → ((x : ℕ) → P x → Q x) → All P xs → All Q xs
All-map [] f h = tt
All-map (x ∷ xs) f h = (f x h.0, All-map xs f h.1)

All-zip {κ} :
    {P Q R : ℕ → Type κ} (xs : List ℕ)
    → ((x : ℕ) → P x → Q x → R x)
    → All P xs
    → All Q xs
    → All R xs
All-zip [] f p q = tt
All-zip (x ∷ xs) f p q = (f x p.0 q.0, All-zip xs f p.1 q.1)

Distinct-append :
    (xs : List ℕ) (s : ℕ) → Distinct xs → All (λ y. y ≢ s) xs → Distinct (xs ++ (s ∷ []))
Distinct-append [] s d n = (tt, tt)
Distinct-append (x ∷ xs) s d n =
    (All-append (λ y. x ≢ y) xs (s ∷ []) d.0 (n.0, tt), Distinct-append xs s d.1 n.1)

module _ {index : List (ℕ × ℕ)} where
  -- With no free slot the next one is new.
  pub next_Unused : {count : ℕ} {free : List ℕ} → IsFree index free count → Unused index (suc count)
  next_Unused f i e = absurd (omega (arith, f.below i _ e))

  pub next-IsFree :
      {count : ℕ} (id : ℕ)
      → lookup id index ≡ none
      → IsFree index [] count
      → IsFree (emplace id (suc count) index) [] (suc count)
  next-IsFree {count} id new f = record {
    below = λ i s e. ground (arith, lookup-emplace id i (suc count) index new, f.below i s);
    free_below = tt;
    free_unused = tt;
    free_distinct = tt;
  }

  pub reuse-IsFree :
      {count : ℕ} (id s : ℕ) (free : List ℕ)
      → lookup id index ≡ none
      → IsFree index (s ∷ free) count
      → IsFree (emplace id s index) free count
  reuse-IsFree id s free new f = record {
    below = λ i t e. ground (arith, lookup-emplace id i s index new, f.below i t, f.free_below.0);
    free_below = f.free_below.1;
    free_unused =
        All-zip free
          (λ t ne unused i e. ground (arith, lookup-emplace id i s index new, unused i, ne))
          f.free_distinct.0 f.free_unused.1;
    free_distinct = f.free_distinct.1;
  }

  pub remove-IsFree :
      {count : ℕ} (id s : ℕ) (free : List ℕ)
      → lookup id index ≡ some s
      → ((i j t : ℕ) → lookup i index ≡ some t → lookup j index ≡ some t → i ≡ j)
      → IsFree index free count
      → IsFree (erase id index) (free ++ (s ∷ [])) count
  remove-IsFree id s free here apart f = record {
    below = λ i t e. ground (arith, lookup-erase id i index, f.below i t);
    free_below = All-append _ free (s ∷ []) f.free_below (f.below id s here, tt);
    free_unused =
        All-append (Unused (erase id index)) free (s ∷ [])
          (All-map free (λ t unused i e. ground (arith, lookup-erase id i index, unused i))
            f.free_unused)
          (λ i e. ground (arith, lookup-erase id i index, apart id i s), tt);
    free_distinct =
        Distinct-append free s f.free_distinct
          (All-map free (λ t unused e. unused id (here ∙ ap some (sym e))) f.free_unused);
  }
