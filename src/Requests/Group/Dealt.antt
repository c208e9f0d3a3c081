-- ===== src/Requests/Group/Dealt.antt =====
-- What each handler of a group gets: libs/HTTPSRequestHandler/HTTPSRequestHandler.cpp and
-- libs/QueryRunner/QueryRunner.cpp.
use native.Mathlib.Nat.{mod-add-mod, mod-lt, mod-eq_of_lt}
use mathlib.Core.List.{append_assoc, append-nil}
use eve_industry_planner.Prelude.{
  ℕ, zero, suc, ◌+◌, ◌%◌, ◌<◌, ◌≡◌, refl, sym, ◌∙◌, ap, some, List, [], ◌∷◌, ◌++◌, ◌==◌,
  if◌then◌else◌, arith, length, replicate, set, get_elem?, get_elem?-set_self, get_elem?-set_ne,
  length-set, ok, Bool-cases, inl, inr,
}
use eve_industry_planner.Requests.Group.{
  Group, new_group, post_next, post_request, post_requests, post_query, post_queries,
}

-- Of what is posted when k things have been, every n-th, for the handler i.
abbrev pub dealt {ℓ} : {T : Type ℓ} → ℕ → ℕ → ℕ → List T → List T
dealt n i k [] = []
dealt n i k (t ∷ ts) = if k % n == i then t ∷ dealt n i (k + 1) ts else dealt n i (k + 1) ts

next_mod : (n k : ℕ) → (k % n + 1) % n ≡ (k + 1) % n
next_mod n k = mod-add-mod k n 1

replicate-get_elem? {ℓ} :
    {A : Type ℓ} (n i : ℕ) (x : A) → i < n → get_elem? (replicate n x) i ≡ some x
replicate-get_elem? zero i x h = absurd (omega arith)
replicate-get_elem? (suc n) zero x h = refl
replicate-get_elem? (suc n) (suc i) x h = replicate-get_elem? n i x (omega arith)

length-replicate {ℓ} : {A : Type ℓ} (n : ℕ) (x : A) → length (replicate n x) ≡ n
length-replicate zero x = refl
length-replicate (suc n) x = omega (arith, length-replicate n x)

module _ {ℓ} {T : Type ℓ} (n : ℕ) (p : 0 < n) where
  -- the group when k things have been posted and the handlers hold `held`
  record Holds (g : Group T) (k : ℕ) (held : ℕ → List T) : Type ℓ where
    size : length g.handlers ≡ n
    turn : g.next ≡ k % n
    queues : (i : ℕ) → i < n → get_elem? g.handlers i ≡ some (held i)

  abbrev more : (ℕ → List T) → ℕ → T → ℕ → List T
  more held k t i = if k % n == i then held i ++ (t ∷ []) else held i

  post_next-Holds :
      (t : T) (g : Group T) (k : ℕ) (held : ℕ → List T)
      → Holds g k held
      → (g' : Group T) × (post_next t g ≡ ok g') × Holds g' (k + 1) (more held k t)
  unfolding post_next
  post_next-Holds t g k held v =
      let lt : g.next < n = omega (arith, v.turn, mod-lt k p) in
      let here : get_elem? g.handlers g.next ≡ some (held g.next) = v.queues g.next lt in
      (
        record {
          next = (g.next + 1) % length g.handlers;
          handlers = set g.handlers g.next (held g.next ++ (t ∷ []));
        },
        rw here refl,
        record {
          size = length-set g.handlers g.next _ ∙ v.size;
          turn = rw (v.size, v.turn) (next_mod n k);
          queues = λ i h. elim (Bool-cases (k % n == i)) [
            | inl e ↦
                let s : g.next ≡ i = ground (arith, v.turn) in
                rw (e, s)
                  (get_elem?-set_self g.handlers i (held i ++ (t ∷ [])) (omega (arith, v.size)))
            | inr e ↦ rw e (
                get_elem?-set_ne g.handlers g.next i _ (λ (s : g.next ≡ i). ground (arith, v.turn))
                ∙ v.queues i h)
          ];
        },
      )

  post_request-Holds :
      (t : T) (g : Group T) (k : ℕ) (held : ℕ → List T)
      → Holds g k held
      → (g' : Group T) × (post_request t g ≡ ok g') × Holds g' (k + 1) (more held k t)
  unfolding post_request
  post_request-Holds t g k held v =
      let (g', e, w) = post_next-Holds t g k held v in (g', ground (arith, v.size), w)

  more-dealt :
      (held : ℕ → List T) (k i : ℕ) (t : T) (ts : List T)
      → more held k t i ++ dealt n i (k + 1) ts ≡ held i ++ dealt n i k (t ∷ ts)
  more-dealt held k i t ts = elim (Bool-cases (k % n == i)) [
    | inl e ↦ rw e (append_assoc (held i) (t ∷ []) (dealt n i (k + 1) ts))
    | inr e ↦ rw e refl
  ]

  post_requests-Holds :
      (ts : List T) (g : Group T) (k : ℕ) (held : ℕ → List T)
      → Holds g k held
      → (g' : Group T) × (post_requests ts g ≡ ok g')
        × ((i : ℕ) → i < n → get_elem? g'.handlers i ≡ some (held i ++ dealt n i k ts))
  unfolding post_requests
  post_requests-Holds [] g k held v =
      (g, refl, λ i h. v.queues i h ∙ ap (λ x. some x) (sym (append-nil (held i))))
  post_requests-Holds (t ∷ ts) g k held v =
      let (g1, e, w) = post_request-Holds t g k held v in
      let (g2, f, q) = post_requests-Holds ts g1 (k + 1) (more held k t) w in
      (g2, rw (e, post_requests) f, λ i h. q i h ∙ ap (λ x. some x) (more-dealt held k i t ts))

  post_queries-Holds :
      (ts : List T) (g : Group T) (k : ℕ) (held : ℕ → List T)
      → Holds g k held
      → (g' : Group T) × (post_queries ts g ≡ ok g')
        × ((i : ℕ) → i < n → get_elem? g'.handlers i ≡ some (held i ++ dealt n i k ts))
  unfolding post_queries post_query
  post_queries-Holds [] g k held v =
      (g, refl, λ i h. v.queues i h ∙ ap (λ x. some x) (sym (append-nil (held i))))
  post_queries-Holds (t ∷ ts) g k held v =
      let (g1, e, w) = post_next-Holds t g k held v in
      let (g2, f, q) = post_queries-Holds ts g1 (k + 1) (more held k t) w in
      (g2, rw (e, post_queries) f, λ i h. q i h ∙ ap (λ x. some x) (more-dealt held k i t ts))

  new-Holds : Holds (new_group n) 0 (λ i. [])
  unfolding new_group
  new-Holds = record {
    size = length-replicate n [];
    turn = sym (mod-eq_of_lt p);
    queues = λ i h. replicate-get_elem? n i [] h;
  }

  -- A new group of n handlers, where n is not 0, gives what is posted to it to its handlers in turn:
  -- of any sequence of requests or queries, handler i has got exactly those at the places i, i + n, i
  -- + 2 n and so on, in this order.
  pub group-dealt :
      (ts : List T)
      → ((g : Group T) × (post_requests ts (new_group n) ≡ ok g)
          × ((i : ℕ) → i < n → get_elem? g.handlers i ≡ some (dealt n i 0 ts)))
        × ((g : Group T) × (post_queries ts (new_group n) ≡ ok g)
            × ((i : ℕ) → i < n → get_elem? g.handlers i ≡ some (dealt n i 0 ts)))
  group-dealt ts = (
    post_requests-Holds ts (new_group n) 0 (λ i. []) new-Holds,
    post_queries-Holds ts (new_group n) 0 (λ i. []) new-Holds,
  )
