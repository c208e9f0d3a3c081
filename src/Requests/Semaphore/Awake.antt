-- ===== src/Requests/Semaphore/Awake.antt =====
-- No wake-up is lost on a semaphore of libs/Semaphore/Semaphore.cpp.
use eve_industry_planner.Prelude.{
  ℕ, ◌≡◌, Bool, true, false, leb, ◌==◌, arith, Result, ok, throw, ◌>>=◌, Bool-cases, inl, inr,
  require, assertion, ok-injective, subst,
}
use eve_industry_planner.Prelude.Int.{ℤ, sub, nat_leb}
use eve_industry_planner.Requests.Semaphore.{
  Op, release, acquire, acquire_and_do, wait_for, set_to, when, if_then_set_to, wait_and_do,
  wait_and_set_to, to_int, prepare, condition, effect, notifies, Thread, outside, testing, asleep,
  System, wake, put, Step, call, wait, pass, spurious, Reach, start, later,
}

-- A condition that holds of a count holds of every greater one.
abbrev pub IsUpward : (ℤ → Bool) → Type 0
IsUpward p = (c : ℤ) (n : ℕ) → p (sub c n) ≡ true → p c ≡ true

abbrev pub WaitsUpward : Op → Type 0
WaitsUpward (wait_for p) = IsUpward p
WaitsUpward (wait_and_do p f) = IsUpward p
WaitsUpward (wait_and_set_to p n) = IsUpward p
WaitsUpward _ = Unit

abbrev Prepared : Result Op → Type 0
Prepared (ok o) = WaitsUpward o
Prepared (throw e) = Unit

acquired :
    (b : Bool) (n : ℕ) → Prepared ((require b assertion >>= λ _. ok n) >>= λ m. ok (acquire m))
acquired true n = tt
acquired false n = tt

acquired_and_do :
    (b : Bool) (n : ℕ)
    → Prepared ((require b assertion >>= λ _. ok n) >>= λ m. ok (acquire_and_do m))
acquired_and_do true n = tt
acquired_and_do false n = tt

prepared : (o : Op) → WaitsUpward o → Prepared (prepare o)
unfolding prepare to_int
prepared (release n) v = v
prepared (acquire n) v = acquired (leb n _) n
prepared (acquire_and_do n) v = acquired_and_do (leb n _) n
prepared (wait_for p) v = v
prepared (set_to n) v = v
prepared (when p f) v = v
prepared (if_then_set_to p n) v = v
prepared (wait_and_do p f) v = v
prepared (wait_and_set_to p n) v = v

-- what a thread sleeps in, and that it has to
abbrev IsRightly : ℤ → Thread → Type 0
IsRightly c outside = Unit
IsRightly c (testing o) = WaitsUpward o
IsRightly c (asleep o) = WaitsUpward o × (condition o c ≡ false)

enough_sub : (n m : ℕ) (c : ℤ) → nat_leb n (sub c m) ≡ true → nat_leb n c ≡ true
unfolding sub
enough_sub n m c h = ground arith

-- A lower count wakes nobody who waits upward.
condition-sub :
    (o : Op) (c : ℤ) (m : ℕ) → WaitsUpward o → condition o c ≡ false → condition o (sub c m) ≡ false
condition-sub (release n) c m v h = cc
condition-sub (acquire n) c m v h = ground (arith, enough_sub n m c)
condition-sub (acquire_and_do n) c m v h = ground (arith, enough_sub n m c)
condition-sub (wait_for p) c m v h = ground (arith, v c m)
condition-sub (set_to n) c m v h = cc
condition-sub (when p f) c m v h = cc
condition-sub (if_then_set_to p n) c m v h = cc
condition-sub (wait_and_do p f) c m v h = ground (arith, v c m)
condition-sub (wait_and_set_to p n) c m v h = ground (arith, v c m)

sub-IsRightly : (t : Thread) (c : ℤ) (m : ℕ) → IsRightly c t → IsRightly (sub c m) t
sub-IsRightly outside c m v = tt
sub-IsRightly (testing o) c m v = v
sub-IsRightly (asleep o) c m (v, h) = (v, condition-sub o c m v h)

-- An operation that notifies nobody leaves the others rightly asleep.
effect-IsRightly :
    (o : Op) (c c' : ℤ) (t : Thread)
    → effect o c ≡ ok c'
    → notifies o c ≡ false
    → IsRightly c t
    → IsRightly c' t
unfolding effect notifies
effect-IsRightly (release n) c c' t e h v = cc
effect-IsRightly (acquire n) c c' t e h v =
    subst (λ x. IsRightly x t) (ok-injective e) (sub-IsRightly t c n v)
effect-IsRightly (acquire_and_do n) c c' t e h v =
    subst (λ x. IsRightly x t) (ok-injective e) (sub-IsRightly t c n v)
effect-IsRightly (wait_for p) c c' t e h v = subst (λ x. IsRightly x t) (ok-injective e) v
effect-IsRightly (set_to n) c c' t e h v = cc
effect-IsRightly (when p f) c c' t e h v =
    let q : c ≡ c' = ground arith in subst (λ x. IsRightly x t) q v
effect-IsRightly (if_then_set_to p n) c c' t e h v =
    let q : c ≡ c' = ground arith in subst (λ x. IsRightly x t) q v
effect-IsRightly (wait_and_do p f) c c' t e h v = cc
effect-IsRightly (wait_and_set_to p n) c c' t e h v = cc

wake-IsRightly : (t : Thread) (c c' : ℤ) → IsRightly c t → IsRightly c' (wake t)
wake-IsRightly outside c c' v = tt
wake-IsRightly (testing o) c c' v = v
wake-IsRightly (asleep o) c c' (v, h) = v

module _ {allowed : Op → Type 0} (upward : (o : Op) → allowed o → WaitsUpward o) where
  AreRightly : System → Type 0
  AreRightly s = (i : ℕ) → IsRightly s.count (s.threads i)

  put-IsRightly :
      (s : System) (i : ℕ) (t : Thread)
      → AreRightly s
      → IsRightly s.count t
      → (j : ℕ) → IsRightly s.count (put i t s.threads j)
  unfolding AreRightly
  put-IsRightly s i t v h j = elim (Bool-cases (i == j)) [ inl e ↦ rw e h | inr e ↦ rw e (v j) ]

  Step-AreRightly : {s t : System} → Step allowed s t → AreRightly s → AreRightly t
  unfolding AreRightly
  Step-AreRightly {s = s} (call i o o' a q e) v =
      put-IsRightly s i (testing o') v (subst Prepared e (prepared o (upward o a)))
  Step-AreRightly {s = s} (wait i o e c) v =
      put-IsRightly s i (asleep o) v (subst (IsRightly s.count) e (v i), c)
  Step-AreRightly {s = s} (spurious i o e) v =
      put-IsRightly s i (testing o) v (subst (IsRightly s.count) e (v i)).0
  Step-AreRightly {s = s} (pass i o c e h q) v = λ j. elim (Bool-cases (i == j)) [
    | inl x ↦ rw x tt
    | inr x ↦ elim (Bool-cases (notifies o s.count)) [
      | inl n ↦ rw (x, n) (wake-IsRightly (s.threads j) s.count c (v j))
      | inr n ↦ rw (x, n) (effect-IsRightly o s.count c (s.threads j) q n (v j))
    ]
  ]

  Reach-AreRightly : {initial : ℤ} {s : System} → Reach allowed initial s → AreRightly s
  unfolding AreRightly
  Reach-AreRightly start = λ i. tt
  Reach-AreRightly (later r st) = Step-AreRightly st (Reach-AreRightly r)

  -- No wake-up is lost: if all that the threads wait for is still true when the count is larger, a
  -- thread that is asleep in an operation of the semaphore waits for something that does not hold, in
  -- every state that any number of threads reaches.
  pub asleep_rightly :
      {initial : ℤ} {s : System}
      → Reach allowed initial s
      → (i : ℕ) (o : Op) → s.threads i ≡ asleep o
      → condition o s.count ≡ false
  unfolding AreRightly
  asleep_rightly {s = s} r i o e = (subst (IsRightly s.count) e (Reach-AreRightly r i)).1
