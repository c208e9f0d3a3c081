-- ===== src/Requests/Semaphore.antt =====
-- libs/Semaphore/Semaphore.cpp: a number behind a mutex and a condition variable. An operation holds the
-- mutex from its start to its end or until it waits; where its condition does not hold it sleeps, until
-- a `notify_all` or a spurious wake-up makes it test the condition again.
pub mod Awake
use eve_industry_planner.Prelude.{
  ℕ, ◌+◌, ◌-◌, ◌^◌, ◌<◌, ◌≡◌, Bool, true, false, ltb, leb, ◌==◌, if◌then◌else◌, List, [], ◌∷◌,
  Result, ok, throw, ◌>>=◌, ◌>>◌, assertion, undefined, require,
}
use eve_industry_planner.Prelude.Int.{ℤ, pos, negsuc, pos_part, add, sub, nat_leb}

-- The operations, each with what it is called with. `wait_for` and `when` take functions of the count.
pub data Op : Type 0 where
  release : ℕ → Op
  acquire : ℕ → Op
  acquire_and_do : ℕ → Op
  wait_for : (ℤ → Bool) → Op
  set_to : ℤ → Op
  when : (ℤ → Bool) → (ℤ → ℤ) → Op
  if_then_set_to : (ℤ → Bool) → ℤ → Op
  wait_and_do : (ℤ → Bool) → (ℤ → ℤ) → Op
  wait_and_set_to : (ℤ → Bool) → ℤ → Op

-- `to_int`
unfoldable pub to_int : ℕ → Result ℕ
to_int n = require (leb n (2 ^ 63 - 1)) assertion >>= λ _. ok n

-- What an operation does before it takes the mutex.
unfoldable pub prepare : Op → Result Op
prepare (acquire n) = to_int n >>= λ m. ok (acquire m)
prepare (acquire_and_do n) = to_int n >>= λ m. ok (acquire_and_do m)
prepare o = ok o

-- what `condition.wait` waits for; an operation that does not wait can always go on
abbrev pub condition : Op → ℤ → Bool
condition (release n) count = true
condition (acquire n) count = nat_leb n count
condition (acquire_and_do n) count = nat_leb n count
condition (wait_for p) count = p count
condition (set_to n) count = true
condition (when p f) count = true
condition (if_then_set_to p n) count = true
condition (wait_and_do p f) count = p count
condition (wait_and_set_to p n) count = p count

-- The count after the operation, whose condition holds. The sum of `release` is undefined where it
-- leaves `std::int64_t`; the differences of `acquire` are not negative.
unfoldable pub effect : Op → ℤ → Result ℤ
effect (release n) count = do
  m ← to_int n
  let sum = add count m
  require (ltb (pos_part sum) (2 ^ 63)) undefined
  ok sum
effect (acquire n) count = ok (sub count n)
effect (acquire_and_do n) count = ok (sub count n)
effect (wait_for p) count = ok count
effect (set_to n) count = ok n
effect (when p f) count = ok (if p count then f count else count)
effect (if_then_set_to p n) count = ok (if p count then n else count)
effect (wait_and_do p f) count = ok (f count)
effect (wait_and_set_to p n) count = ok n

-- whether `notify_all` is called
unfoldable pub notifies : Op → ℤ → Bool
notifies (release n) count = true
notifies (acquire n) count = false
notifies (acquire_and_do n) count = false
notifies (wait_for p) count = false
notifies (set_to n) count = true
notifies (when p f) count = p count
notifies (if_then_set_to p n) count = p count
notifies (wait_and_do p f) count = true
notifies (wait_and_set_to p n) count = true

-- Where a thread is: outside, about to test the condition of an operation, or asleep in it.
pub data Thread : Type 0 where
  outside : Thread
  testing : Op → Thread
  asleep : Op → Thread

pub record System : Type 0 where
  pub count : ℤ
  pub threads : ℕ → Thread

abbrev pub wake : Thread → Thread
wake outside = outside
wake (testing o) = testing o
wake (asleep o) = testing o

abbrev pub put : ℕ → Thread → (ℕ → Thread) → ℕ → Thread
put i t ts j = if i == j then t else ts j

-- all threads after thread i has left its operation
abbrev pub left : ℕ → Bool → (ℕ → Thread) → ℕ → Thread
left i notified ts j = if i == j then outside else if notified then wake (ts j) else ts j

-- One step of one thread, where the threads call only the operations that are allowed.
pub data Step (allowed : Op → Type 0) (s : System) : System → Type 0 where
  call :
      (i : ℕ) (o o' : Op)
      → allowed o
      → s.threads i ≡ outside
      → prepare o ≡ ok o'
      → Step allowed s (record s { threads = put i (testing o') s.threads })
  wait :
      (i : ℕ) (o : Op)
      → s.threads i ≡ testing o
      → condition o s.count ≡ false
      → Step allowed s (record s { threads = put i (asleep o) s.threads })
  pass :
      (i : ℕ) (o : Op) (count : ℤ)
      → s.threads i ≡ testing o
      → condition o s.count ≡ true
      → effect o s.count ≡ ok count
      → Step allowed s (record { count = count; threads = left i (notifies o s.count) s.threads })
  spurious :
      (i : ℕ) (o : Op)
      → s.threads i ≡ asleep o
      → Step allowed s (record s { threads = put i (testing o) s.threads })

-- All threads start outside.
pub data Reach (allowed : Op → Type 0) (initial : ℤ) : System → Type 0 where
  start : Reach allowed initial (record { count = initial; threads = λ i. outside })
  later : {s t : System} → Reach allowed initial s → Step allowed s t → Reach allowed initial t
