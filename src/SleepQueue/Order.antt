-- ===== src/SleepQueue/Order.antt =====
-- kernel/proc/sched.c: the order of the sleep queue, and the threads that a tick wakes.
use doppio.Prelude.{
  ℕ, Bool, ◌+◌, ◌%◌, ◌^◌, ◌<◌, ◌≤◌, ◌≡◌, refl, ap, ◌⊎◌, ◌≢◌, inl, inr, true, false, List, [], ◌∷◌,
  ◌++◌, ltb, leb, ◌==◌, All, All-map, Bool-cases, arith,
}
use doppio.SleepQueue.{Sleeper, insert, thread_sleep, wake_expired, signal_wakeup}

abbrev pub NotBefore : ℕ → Sleeper → Type 0
NotBefore t x = t ≤ x.sleep_until

abbrev pub Due : ℕ → Sleeper → Type 0
Due now x = x.sleep_until ≤ now

abbrev pub Later : ℕ → Sleeper → Type 0
Later now x = now < x.sleep_until

-- No thread stands behind one that wakes later.
abbrev pub Sorted : List Sleeper → Type 0
Sorted [] = Unit {0}
Sorted (x ∷ xs) = All (NotBefore x.sleep_until) xs × Sorted xs

All-Later : (now t : ℕ) (xs : List Sleeper) → now < t → All (NotBefore t) xs → All (Later now) xs
All-Later now t xs h a = All-map (NotBefore t) (Later now) (λ x b. omega arith) xs a

All-NotBefore : (s t : ℕ) (xs : List Sleeper) → s ≤ t → All (NotBefore t) xs → All (NotBefore s) xs
All-NotBefore s t xs h a = All-map (NotBefore t) (NotBefore s) (λ x b. omega arith) xs a

All-insert :
    (t : ℕ) (s : Sleeper) (xs : List Sleeper)
    → t ≤ s.sleep_until
    → All (NotBefore t) xs
    → All (NotBefore t) (insert s xs)
unfolding insert
All-insert t s [] h a = (h, tt)
All-insert t s (x ∷ xs) h (b, a) = elim (Bool-cases (ltb s.sleep_until x.sleep_until)) [
  | inl front ↦ rw front (h, (b, a))
  | inr behind ↦ rw behind (b, All-insert t s xs h a)
]

insert-Sorted : (s : Sleeper) (xs : List Sleeper) → Sorted xs → Sorted (insert s xs)
unfolding insert
insert-Sorted s [] o = (tt, tt)
insert-Sorted s (x ∷ xs) (a, o) = elim (Bool-cases (ltb s.sleep_until x.sleep_until)) [
  | inl front ↦
      rw front
        ((ground arith, All-NotBefore s.sleep_until x.sleep_until xs (ground arith) a), (a, o))
  | inr behind ↦ rw behind (All-insert x.sleep_until s xs (ground arith) a, insert-Sorted s xs o)
]

abbrev Placed : Sleeper → List Sleeper → Type 0
Placed s xs =
    (before : List Sleeper) × (after : List Sleeper) × (xs ≡ before ++ after)
    × (insert s xs ≡ before ++ (s ∷ after))
    × All (Due s.sleep_until) before
    × All (Later s.sleep_until) after

insert-Placed : (s : Sleeper) (xs : List Sleeper) → Sorted xs → Placed s xs
unfolding insert
insert-Placed s [] o = ([], [], refl, refl, tt, tt)
insert-Placed s (x ∷ xs) (a, o) = elim (Bool-cases (ltb s.sleep_until x.sleep_until)) [
  | inl front ↦ (
    [],
    x ∷ xs,
    refl,
    rw front refl,
    tt,
    (ground arith, All-Later s.sleep_until x.sleep_until xs (ground arith) a),
  )
  | inr behind ↦
      let (before, after, e, f, b, c) = insert-Placed s xs o in
      (
        x ∷ before,
        after,
        ap (λ ys. x ∷ ys) e,
        rw behind (ap (λ ys. x ∷ ys) f),
        (ground arith, b),
        c,
      )
]

-- Where a thread that goes to sleep is put, while the tick count does not wrap: behind all that
-- wake no later, so that threads with the same time keep their order, and before all that wake
-- later; the queue stays ordered.
thread_sleep_place :
    (ticks tid ms : ℕ) (xs : List Sleeper)
    → ticks + ms < 2 ^ 64
    → Sorted xs
    → (before : List Sleeper) × (after : List Sleeper) × (xs ≡ before ++ after)
      × (thread_sleep ticks tid ms xs
          ≡ before ++ (record { tid = tid; sleep_until = ticks + ms } ∷ after))
      × All (Due (ticks + ms)) before
      × All (Later (ticks + ms)) after
      × Sorted (thread_sleep ticks tid ms xs)
unfolding thread_sleep
thread_sleep_place ticks tid ms xs small o =
    let e : (ticks + ms) % 2 ^ 64 ≡ ticks + ms = omega arith in
    let s : Sleeper = record { tid = tid; sleep_until = ticks + ms } in
    let (before, after, split, put, due, later) = insert-Placed s xs o in
    rw e (before, after, split, put, due, later, insert-Sorted s xs o)

-- A tick wakes exactly the threads whose time has come, in the order of the queue, and leaves the
-- others in their order: none is woken early, none that is due is left.
wake_expired_exact :
    (now : ℕ) (xs : List Sleeper)
    → Sorted xs
    → let (ready, rest) = wake_expired now xs in
      (xs ≡ ready ++ rest) × All (Due now) ready × All (Later now) rest × Sorted rest
unfolding wake_expired
wake_expired_exact now [] o = (refl, tt, tt, tt)
wake_expired_exact now (x ∷ xs) (a, o) = elim (Bool-cases (leb x.sleep_until now)) [
  | inl due ↦
      let (e, d, l, s) = wake_expired_exact now xs o in
      rw due (ap (λ ys. x ∷ ys) e, (ground arith, d), l, s)
  | inr early ↦
      rw early (refl, tt, (ground arith, All-Later now x.sleep_until xs (ground arith) a), (a, o))
]

All-rest :
    (t : ℕ) (tid : ℕ) (xs : List Sleeper)
    → All (NotBefore t) xs
    → All (NotBefore t) (signal_wakeup tid xs).1
unfolding signal_wakeup
All-rest t tid [] a = tt
All-rest t tid (x ∷ xs) (b, a) = elim (Bool-cases (x.tid == tid)) [
  | inl hit ↦ rw hit a
  | inr miss ↦ rw miss (b, All-rest t tid xs a)
]

-- A signal takes one entry of the thread out of the sleep queue and keeps the others in their
-- order; where the thread has none, the queue stays as it is. The queue stays ordered.
signal_wakeup_takes :
    (tid : ℕ) (xs : List Sleeper)
    → Sorted xs
    → let (found, rest) = signal_wakeup tid xs in
      Sorted rest
      × (((found ≡ false) × (rest ≡ xs) × All (λ x. x.tid ≢ tid) xs)
          ⊎ ((found ≡ true)
              × ((before : List Sleeper) × (x : Sleeper) × (after : List Sleeper) × (x.tid ≡ tid)
                  × (xs ≡ before ++ (x ∷ after))
                  × (rest ≡ before ++ after))))
unfolding signal_wakeup
signal_wakeup_takes tid [] o = (tt, inl (refl, refl, tt))
signal_wakeup_takes tid (x ∷ xs) (a, o) = elim (Bool-cases (x.tid == tid)) [
  | inl hit ↦ rw hit (o, inr (refl, ([], x, xs, ground arith, refl, refl)))
  | inr miss ↦
      let other : x.tid ≢ tid = λ e. ground arith in
      let (sorted, r) = signal_wakeup_takes tid xs o in
      rw miss (
        (All-rest x.sleep_until tid xs a, sorted),
        elim r [
          | inl (f, same, none_has) ↦ inl (f, ap (λ ys. x ∷ ys) same, (other, none_has))
          | inr (f, (before, y, after, e, split, rest)) ↦
              inr (f, (x ∷ before, y, after, e, ap (λ ys. x ∷ ys) split, ap (λ ys. x ∷ ys) rest))
        ],
      )
]

-- The place that a thread gets, `x` between `before` and `after`
abbrev pub PutBetween : ℕ → Sleeper → List Sleeper → List Sleeper → Type 0
PutBetween time x xs ys =
    (before : List Sleeper) × (after : List Sleeper) × (xs ≡ before ++ after)
    × (ys ≡ before ++ (x ∷ after))
    × All (Due time) before
    × All (Later time) after
    × Sorted ys

-- What a tick makes ready, and what it leaves
abbrev pub WakesDue : ℕ → List Sleeper → List Sleeper × List Sleeper → Type 0
WakesDue now xs (ready, rest) =
    (xs ≡ ready ++ rest) × All (Due now) ready × All (Later now) rest × Sorted rest

-- What a signal finds, and what it leaves
abbrev pub TakesOne : ℕ → List Sleeper → Bool × List Sleeper → Type 0
TakesOne tid xs (found, rest) =
    Sorted rest
    × (((found ≡ false) × (rest ≡ xs) × All (λ x. x.tid ≢ tid) xs)
        ⊎ ((found ≡ true)
            × ((before : List Sleeper) × (x : Sleeper) × (after : List Sleeper) × (x.tid ≡ tid)
                × (xs ≡ before ++ (x ∷ after))
                × (rest ≡ before ++ after))))

-- The three calls on an ordered sleep queue, while the tick count does not wrap: `thread_sleep` puts
-- the thread behind all that wake no later and before all that wake later; a tick wakes exactly the
-- threads whose time has come, in the order of the queue, and leaves the others in theirs; a signal
-- takes one entry of the thread out and keeps the others in their order, and where the thread has
-- none, the queue stays as it is. The queue stays ordered.
pub sleep-tick-signal :
    (ticks tid ms now other : ℕ) (xs : List Sleeper)
    → ticks + ms < 2 ^ 64
    → Sorted xs
    → PutBetween
        (ticks + ms)
        (record { tid = tid; sleep_until = ticks + ms })
        xs
        (thread_sleep ticks tid ms xs)
      × WakesDue now xs (wake_expired now xs)
      × TakesOne other xs (signal_wakeup other xs)
sleep-tick-signal ticks tid ms now other xs small o = (
  thread_sleep_place ticks tid ms xs small o,
  wake_expired_exact now xs o,
  signal_wakeup_takes other xs o,
)
