-- ===== src/EventFd/Flow.antt =====
-- An event counter under any interleaving of its readers and writers.
use mathlib.Core.Path.{subst}
use doppio.Prelude.{
  ℕ, ◌+◌, ◌-◌, ◌%◌, ◌^◌, ◌<◌, ◌≡◌, inl, inr, true, false, Option, some, List, ltb, ◌==◌, has_flag,
  Bool-cases, Option-cases, arith,
}
use doppio.WaitQueue.{remove_wait_queue}
use doppio.EventFd.{
  EventfdBuffer, new_eventfd, Round, failed, sleeping, passed, take_count, read_round, add_count,
  write_round, inactive, efd_semaphore,
}

abbrev pub value : Round → ℕ
value (failed e) = 0
value sleeping = 0
value (passed v) = v

-- `Reaches w r eb`: from a new buffer, calls of any threads in any order, into user memory that
-- takes every value, have written values that sum up to `w`, read values that sum up to `r`
-- and left the buffer `eb`. The initial value counts as written.
pub data Reaches : ℕ → ℕ → EventfdBuffer → Type 0 where
  made : (initval flags : ℕ) → initval < 2 ^ 32 → Reaches initval 0 (new_eventfd initval flags)
  by_read :
      (w r : ℕ) (eb : EventfdBuffer) (me count : ℕ) (round : Round) (ready : List ℕ)
      (eb' : EventfdBuffer)
      → Reaches w r eb
      → read_round true me count eb ≡ (round, ready, eb')
      → Reaches w (r + value round) eb'
  by_write :
      (w r : ℕ) (eb : EventfdBuffer) (user : Option ℕ) (me count : ℕ) (round : Round)
      (ready : List ℕ) (eb' : EventfdBuffer)
      → Reaches w r eb
      → ((v : ℕ) → user ≡ some v → v < 2 ^ 64)
      → write_round user me count eb ≡ (round, ready, eb')
      → Reaches (w + value round) r eb'
  by_close :
      (w r : ℕ) (eb : EventfdBuffer) (ready : List ℕ) (eb' : EventfdBuffer)
      → Reaches w r eb
      → inactive eb ≡ (ready, false, eb')
      → Reaches w r eb'

-- The counter stays below its maximum, and holds what was written and not yet read.
abbrev pub Balanced : ℕ → ℕ → EventfdBuffer → Type 0
Balanced w r eb = (eb.counter < 2 ^ 64 - 1) × (w ≡ r + eb.counter)

module _ (w r : ℕ) (eb : EventfdBuffer) (inv : Balanced w r eb) where
  abbrev After : Round × List ℕ × EventfdBuffer → Type 0
  After out = Balanced w (r + value out.0) out.2

  abbrev Grown : Round × List ℕ × EventfdBuffer → Type 0
  Grown out = Balanced (w + value out.0) r out.2

  take_count-Balanced :
      (q : List ℕ)
      → 0 < eb.counter
      → let (round, eb') = take_count true (record eb { waitq = q }) in
        Balanced w (r + value round) eb'
  unfolding take_count
  take_count-Balanced q h = elim (Bool-cases (has_flag eb.flags efd_semaphore)) [
    | inl one ↦ rw one (omega (arith, inv), omega (arith, inv))
    | inr all ↦ rw all (omega arith, omega (arith, inv))
  ]

  read_round-Balanced : (me count : ℕ) → After (read_round true me count eb)
  unfolding read_round
  read_round-Balanced me count = elim (Bool-cases (ltb count 8)) [
    | inl short ↦ rw short (inv.0, omega (arith, inv))
    | inr fits ↦ elim (Bool-cases (eb.counter == 0)) [
      | inl empty ↦ elim (Bool-cases (has_flag eb.flags 0o4000)) [
        | inl fail ↦ rw (fits, empty, fail) (inv.0, omega (arith, inv))
        | inr wait ↦ rw (fits, empty, wait) (inv.0, omega (arith, inv))
      ]
      | inr some_count ↦
          rw (fits, some_count) (take_count-Balanced (remove_wait_queue eb.waitq me) (ground arith))
    ]
  ]

  add_count-Balanced : (me v : ℕ) → v < 2 ^ 64 → Grown (add_count me v eb)
  unfolding add_count
  add_count-Balanced me v small = elim (Bool-cases (v == 0xffffffffffffffff)) [
    | inl top ↦ rw top (inv.0, omega (arith, inv))
    | inr other ↦ elim (Bool-cases (ltb ((0xfffffffffffffffe + 2 ^ 64 - eb.counter) % 2 ^ 64) v)) [
      | inl none_free ↦ elim (Bool-cases (has_flag eb.flags 0o4000)) [
        | inl fail ↦ rw (other, none_free, fail) (inv.0, omega (arith, inv))
        | inr wait ↦ rw (other, none_free, wait) (inv.0, omega (arith, inv))
      ]
      | inr free ↦
          let fits : eb.counter + v < 2 ^ 64 - 1 = ground (arith, inv) in
          rw (other, free) (omega arith, omega (arith, inv))
    ]
  ]

  write_round-Balanced :
      (user : Option ℕ) (me count : ℕ)
      → ((v : ℕ) → user ≡ some v → v < 2 ^ 64)
      → Grown (write_round user me count eb)
  unfolding write_round
  write_round-Balanced user me count small = elim (Bool-cases (ltb count 8)) [
    | inl short ↦ rw short (inv.0, omega (arith, inv))
    | inr fits ↦ elim (Option-cases user) [
      | inl fault ↦ rw (fits, fault) (inv.0, omega (arith, inv))
      | inr (v, given) ↦ rw (fits, given) (add_count-Balanced me v (small v given))
    ]
  ]

  inactive-Balanced : Balanced w r (inactive eb).2
  unfolding inactive
  inactive-Balanced = elim (Bool-cases (eb.refcnt - 1 == 0)) [
    | inl last ↦ rw last inv
    | inr shared ↦ rw shared inv
  ]

-- Nothing is lost in an event counter that is read into user memory which takes every value, and it
-- never wraps: under any interleaving of such reads, writes and closes, in either mode, what was
-- written (with the initial value) is what was read plus what is in the counter, which stays at most
-- 2^64 - 2.
pub Reaches-Balanced : (w r : ℕ) (eb : EventfdBuffer) → Reaches w r eb → Balanced w r eb
unfolding new_eventfd
Reaches-Balanced _ _ _ (made initval flags small) = (omega arith, omega arith)
Reaches-Balanced _ _ _ (by_read w r eb me count round ready eb' before e) =
    let inv : Balanced w r eb = Reaches-Balanced w r eb before in
    subst (λ out. Balanced w (r + value out.0) out.2) e (read_round-Balanced w r eb inv me count)
Reaches-Balanced _ _ _ (by_write w r eb user me count round ready eb' before small e) =
    let inv : Balanced w r eb = Reaches-Balanced w r eb before in
    subst (λ out. Balanced (w + value out.0) r out.2) e
      (write_round-Balanced w r eb inv user me count small)
Reaches-Balanced _ _ _ (by_close w r eb ready eb' before e) =
    let inv : Balanced w r eb = Reaches-Balanced w r eb before in
    subst (λ out. Balanced w r out.2) e (inactive-Balanced w r eb inv)
