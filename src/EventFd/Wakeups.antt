-- ===== src/EventFd/Wakeups.antt =====
-- Whom the calls on an event counter wake.
use doppio.Prelude.{
  ℕ, ◌+◌, ◌-◌, ◌%◌, ◌^◌, ◌<◌, ◌≡◌, refl, ◌≢◌, inl, inr, true, false, List, [], ◌∷◌, ◌++◌, ltb, ◌==◌,
  has_flag, Bool-cases, arith,
}
use doppio.WaitQueue.{add_wait_queue, remove_wait_queue, is_queued}
use doppio.EventFd.{
  EventfdBuffer, sleeping, passed, take_count, read_round, add_count, efd_nonblock, efd_semaphore,
}

is_queued-append : (q : List ℕ) (t : ℕ) → is_queued (q ++ (t ∷ [])) t ≡ true
unfolding is_queued
is_queued-append [] t = ground arith
is_queued-append (x ∷ q) t = ground (arith, is_queued-append q t)

is_queued-add : (q : List ℕ) (t : ℕ) → is_queued (add_wait_queue q t) t ≡ true
unfolding add_wait_queue
is_queued-add q t = elim (Bool-cases (is_queued q t)) [
  | inl there ↦ rw there there
  | inr absent ↦ rw absent (is_queued-append q t)
]

is_queued-remove :
    (q : List ℕ) (t other : ℕ)
    → t ≢ other
    → is_queued q t ≡ true
    → is_queued (remove_wait_queue q other) t ≡ true
unfolding is_queued remove_wait_queue
is_queued-remove [] t other ne h = h
is_queued-remove (x ∷ q) t other ne h = elim (Bool-cases (x == other)) [
  | inl hit ↦ ground arith
  | inr miss ↦ ground (arith, is_queued-remove q t other ne)
]

module _ (me other v : ℕ) (eb : EventfdBuffer) where
  abbrev pub waiting : EventfdBuffer
  waiting = record eb { waitq = add_wait_queue eb.waitq me }

  -- The buffer after another thread has read the whole counter.
  abbrev pub emptied : EventfdBuffer
  emptied = record waiting { counter = 0; waitq = remove_wait_queue waiting.waitq other }

  writer_sleeps :
      v < 2 ^ 64 - 1
      → has_flag eb.flags efd_nonblock ≡ false
      → eb.counter < 2 ^ 64 - 1
      → 2 ^ 64 - 2 < eb.counter + v
      → add_count me v eb ≡ (sleeping, [], waiting)
  unfolding add_count
  writer_sleeps small blocking bound none_free =
      let other_value : (v == 0xffffffffffffffff) ≡ false = ground arith in
      let short : ltb ((0xfffffffffffffffe + 2 ^ 64 - eb.counter) % 2 ^ 64) v ≡ true =
        ground arith in
      rw (other_value, short, blocking) refl

  reader_empties :
      has_flag eb.flags efd_semaphore ≡ false
      → 0 < eb.counter
      → read_round true other 8 waiting ≡ (passed eb.counter, [], emptied)
  unfolding read_round take_count
  reader_empties whole some_count =
      let nonzero : (eb.counter == 0) ≡ false = ground arith in rw (nonzero, whole) refl

-- A read of an event counter wakes nobody: a writer sleeps on a counter that is too full for its
-- value, another thread then reads the whole counter, so that there is room for any value, no
-- thread is made ready by the read, and the writer is still on the wait queue.
pub read-leaves-writer_asleep :
    (me other v : ℕ) (eb : EventfdBuffer)
    → me ≢ other
    → v < 2 ^ 64 - 1
    → has_flag eb.flags efd_nonblock ≡ false
    → has_flag eb.flags efd_semaphore ≡ false
    → eb.counter < 2 ^ 64 - 1
    → 2 ^ 64 - 2 < eb.counter + v
    → let (round, _, eb1) = add_count me v eb in
      let (round', ready, eb2) = read_round true other 8 eb1 in
      (round ≡ sleeping)
      × (round' ≡ passed eb.counter)
      × (ready ≡ [])
      × (eb2.counter ≡ 0)
      × (is_queued eb2.waitq me ≡ true)
read-leaves-writer_asleep me other v eb ne small blocking whole bound none_free =
    rw
      (
        writer_sleeps me other v eb small blocking bound none_free,
        reader_empties me other v eb whole (omega arith),
      )
      (
        refl,
        refl,
        refl,
        refl,
        is_queued-remove (add_wait_queue eb.waitq me) me other ne (is_queued-add eb.waitq me),
      )
