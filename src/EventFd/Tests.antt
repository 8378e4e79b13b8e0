-- ===== src/EventFd/Tests.antt =====
-- Runs of an event counter.
use doppio.Prelude.{◌≡◌, refl, true, some, [], arith}
use doppio.WaitQueue.{is_queued, remove_wait_queue, wake_up}
use doppio.EventFd.{
  EventfdBuffer, sleeping, passed, new_eventfd, read_round, write_round, add_count, take_count,
}
use doppio.EventFd.Flow.{Reaches, made, by_read, by_write, Balanced, Reaches-Balanced}
use doppio.EventFd.Wakeups.{read-leaves-writer_asleep}

-- Four is written on top of three, then read in semaphore mode: one is read, six are left.
abbrev six : EventfdBuffer
six = record { counter = 6; flags = 1; refcnt = 1; waitq = [] }

one_read : Reaches 7 1 six
unfolding new_eventfd write_round add_count read_round take_count wake_up remove_wait_queue
one_read =
    by_read 7 0 (record six { counter = 7 }) 9 8 (passed 1) [] six
      (by_write 3 0 (new_eventfd 3 1) (some 4) 8 8 (passed 4) [] (record six { counter = 7 })
        (made 3 1 (omega arith)) (λ v e. ground arith) refl)
      refl

Reaches-Balanced_example : Balanced 7 1 six
Reaches-Balanced_example = Reaches-Balanced 7 1 six one_read

abbrev nearly_full : EventfdBuffer
nearly_full = record { counter = 18446744073709551613; flags = 0; refcnt = 1; waitq = [] }

read-leaves-writer_asleep_example :
    let (round, _, eb1) = add_count 7 5 nearly_full in
    let (round', ready, eb2) = read_round true 8 8 eb1 in
    (round ≡ sleeping)
    × (round' ≡ passed nearly_full.counter)
    × (ready ≡ [])
    × (eb2.counter ≡ 0)
    × (is_queued eb2.waitq 7 ≡ true)
read-leaves-writer_asleep_example =
    read-leaves-writer_asleep 7 8 5 nearly_full (λ e. ground arith) (omega arith) refl refl
      (omega arith) (omega arith)
