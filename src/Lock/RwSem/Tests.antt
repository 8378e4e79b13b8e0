-- ===== src/Lock/RwSem/Tests.antt =====
-- A schedule of three threads on a read-write semaphore.
use doppio.Prelude.{ℕ, ◌<◌, ◌≡◌, refl, inl, inr, [], ◌∷◌, arith}
use doppio.Lock.RwSem.{
  System, rwsem_init, down_read, down_write, wake_one, up_read, start, after_down_read,
  after_down_write, after_up_read, to_read, to_write, end_read, Reach, init, next,
}
use doppio.Lock.RwSem.Safety.{writer_excludes, CanProceed, no_lost_wakeup}

abbrev one_reads : System
one_reads = after_down_read 0 start

abbrev writer_waits : System
writer_waits = after_down_write 1 one_reads

abbrev reader_waits : System
reader_waits = after_down_read 2 writer_waits

abbrev released : System
released = after_up_read 0 reader_waits

abbrev written : System
written = after_down_write 1 released

-- A reader that comes after a waiting writer waits too.
reader_waits-queues :
    (reader_waits.sem.read_wait_queue ≡ 2 ∷ []) × (reader_waits.sem.write_wait_queue ≡ 1 ∷ [])
unfolding rwsem_init down_read down_write
reader_waits-queues = (refl, refl)

released_reach : Reach 3 released
unfolding rwsem_init down_read down_write up_read wake_one
released_reach =
    next
      (next
        (next (next init (to_read 0 (omega arith) (inl refl)))
          (to_write 1 (omega arith) (inl refl)))
        (to_read 2 (omega arith) (inl refl)))
      (end_read 0 (omega arith) refl)

written_reach : Reach 3 written
unfolding rwsem_init down_read down_write up_read wake_one
written_reach = next released_reach (to_write 1 (omega arith) (inr refl))

no_lost_wakeup_example : (j : ℕ) × (j < 3) × CanProceed released j
unfolding rwsem_init down_read down_write up_read wake_one
no_lost_wakeup_example = no_lost_wakeup 3 released_reach refl (inl (λ e. cc))

writer_excludes_example : ◌≡◌ {A = ℕ} 1 1
unfolding rwsem_init down_read down_write up_read wake_one
writer_excludes_example =
    writer_excludes 3 1 1 written_reach (omega arith) (omega arith) refl (inr refl)
