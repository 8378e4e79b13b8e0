-- ===== src/SleepQueue.antt =====
-- kernel/proc/sched.c, the sleep queue: the insertion of thread_sleep, the wake-ups of sched_tick
-- and of thread_signal_wakeup. The lock of the queue makes each one step.
pub mod Order
mod Tests
use doppio.Prelude.{
  ℕ, ◌+◌, ◌%◌, ◌^◌, Bool, true, false, List, [], ◌∷◌, ltb, leb, ◌==◌, if◌then◌else◌,
}

-- The fields of `struct thread` that the queue reads
pub record Sleeper : Type 0 where
  pub tid : ℕ
  pub sleep_until : ℕ

-- The insertion of `thread_sleep`, into the queue from its head on
pub insert : Sleeper → List Sleeper → List Sleeper
insert t [] = t ∷ []
insert t (x ∷ xs) =
    let rest = insert t xs in if ltb t.sleep_until x.sleep_until then t ∷ x ∷ xs else x ∷ rest

-- `thread_sleep`, at a number of system ticks. The thread is the current one, which is not in the
-- queue: the source links the thread itself.
pub thread_sleep : ℕ → ℕ → ℕ → List Sleeper → List Sleeper
thread_sleep ticks tid ms q = insert (record { tid = tid; sleep_until = (ticks + ms) % 2 ^ 64 }) q

-- The loop of `sched_tick`: the threads that it puts on the run queues, and the sleep queue
pub wake_expired : ℕ → List Sleeper → List Sleeper × List Sleeper
wake_expired now [] = ([], [])
wake_expired now (x ∷ xs) =
    let (ready, rest) = wake_expired now xs in
    if leb x.sleep_until now then (x ∷ ready, rest) else ([], x ∷ xs)

-- `thread_signal_wakeup` of a thread that sleeps: whether it was found, and the queue
pub signal_wakeup : ℕ → List Sleeper → Bool × List Sleeper
signal_wakeup tid [] = (false, [])
signal_wakeup tid (x ∷ xs) =
    let (found, rest) = signal_wakeup tid xs in
    if x.tid == tid then (true, xs) else (found, x ∷ rest)
