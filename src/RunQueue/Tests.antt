-- ===== src/RunQueue/Tests.antt =====
-- Two processors for the theorems.
use doppio.Prelude.{ℕ, ◌+◌, ◌-◌, min, ◌≡◌, refl, inr, pos, true, false, List, [], ◌∷◌, arith}
use doppio.RunQueue.{
  start_slice, ready, Thread, Mlfq, empty_mlfq, Machine, sched_enqueue, sched_boost, sched_dequeue,
}
use doppio.RunQueue.Flow.{
  IsMachine, Single, Proper, total, Call, enqueue, dequeue, boost, run, all_offered, all_given,
  run-Balanced,
}
use doppio.RunQueue.Slice.{slice_of, tick_times, start_slice-tick_times}
use doppio.RunQueue.Choice.{Picked, sched_dequeue-Picked}

abbrev thread : ℕ → ℕ → Thread
thread tid level = record {
  tid = tid;
  state = ready;
  priority = pos level;
  slice_left = 1;
  ticks = 0;
  cpu = 1;
  need_resched = false;
}

-- The second processor has a thread on the second and two on the third level.
abbrev busy : Mlfq
busy = record {
  queues = [] ∷ (thread 7 1 ∷ []) ∷ (thread 8 2 ∷ thread 9 2 ∷ []) ∷ [] ∷ [];
  thread_count = 3;
}

abbrev machine : Machine
machine = record { mlfqs = empty_mlfq ∷ busy ∷ []; total_cores = 2 }

machine-IsMachine : IsMachine machine
machine-IsMachine = (
  (
    (refl, (tt, (tt, (tt, (tt, tt)))), refl),
    ((refl, (tt, ((refl, tt), ((refl, (refl, tt)), (tt, tt)))), refl), tt),
  ),
  refl,
)

abbrev calls : List Call
calls = enqueue 0 (thread 5 3) ∷ boost ∷ dequeue 0 (λ cpu. true) ∷ dequeue 0 (λ cpu. false) ∷ []

calls-Proper : Proper calls machine
unfolding sched_enqueue sched_boost sched_dequeue doppio.RunQueue.take_from
    doppio.RunQueue.pop_first doppio.RunQueue.boost_from doppio.RunQueue.steal
calls-Proper = (omega arith, inr refl, (tt, tt, (omega arith, tt, (omega arith, tt, tt))))

machine-Single : Single machine
machine-Single k = ground arith

run-Balanced_example :
    IsMachine (run calls machine).1
    × Single (run calls machine).1
    × ((run calls machine).1.total_cores ≡ 2)
    × ((k : ℕ)
        → all_offered k calls + total k machine.mlfqs
          ≡ all_given k (run calls machine).0 + total k (run calls machine).1.mlfqs)
run-Balanced_example = run-Balanced calls machine machine-IsMachine machine-Single calls-Proper

-- The first processor takes a thread of the second.
sched_dequeue-Picked_example :
    Picked 0 (λ cpu. true) machine (sched_dequeue 0 (λ cpu. true) machine)
sched_dequeue-Picked_example =
    sched_dequeue-Picked 0 (λ cpu. true) machine machine-IsMachine (omega arith, (omega arith, tt))
      (omega arith)

-- Three of the ten ticks on the second level
start_slice-tick_times_example :
    ((tick_times 3 (start_slice (thread 7 1))).priority ≡ pos 1)
    × ((tick_times 3 (start_slice (thread 7 1))).slice_left ≡ slice_of 1 - 3)
    × ((tick_times 3 (start_slice (thread 7 1))).ticks ≡ 3)
    × ((tick_times (slice_of 1) (start_slice (thread 7 1))).priority ≡ pos (min (1 + 1) 3))
    × ((tick_times (slice_of 1) (start_slice (thread 7 1))).ticks ≡ 0)
    × ((tick_times (slice_of 1) (start_slice (thread 7 1))).need_resched ≡ true)
start_slice-tick_times_example =
    start_slice-tick_times (thread 7 1) 1 3 (λ e. omega arith) refl (omega arith) (omega arith)
