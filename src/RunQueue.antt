-- ===== src/RunQueue.antt =====
-- kernel/proc/sched.c: the run queues of the processors, their levels, and the choice of the
-- next thread. A queue linked through the threads, with its head and tail, is a list: a thread
-- stands on one queue at most. The lock of a queue makes each operation on it one step.
pub mod Levels
pub mod Steps
pub mod Flow
pub mod Choice
pub mod Slice
mod Tests
use doppio.Prelude.{
  ℕ, zero, suc, ◌+◌, ◌-◌, ◌%◌, ◌^◌, ℤ, pos, negsuc, Bool, true, false, not, ◌&&◌, ◌||◌, Option,
  none, some, List, [], ◌∷◌, ◌++◌, map, get_or, set, ltb, leb, ◌==◌, if◌then◌else◌,
}

abbrev pub mlfq_levels : ℕ
mlfq_levels = 4

abbrev pub mlfq_slices : List ℕ
mlfq_slices = 5 ∷ 10 ∷ 20 ∷ 40 ∷ []

pub data ThreadState : Type 0 where
  embryo ready running asleep waiting zombie : ThreadState

-- The fields of `struct thread` that the scheduler reads and writes
pub record Thread : Type 0 where
  pub tid : ℕ
  pub state : ThreadState
  pub priority : ℤ
  pub slice_left : ℕ
  pub ticks : ℕ
  pub cpu : ℕ
  pub need_resched : Bool

pub record Mlfq : Type 0 where
  pub queues : List (List Thread)
  pub thread_count : ℕ

abbrev pub empty_mlfq : Mlfq
empty_mlfq = record { queues = [] ∷ [] ∷ [] ∷ [] ∷ []; thread_count = 0 }

-- `cpu_mlfqs`, up to the number of cores
pub record Machine : Type 0 where
  pub mlfqs : List Mlfq
  pub total_cores : ℕ

abbrev pub mlfq_of : List Mlfq → ℕ → Mlfq
mlfq_of ms cpu = get_or ms cpu empty_mlfq

-- A priority that is not a level counts as 0.
abbrev pub level_of : ℤ → ℕ
level_of (pos n) = if leb mlfq_levels n then 0 else n
level_of (negsuc n) = 0

-- The thread as `sched_enqueue` puts it on a queue
abbrev pub made_ready : ℕ → ℕ → Thread → Thread
made_ready this_cpu cores t = record t {
  cpu = if leb cores t.cpu then this_cpu else t.cpu;
  state = ready;
  priority = pos (level_of t.priority);
}

-- The thread goes to the end of the queue of its level. It is on no queue: the source links the
-- thread itself, and a thread that is queued would lose what follows it there.
abbrev pub push : Mlfq → Thread → Mlfq
push q t =
    let level : ℕ = level_of t.priority in
    record {
      queues = set q.queues level (get_or q.queues level [] ++ (t ∷ []));
      thread_count = (q.thread_count + 1) % 2 ^ 32;
    }

-- `sched_enqueue` of a thread that is on no queue, up to where it asks for a reschedule
pub sched_enqueue : ℕ → Thread → Machine → Machine
sched_enqueue this_cpu t m =
    let t' : Thread = made_ready this_cpu m.total_cores t in
    if t.tid == 0
    then m
    else record m { mlfqs = set m.mlfqs t'.cpu (push (mlfq_of m.mlfqs t'.cpu) t') }

-- What `sched_enqueue` asks for at its end: another processor that is idle is sent an interrupt,
-- this one, if it is idle, schedules.
pub data Resched : Type 0 where
  nothing : Resched
  trigger : ℕ → Resched
  here : Resched

pub resched_after : ℕ → ℕ → (ℕ → Bool) → Thread → Resched
resched_after this_cpu cores is_idle t =
    let cpu : ℕ = (made_ready this_cpu cores t).cpu in
    if t.tid == 0
    then nothing
    else if not (cpu == this_cpu)
    then (if is_idle cpu then trigger cpu else nothing)
    else (if is_idle this_cpu then here else nothing)

-- The loop over the levels: the head of the first queue that is not empty
pub pop_first : List (List Thread) → Option (Thread × List (List Thread))
pop_first [] = none
pop_first ((t ∷ q) ∷ qs) = some (t, q ∷ qs)
pop_first ([] ∷ qs) = elim (pop_first qs) [ none ↦ none | some (t, qs') ↦ some (t, [] ∷ qs') ]

pub take_from : Mlfq → Option (Thread × Mlfq)
take_from q = elim (pop_first q.queues) [
  | none ↦ none
  | some (t, qs) ↦
      some (t, record { queues = qs; thread_count = (q.thread_count + (2 ^ 32 - 1)) % 2 ^ 32 })
]

-- The loop of `sched_dequeue` over the other processors, from its round `i` on, with `n` rounds
-- left; `free` tells whose lock `spin_trylock` takes.
pub steal : (ℕ → Bool) → ℕ → ℕ → ℕ → ℕ → List Mlfq → Option (Thread × List Mlfq)
steal free this_cpu cores zero i ms = none
steal free this_cpu cores (suc n) i ms =
    let target : ℕ = (this_cpu + 1 + i) % cores in
    let rest : Option (Thread × List Mlfq) = steal free this_cpu cores n (i + 1) ms in
    if (target == this_cpu) || (mlfq_of ms target).thread_count == 0 || not (free target)
    then rest
    else elim (take_from (mlfq_of ms target)) [
      | none ↦ rest
      | some (t, q) ↦ some (record t { cpu = this_cpu }, set ms target q)
    ]

-- A thread that gets the processor has a new slice.
abbrev pub start_slice : Thread → Thread
start_slice t = record t {
  priority = pos (level_of t.priority);
  slice_left = get_or mlfq_slices (level_of t.priority) 0;
  ticks = 0;
}

-- `sched_dequeue`: the thread, and the queues
pub sched_dequeue : ℕ → (ℕ → Bool) → Machine → Option Thread × Machine
sched_dequeue this_cpu free m = elim (take_from (mlfq_of m.mlfqs this_cpu)) [
  | some (t, q) ↦ (some (start_slice t), record m { mlfqs = set m.mlfqs this_cpu q })
  | none ↦ elim (steal free this_cpu m.total_cores m.total_cores 0 m.mlfqs) [
    | none ↦ (none, m)
    | some (t, ms) ↦ (some (start_slice t), record m { mlfqs = ms })
  ]
]

-- `sched_boost` of a thread, of the queues of one processor, and of all
abbrev pub boosted : Thread → Thread
boosted t = record t { priority = pos 0; slice_left = 5 }

abbrev pub flat : List (List Thread) → List Thread
flat [] = []
flat (q ∷ qs) = q ++ flat qs

abbrev pub boost_queues : List (List Thread) → List (List Thread)
boost_queues [] = []
boost_queues (q ∷ qs) = (q ++ map boosted (flat qs)) ∷ map (λ (x : List Thread). []) qs

abbrev pub boost_mlfq : Mlfq → Mlfq
boost_mlfq q = record q { queues = boost_queues q.queues }

pub boost_from : ℕ → List Mlfq → List Mlfq
boost_from zero ms = ms
boost_from (suc n) [] = []
boost_from (suc n) (q ∷ ms) = boost_mlfq q ∷ boost_from n ms

pub sched_boost : Machine → Machine
sched_boost m = record m { mlfqs = boost_from m.total_cores m.mlfqs }

-- The loop of `sched_boost` over the sleep queue
abbrev pub boost_sleepers : List Thread → List Thread
boost_sleepers ts = map (λ (t : Thread). record t { priority = pos 0 }) ts

-- The end of `sched_tick`: the time slice of the current thread
abbrev pub below_last : ℤ → Bool
below_last (pos n) = ltb n (mlfq_levels - 1)
below_last (negsuc n) = true

abbrev pub next_priority : ℤ → ℤ
next_priority (pos n) = pos (n + 1)
next_priority (negsuc zero) = pos 0
next_priority (negsuc (suc n)) = negsuc n

abbrev pub schedule : Thread → Thread
schedule t = record t { need_resched = true }

abbrev pub demote : Thread → Thread
demote t = record t {
  priority = if below_last t.priority then next_priority t.priority else t.priority;
  ticks = 0;
  need_resched = true;
}

pub tick_current : Thread → Thread
tick_current t =
    let left : ℕ = t.slice_left - 1 in
    let run : Thread = record t { slice_left = left; ticks = (t.ticks + 1) % 2 ^ 32 } in
    if t.tid == 0 then schedule t else if left == 0 then demote run else run

-- Whether `sched_tick` boosts, and the tick of the last boost after it
pub boost_due : ℕ → ℕ → Bool × ℕ
boost_due now last = if leb 500 ((now + 2 ^ 64 - last) % 2 ^ 64) then (true, now) else (false, last)
