-- ===== src/RunQueue/Flow.antt =====
-- The run queues under any sequence of calls: none of them loses a thread or makes two of it.
use mathlib.Core.Path.{subst}
use native.Mathlib.Nat.{mod-lt}
use doppio.Prelude.{
  ℕ, zero, suc, ◌+◌, ◌%◌, ◌<◌, ◌≤◌, ◌≡◌, refl, sym, ap, ◌∙◌, Bool, not, ◌||◌, Option, none, some,
  List, [], ◌∷◌, inl, inr, set, length, length-set, All, ◌==◌, if◌then◌else◌, Bool-cases, ◌⊎◌,
  arith,
}
use doppio.RunQueue.{
  Thread, Mlfq, empty_mlfq, Machine, mlfq_of, level_of, made_ready, push, sched_enqueue, steal,
  start_slice, sched_dequeue, flat, boost_from, sched_boost,
}
use doppio.RunQueue.Levels.{hit, count, IsValid, level-lt, push-IsValid, push-count}
use doppio.RunQueue.Steps.{Taken, take_from-cases, boost-kept}

-- The run queues are valid, one for each core.
abbrev pub IsMachine : Machine → Type 0
IsMachine m = All IsValid m.mlfqs × (m.total_cores ≡ length m.mlfqs)

-- How often a thread stands on the queues of all processors
abbrev pub total : ℕ → List Mlfq → ℕ
total k [] = 0
total k (q ∷ ms) = count k (flat q.queues) + total k ms

empty-IsValid : IsValid empty_mlfq
empty-IsValid = (refl, (tt, (tt, (tt, (tt, tt)))), refl)

pub IsValid-at : (ms : List Mlfq) (i : ℕ) → All IsValid ms → IsValid (mlfq_of ms i)
IsValid-at [] i a = empty-IsValid
IsValid-at (q ∷ ms) zero (v, a) = v
IsValid-at (q ∷ ms) (suc i) (v, a) = IsValid-at ms i a

IsValid-set :
    (ms : List Mlfq) (i : ℕ) (q : Mlfq) → All IsValid ms → IsValid q → All IsValid (set ms i q)
IsValid-set [] i q a v = tt
IsValid-set (p ∷ ms) zero q (w, a) v = (v, a)
IsValid-set (p ∷ ms) (suc i) q (w, a) v = (w, IsValid-set ms i q a v)

total-set :
    (k i : ℕ) (ms : List Mlfq) (q : Mlfq)
    → i < length ms
    → total k (set ms i q) + count k (flat (mlfq_of ms i).queues)
      ≡ total k ms + count k (flat q.queues)
total-set k i [] q h = absurd (omega arith)
total-set k zero (p ∷ ms) q h = omega arith
total-set k (suc i) (p ∷ ms) q h = omega (arith, total-set k i ms q (omega arith))

-- The queue of a processor after it gave a thread
abbrev Gave : List Mlfq → Thread → List Mlfq → Type 0
Gave ms t ms' =
    All IsValid ms' × (length ms' ≡ length ms) × ((k : ℕ) → total k ms ≡ hit k t + total k ms')

Taken-Gave :
    (ms : List Mlfq) (i : ℕ) (t : Thread) (q : Mlfq)
    → i < length ms
    → All IsValid ms
    → Taken (mlfq_of ms i) t q
    → Gave ms t (set ms i q)
Taken-Gave ms i t q h a (e, v, _, _) = (
  IsValid-set ms i q a v,
  length-set ms i q,
  λ k. omega (arith, total-set k i ms q h, ap (count k) e),
)

pub steal-cases :
    (free : ℕ → Bool) (this cores n i : ℕ) (ms : List Mlfq)
    → this < cores
    → cores ≡ length ms
    → All IsValid ms
    → (steal free this cores n i ms ≡ none)
      ⊎ ((t : Thread) × (ms' : List Mlfq) × (steal free this cores n i ms ≡ some (t, ms'))
          × Gave ms t ms')
unfolding steal
steal-cases free this cores zero i ms lt len a = inl refl
steal-cases free this cores (suc n) i ms lt len a =
    let target : ℕ = (this + 1 + i) % cores in
    let some_core : 0 < cores = omega arith in
    let small : target < length ms = omega (arith, mod-lt (this + 1 + i) some_core) in
    let skip : Bool =
      (target == this) || (mlfq_of ms target).thread_count == 0 || not (free target) in
    elim (Bool-cases skip) [
      | inl e ↦ rw e (steal-cases free this cores n (i + 1) ms lt len a)
      | inr e ↦ elim (take_from-cases (mlfq_of ms target) (IsValid-at ms target a)) [
        | inl (f, _) ↦ rw (e, f) (steal-cases free this cores n (i + 1) ms lt len a)
        | inr (t, q, f, taken) ↦ inr (
          record t { cpu = this },
          set ms target q,
          rw (e, f) refl,
          Taken-Gave ms target t q small a taken,
        )
      ]
    ]

-- A call of `sched_dequeue` on a machine with valid queues
pub dequeue-cases :
    (this : ℕ) (free : ℕ → Bool) (m : Machine)
    → IsMachine m
    → this < m.total_cores
    → (sched_dequeue this free m ≡ (none, m))
      ⊎ ((t : Thread) × (ms : List Mlfq) × (sched_dequeue this free m
            ≡ (some (start_slice t), record m { mlfqs = ms }))
          × Gave m.mlfqs t ms)
unfolding sched_dequeue
dequeue-cases this free m (a, len) lt =
    elim (take_from-cases (mlfq_of m.mlfqs this) (IsValid-at m.mlfqs this a)) [
      | inr (t, q, e, taken) ↦ inr (
        t,
        set m.mlfqs this q,
        rw (e, sched_dequeue) refl,
        Taken-Gave m.mlfqs this t q (omega (arith, len)) a taken,
      )
      | inl (e, _) ↦ elim (steal-cases free this m.total_cores m.total_cores 0 m.mlfqs lt len a) [
        | inl f ↦ inl (rw (e, f, sched_dequeue) refl)
        | inr (t, ms, f, gave) ↦ inr (t, ms, rw (e, f, sched_dequeue) refl, gave)
      ]
    ]

boost_from-kept :
    (n : ℕ) (ms : List Mlfq)
    → All IsValid ms
    → All IsValid (boost_from n ms)
      × (length (boost_from n ms) ≡ length ms)
      × ((k : ℕ) → total k (boost_from n ms) ≡ total k ms)
unfolding boost_from
boost_from-kept zero ms a = (a, refl, λ k. refl)
boost_from-kept (suc n) [] a = (tt, refl, λ k. refl)
boost_from-kept (suc n) (q ∷ ms) (v, a) =
    let (v', c) = boost-kept q v in
    let (a', l, t) = boost_from-kept n ms a in ((v', a'), ap suc l, λ k. omega (arith, c k, t k))

-- A call of the scheduler: on which processor, for which thread, and whose locks are free
pub data Call : Type 0 where
  enqueue : ℕ → Thread → Call
  dequeue : ℕ → (ℕ → Bool) → Call
  boost : Call

abbrev pub perform : Call → Machine → Option Thread × Machine
perform (enqueue this t) m = (none, sched_enqueue this t m)
perform (dequeue this free) m = sched_dequeue this free m
perform boost m = (none, sched_boost m)

abbrev pub OnCore : ℕ → Call → Type 0
OnCore cores (enqueue this t) = this < cores
OnCore cores (dequeue this free) = this < cores
OnCore cores boost = Unit {0}

-- The thread that is enqueued is on no queue; the idle threads never are.
abbrev pub Unqueued : Call → Machine → Type 0
Unqueued (enqueue this t) m = (t.tid ≡ 0) ⊎ (total t.tid m.mlfqs ≡ 0)
Unqueued (dequeue this free) m = Unit {0}
Unqueued boost m = Unit {0}

-- How often a thread is handed in by a call, and handed out; the idle threads are not queued.
abbrev pub offered : ℕ → Call → ℕ
offered k (enqueue this t) = if t.tid == 0 then 0 else hit k t
offered k (dequeue this free) = 0
offered k boost = 0

abbrev pub given : ℕ → Option Thread → ℕ
given k none = 0
given k (some t) = hit k t

abbrev Kept : Machine → Call → Option Thread × Machine → Type 0
Kept m c out =
    IsMachine out.1
    × (out.1.total_cores ≡ m.total_cores)
    × ((k : ℕ) → offered k c + total k m.mlfqs ≡ given k out.0 + total k out.1.mlfqs)

enqueue-Kept :
    (this : ℕ) (t : Thread) (m : Machine)
    → IsMachine m
    → this < m.total_cores
    → Kept m (enqueue this t) (none, sched_enqueue this t m)
unfolding sched_enqueue
enqueue-Kept this t m (a, len) lt = elim (Bool-cases (t.tid == 0)) [
  | inl e ↦ rw e ((a, len), refl, λ k. refl)
  | inr e ↦
      let t' : Thread = made_ready this m.total_cores t in
      let q : Mlfq = mlfq_of m.mlfqs t'.cpu in
      let on_core : t'.cpu < length m.mlfqs = ground (arith, len) in
      let v : IsValid q = IsValid-at m.mlfqs t'.cpu a in
      rw e (
        (
          IsValid-set m.mlfqs t'.cpu (push q t') a
              (push-IsValid q t' (level_of t.priority) refl (level-lt t.priority) v),
          len ∙ sym (length-set m.mlfqs t'.cpu (push q t')),
        ),
        refl,
        λ k. omega (arith, total-set k t'.cpu m.mlfqs (push q t') on_core, push-count k q t' v.0),
      )
]

perform-Kept :
    (c : Call) (m : Machine) → IsMachine m → OnCore m.total_cores c → Kept m c (perform c m)
unfolding sched_boost
perform-Kept (enqueue this t) m v h = enqueue-Kept this t m v h
perform-Kept (dequeue this free) m (a, len) h = elim (dequeue-cases this free m (a, len) h) [
  | inl e ↦ rw e ((a, len), refl, λ k. refl)
  | inr (t, ms, e, (a', l, c)) ↦ rw e ((a', len ∙ sym l), refl, λ k. omega (arith, c k))
]
perform-Kept boost m (a, len) h =
    let (a', l, c) = boost_from-kept m.total_cores m.mlfqs a in
    ((a', len ∙ sym l), refl, λ k. omega (arith, c k))

-- A sequence of calls: the threads handed out, in order, and the machine
abbrev pub run : List Call → Machine → List (Option Thread) × Machine
run [] m = ([], m)
run (c ∷ cs) m = let (out, m') = perform c m in let (outs, m'') = run cs m' in (out ∷ outs, m'')

abbrev pub all_offered : ℕ → List Call → ℕ
all_offered k [] = 0
all_offered k (c ∷ cs) = offered k c + all_offered k cs

abbrev pub all_given : ℕ → List (Option Thread) → ℕ
all_given k [] = 0
all_given k (o ∷ os) = given k o + all_given k os

-- Each call is made on a core, and a thread is enqueued only while it is on no queue.
abbrev pub Proper : List Call → Machine → Type 0
Proper [] m = Unit {0}
Proper (c ∷ cs) m = OnCore m.total_cores c × Unqueued c m × Proper cs (perform c m).1

-- No thread is queued twice.
abbrev pub Single : Machine → Type 0
Single m = (k : ℕ) → total k m.mlfqs ≤ 1

Single-after :
    (c : Call) (m : Machine) (out : Option Thread × Machine)
    → Unqueued c m
    → Single m
    → ((k : ℕ) → offered k c + total k m.mlfqs ≡ given k out.0 + total k out.1.mlfqs)
    → Single out.1
Single-after (enqueue this t) m out fresh once kept k = elim (Bool-cases (t.tid == k)) [
  | inl e ↦
      let at : t.tid ≡ k = ground (arith, e) in
      let none_there : (k ≡ 0) ⊎ (total k m.mlfqs ≡ 0) =
        subst (λ (n : ℕ). (n ≡ 0) ⊎ (total n m.mlfqs ≡ 0)) at fresh in
      elim none_there [
        | inl z ↦
            let idle : offered k (enqueue this t) ≡ 0 = ground (arith, z, at) in
            omega (arith, once k, kept k, idle)
        | inr z ↦
            let one : offered k (enqueue this t) ≤ 1 = ground arith in omega (arith, kept k, z, one)
      ]
  | inr e ↦
      let other : offered k (enqueue this t) ≡ 0 = ground (arith, e) in
      omega (arith, once k, kept k, other)
]
Single-after (dequeue this free) m out fresh once kept k = omega (arith, once k, kept k)
Single-after boost m out fresh once kept k = omega (arith, once k, kept k)

-- Whatever enqueues of threads that are on no queue, dequeues (with any outcomes of the attempts to
-- lock another processor's queue) and boosts the processors make, in any order, from valid queues,
-- one for each core, with no thread queued twice: each thread is handed out or still queued exactly
-- as often as it was queued before or handed in, and no thread is queued twice; the queues stay
-- valid: every thread stands on the level of its priority, and `thread_count` is the number of
-- threads.
pub run-Balanced :
    (calls : List Call) (m : Machine)
    → IsMachine m
    → Single m
    → Proper calls m
    → let (outs, m') = run calls m in
      IsMachine m'
      × Single m'
      × (m'.total_cores ≡ m.total_cores)
      × ((k : ℕ) → all_offered k calls + total k m.mlfqs ≡ all_given k outs + total k m'.mlfqs)
run-Balanced [] m v once h = (v, once, refl, λ k. refl)
run-Balanced (c ∷ cs) m v once (on, fresh, hs) =
    let (v', e, b) = perform-Kept c m v on in
    let m' : Machine = (perform c m).1 in
    let once' : Single m' = Single-after c m (perform c m) fresh once b in
    let (v'', once'', e', b') = run-Balanced cs m' v' once' hs in
    (v'', once'', e' ∙ e, λ k. omega (arith, b k, b' k))
