-- ===== src/RunQueue/Choice.antt =====
-- Which thread `sched_dequeue` chooses.
use native.Mathlib.Nat.{mod-eq_of_lt, add-mod_left}
use mathlib.Core.Path.{subst}
use doppio.Prelude.{
  ℕ, zero, suc, ◌+◌, ◌-◌, ◌%◌, ◌^◌, ◌<◌, ◌≤◌, ◌≡◌, ◌≢◌, refl, ap, ◌∙◌, Bool, true, false, not, ◌||◌,
  Option, none, some, List, [], ◌∷◌, inl, inr, get_or_out, set, length, All, ltb, ◌==◌, Bool-cases,
  ◌⊎◌, arith,
}
use doppio.RunQueue.{
  Thread, Mlfq, empty_mlfq, Machine, mlfq_of, steal, start_slice, sched_dequeue, flat,
}
use doppio.RunQueue.Levels.{IsValid}
use doppio.RunQueue.Steps.{Foremost, take_from-cases}
use doppio.RunQueue.Flow.{IsMachine, IsValid-at}

abbrev pub queued : List Mlfq → ℕ → List Thread
queued ms cpu = flat (mlfq_of ms cpu).queues

-- Fewer threads than `thread_count` can count
abbrev pub Countable : Mlfq → Type 0
Countable q = length (flat q.queues) < 2 ^ 32

Countable-at : (ms : List Mlfq) (i : ℕ) → All Countable ms → length (queued ms i) < 2 ^ 32
Countable-at [] i a = omega arith
Countable-at (q ∷ ms) zero (c, a) = c
Countable-at (q ∷ ms) (suc i) (c, a) = Countable-at ms i a

-- The thread `t` is the first one on the queues of the processor `j`, no other one there stands on
-- a level in front of it, and it is taken from them.
abbrev pub TakenFrom : List Mlfq → ℕ → Thread → List Mlfq → Type 0
TakenFrom ms j t ms' =
    (q : Mlfq) × (queued ms j ≡ t ∷ flat q.queues) × Foremost t (flat q.queues) × (ms' ≡ set ms j q)

-- Nothing to take from the processor `j`: it is this one, its lock is not free, or it has no thread.
abbrev pub NothingAt : ℕ → (ℕ → Bool) → List Mlfq → ℕ → Type 0
NothingAt this free ms j = (j ≡ this) ⊎ (free j ≡ false) ⊎ (queued ms j ≡ [])

empty_of-length : (ts : List Thread) → length ts ≡ 0 → ts ≡ []
empty_of-length [] e = refl
empty_of-length (t ∷ ts) e = absurd (omega (arith, e))

skipped :
    (this : ℕ) (free : ℕ → Bool) (ms : List Mlfq) (j : ℕ)
    → All IsValid ms
    → All Countable ms
    → ((j == this) || (mlfq_of ms j).thread_count == 0 || not (free j)) ≡ true
    → NothingAt this free ms j
skipped this free ms j a c e = elim (Bool-cases (j == this)) [
  | inl f ↦ inl (ground arith)
  | inr f ↦ elim (Bool-cases (free j)) [
    | inr g ↦ inr (inl g)
    | inl g ↦
        let num : (mlfq_of ms j).thread_count ≡ 0 = ground arith in
        let (_, _, h) = IsValid-at ms j a in
        inr (inr (empty_of-length (queued ms j) (omega (arith, num, h, Countable-at ms j c))))
  ]
]

module _ (this : ℕ) (free : ℕ → Bool) (ms : List Mlfq) (cores : ℕ) (a : All IsValid ms)
    (c : All Countable ms) where
  abbrev Stolen : Option (Thread × List Mlfq) → Type 0
  Stolen out =
      (j : ℕ) × (t : Thread) × (ms' : List Mlfq) × (out ≡ some (record t { cpu = this }, ms'))
      × (j ≢ this)
      × (free j ≡ true)
      × TakenFrom ms j t ms'

  steal_search :
      (n i : ℕ)
      → ((steal free this cores n i ms ≡ none)
          × ((d : ℕ) → d < n → NothingAt this free ms ((this + 1 + (i + d)) % cores)))
        ⊎ Stolen (steal free this cores n i ms)
  unfolding steal
  steal_search zero i = inl (refl, λ d h. absurd (omega arith))
  steal_search (suc n) i =
      let target : ℕ = (this + 1 + i) % cores in
      let skip : Bool =
        (target == this) || (mlfq_of ms target).thread_count == 0 || not (free target) in
      let goes_on : NothingAt this free ms target
          → ((steal free this cores n (i + 1) ms ≡ none)
              × ((d : ℕ) → d < suc n → NothingAt this free ms ((this + 1 + (i + d)) % cores)))
            ⊎ Stolen (steal free this cores n (i + 1) ms) =
        λ nothing. elim (steal_search n (i + 1)) [
          | inr s ↦ inr s
          | inl (e, all) ↦ inl (e, all_rounds n i nothing all)
        ] in
      elim (Bool-cases skip) [
        | inl e ↦ rw e (goes_on (skipped this free ms target a c e))
        | inr e ↦ elim (take_from-cases (mlfq_of ms target) (IsValid-at ms target a)) [
          | inl (f, empty) ↦ rw (e, f) (goes_on (inr (inr empty)))
          | inr (t, q, f, (front, v, _, lowest)) ↦
              rw (e, f)
                (inr (
                  target,
                  t,
                  set ms target q,
                  refl,
                  (λ same. ground arith),
                  ground arith,
                  (q, front, lowest, refl),
                ))
        ]
      ]
    where
      all_rounds :
          (n i : ℕ)
          → NothingAt this free ms ((this + 1 + i) % cores)
          → ((d : ℕ) → d < n → NothingAt this free ms ((this + 1 + (i + 1 + d)) % cores))
          → (d : ℕ) → d < suc n
          → NothingAt this free ms ((this + 1 + (i + d)) % cores)
      all_rounds n i nothing all zero h =
          let e : this + 1 + i ≡ this + 1 + (i + 0) = omega arith in
          subst (λ (x : ℕ). NothingAt this free ms (x % cores)) e nothing
      all_rounds n i nothing all (suc d) h =
          let e : this + 1 + (i + 1 + d) ≡ this + 1 + (i + suc d) = omega arith in
          subst (λ (x : ℕ). NothingAt this free ms (x % cores)) e (all d (omega arith))

-- The rounds of the loop meet every processor.
round_of :
    (this j cores : ℕ)
    → this < cores
    → j < cores
    → (d : ℕ) × (d < cores) × ((this + 1 + (0 + d)) % cores ≡ j)
round_of this j cores h k = elim (Bool-cases (ltb this j)) [
  | inl e ↦
      let lt : this < j = ground arith in
      let same : this + 1 + (0 + (j - this - 1)) ≡ j = omega arith in
      (j - this - 1, omega arith, ap (λ (x : ℕ). x % cores) same ∙ mod-eq_of_lt k)
  | inr e ↦
      let ge : j ≤ this = ground arith in
      let same : this + 1 + (0 + (cores - this - 1 + j)) ≡ cores + j = omega arith in
      (
        cores - this - 1 + j,
        omega arith,
        ap (λ (x : ℕ). x % cores) same ∙ add-mod_left cores j ∙ mod-eq_of_lt k,
      )
]

-- No thread on a processor that is not there
queued_out : (ms : List Mlfq) (j : ℕ) → length ms ≤ j → queued ms j ≡ []
queued_out ms j h = ap (λ (q : Mlfq). flat q.queues) (get_or_out ms j empty_mlfq h)

-- The three ways of a call of `sched_dequeue`: a thread of this processor, one of another, or none
abbrev pub Picked : ℕ → (ℕ → Bool) → Machine → Option Thread × Machine → Type 0
Picked this free m out =
    ((t : Thread) × (out.0 ≡ some (start_slice t)) × TakenFrom m.mlfqs this t out.1.mlfqs)
    ⊎ ((queued m.mlfqs this ≡ [])
        × (j : ℕ) × (t : Thread) × (out.0 ≡ some (start_slice (record t { cpu = this })))
        × (j ≢ this)
        × (free j ≡ true)
        × TakenFrom m.mlfqs j t out.1.mlfqs)
    ⊎ ((queued m.mlfqs this ≡ []) × (out ≡ (none, m)) × ((j : ℕ) → NothingAt this free m.mlfqs j))

-- `sched_dequeue` on valid queues, one for each core: it takes the first thread of this
-- processor's queues, from the first level that has one; where these are empty, the first thread
-- of another processor whose lock is free, which is moved to this one; it returns no thread only if
-- this processor has none and every other one has none or has its lock taken. The thread gets
-- the whole time slice of its level.
pub sched_dequeue-Picked :
    (this : ℕ) (free : ℕ → Bool) (m : Machine)
    → IsMachine m
    → All Countable m.mlfqs
    → this < m.total_cores
    → Picked this free m (sched_dequeue this free m)
unfolding sched_dequeue
sched_dequeue-Picked this free m (a, len) c lt =
    elim (take_from-cases (mlfq_of m.mlfqs this) (IsValid-at m.mlfqs this a)) [
      | inr (t, q, e, (front, v, _, lowest)) ↦
          rw (e, sched_dequeue) (inl (t, refl, (q, front, lowest, refl)))
      | inl (e, empty) ↦ elim (steal_search this free m.mlfqs m.total_cores a c m.total_cores 0) [
        | inr (j, t, ms, f, other, unlocked, taken) ↦
            rw (e, f, sched_dequeue) (inr (inl (empty, j, t, refl, other, unlocked, taken)))
        | inl (f, all) ↦
            rw (e, f, sched_dequeue)
              (inr (
                inr (
                  empty,
                  refl,
                  λ j. elim (Bool-cases (ltb j m.total_cores)) [
                    | inl g ↦
                        let (d, small, meets) = round_of this j m.total_cores lt (ground arith) in
                        subst (NothingAt this free m.mlfqs) meets (all d small)
                    | inr g ↦ inr (inr (queued_out m.mlfqs j (ground (arith, len))))
                  ],
                )))
      ]
    ]
