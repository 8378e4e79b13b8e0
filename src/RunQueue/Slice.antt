-- ===== src/RunQueue/Slice.antt =====
-- How long a thread runs before it moves to the next level.
use doppio.Prelude.{
  ℕ, zero, suc, ◌+◌, ◌-◌, ◌%◌, ◌^◌, ◌<◌, ◌≤◌, ◌≡◌, ◌≢◌, refl, ap, ◌∙◌, min, pos, true, false,
  get_or, ◌==◌, if◌then◌else◌, arith,
}
use doppio.RunQueue.{
  mlfq_levels, mlfq_slices, Thread, level_of, below_last, next_priority, start_slice, demote,
  tick_current,
}
use doppio.RunQueue.Levels.{level-own}

abbrev pub slice_of : ℕ → ℕ
slice_of level = get_or mlfq_slices level 0

-- The thread after `k` ticks in which it is the current one
abbrev pub tick_times : ℕ → Thread → Thread
tick_times zero t = t
tick_times (suc k) t = tick_current (tick_times k t)

abbrev running_for : ℕ → ℕ → Thread → Thread
running_for left ran t = record t { slice_left = left; ticks = ran }

tick_runs :
    (t : Thread)
    → t.tid ≢ 0
    → 1 < t.slice_left
    → tick_current t ≡ running_for (t.slice_left - 1) ((t.ticks + 1) % 2 ^ 32) t
unfolding tick_current
tick_runs t h more =
    let e : (t.tid == 0) ≡ false = ground arith in
    let f : ((t.slice_left - 1) == 0) ≡ false = ground arith in rw (e, f) refl

tick_ends :
    (t : Thread)
    → t.tid ≢ 0
    → t.slice_left ≡ 1
    → tick_current t ≡ demote (running_for (t.slice_left - 1) ((t.ticks + 1) % 2 ^ 32) t)
unfolding tick_current
tick_ends t h last =
    let e : (t.tid == 0) ≡ false = ground arith in
    let f : ((t.slice_left - 1) == 0) ≡ true = ground arith in rw (e, f) refl

slice_bounds : (n : ℕ) → n < mlfq_levels → (1 ≤ slice_of n) × (slice_of n < 2 ^ 32)
slice_bounds zero h = (omega arith, omega arith)
slice_bounds (suc zero) h = (omega arith, omega arith)
slice_bounds (suc (suc zero)) h = (omega arith, omega arith)
slice_bounds (suc (suc (suc zero))) h = (omega arith, omega arith)
slice_bounds (suc (suc (suc (suc n)))) h = absurd (omega arith)

ticks_within :
    (t : Thread) (s k : ℕ)
    → t.tid ≢ 0
    → s < 2 ^ 32
    → k < s
    → tick_times k (running_for s 0 t) ≡ running_for (s - k) k t
ticks_within t s zero h b lt =
    let e : s ≡ s - 0 = omega arith in ap (λ (n : ℕ). running_for n 0 t) e
ticks_within t s (suc k) h b lt =
    let left : s - k - 1 ≡ s - suc k = omega arith in
    let ran : (k + 1) % 2 ^ 32 ≡ suc k = omega arith in
    ap tick_current (ticks_within t s k h b (omega arith))
    ∙ tick_runs (running_for (s - k) k t) h (omega arith)
    ∙ ap (λ (n : ℕ). running_for n ((k + 1) % 2 ^ 32) t) left
    ∙ ap (λ (n : ℕ). running_for (s - suc k) n t) ran

next_level :
    (n : ℕ)
    → n < mlfq_levels
    → (if below_last (pos n) then next_priority (pos n) else pos n) ≡ pos (min (n + 1) 3)
next_level n h = ground arith

-- A thread that is not an idle one, on a level, as `sched_dequeue` starts its slice: for fewer
-- ticks than the slice of the level has, it stays on the level, with the rest of its slice and its
-- ticks counted; the tick that ends the slice moves it to the next level, or leaves it on the
-- last one, starts its count of ticks anew and asks for a reschedule.
pub start_slice-tick_times :
    (t : Thread) (n k : ℕ)
    → t.tid ≢ 0
    → t.priority ≡ pos n
    → n < mlfq_levels
    → k < slice_of n
    → let during : Thread = tick_times k (start_slice t) in
      let after : Thread = tick_times (slice_of n) (start_slice t) in
      (during.priority ≡ pos n)
      × (during.slice_left ≡ slice_of n - k)
      × (during.ticks ≡ k)
      × (after.priority ≡ pos (min (n + 1) 3))
      × (after.ticks ≡ 0)
      × (after.need_resched ≡ true)
start_slice-tick_times t n k h e lt less =
    let u : Thread = record t { priority = pos n } in
    let s : ℕ = slice_of n in
    let (some_slice, bound) = slice_bounds n lt in
    let own : level_of t.priority ≡ n = ap level_of e ∙ level-own n lt in
    let start : start_slice t ≡ running_for s 0 u =
      ap (λ (m : ℕ). record t { priority = pos m; slice_left = slice_of m; ticks = 0 }) own in
    let within : tick_times k (start_slice t) ≡ running_for (s - k) k u =
      ap (tick_times k) start ∙ ticks_within u s k h bound less in
    let whole : s ≡ suc (s - 1) = omega arith in
    let end : tick_times s (start_slice t)
        ≡ demote (running_for (s - (s - 1) - 1) ((s - 1 + 1) % 2 ^ 32) u) =
      ap (tick_times s) start
      ∙ ap (λ (m : ℕ). tick_times m (running_for s 0 u)) whole
      ∙ ap tick_current (ticks_within u s (s - 1) h bound (omega arith))
      ∙ tick_ends (running_for (s - (s - 1)) (s - 1) u) h (omega arith) in
    (
      ap (λ (x : Thread). x.priority) within,
      ap (λ (x : Thread). x.slice_left) within,
      ap (λ (x : Thread). x.ticks) within,
      ap (λ (x : Thread). x.priority) end ∙ next_level n lt,
      ap (λ (x : Thread). x.ticks) end,
      ap (λ (x : Thread). x.need_resched) end,
    )
