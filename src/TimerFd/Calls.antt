-- ===== src/TimerFd/Calls.antt =====
-- A timer that is armed, called any number of times, and then read or queried.
use doppio.Prelude.{
  ℕ, ◌+◌, ◌-◌, ◌*◌, ◌/◌, ◌%◌, ◌^◌, ◌<◌, ◌≤◌, ◌≡◌, refl, ap, ◌∙◌, sym, inl, inr, true, false, none,
  some, List, ltb, ◌==◌, if◌then◌else◌, has_flag, Bool-cases, arith,
}
use doppio.Errno.{ok, eagain}
use doppio.TimerFd.{
  Timespec, Itimerspec, TimerfdBuffer, update_ticks, Round, passed, failed, yields, read_round,
  to_ns, arm, settime, remaining, gettime, tfd_nonblock, nsec_per_sec,
}
use doppio.TimerFd.Ticks.{
  expirations, Counts, InRange, Ascending, polls, polls-Counts, polls-flags, update_ticks-Counts,
  update_ticks_kept, before_first,
}

-- A new value whose nanoseconds are `wait` and then `interval`.
abbrev pub Asks : Itimerspec → ℕ → ℕ → Type 0
Asks new_val wait interval =
    (to_ns new_val.it_value ≡ wait) × (to_ns new_val.it_interval ≡ interval)

-- The buffer after a relative `sys_timerfd_settime` with no pointer for the old value.
abbrev pub armed : Itimerspec → ℕ → TimerfdBuffer → TimerfdBuffer
armed new_val start tb = (settime 0 (some new_val) none start tb).2

module _ (new_val : Itimerspec) (wait interval start : ℕ) (tb : TimerfdBuffer)
    (asks : Asks new_val wait interval) (waits : 0 < wait) (small : start + wait < 2 ^ 62) where
  armed-Counts : Counts (start + wait) interval start (armed new_val start tb)
  unfolding settime arm
  armed-Counts =
      let set : (to_ns new_val.it_value == 0) ≡ false = ground arith in
      let (c, n) = before_first (start + wait) interval (omega arith) start (omega arith) in
      rw set (asks.1, sym c, omega (arith, asks, n))

  armed_kept :
      ((armed new_val start tb).flags ≡ tb.flags) × ((armed new_val start tb).value ≡ new_val)
  unfolding settime arm
  armed_kept =
      let set : (to_ns new_val.it_value == 0) ≡ false = ground arith in
      rw set ((update_ticks_kept tb start).0, refl)

read_round_lem :
    (now : ℕ) (tb : TimerfdBuffer)
    → (read_round true 8 now tb).0 ≡ (
        if ltb 0 (update_ticks tb now).ticks_count
        then passed (update_ticks tb now).ticks_count
        else if has_flag (update_ticks tb now).flags tfd_nonblock
        then failed eagain
        else yields)
unfolding read_round
read_round_lem now tb = elim (Bool-cases (ltb 0 (update_ticks tb now).ticks_count)) [
  | inl some_ticks ↦ rw some_ticks refl
  | inr none_yet ↦ elim (Bool-cases (has_flag (update_ticks tb now).flags tfd_nonblock)) [
    | inl fail ↦ rw (none_yet, fail) refl
    | inr again ↦ rw (none_yet, again) refl
  ]
]

-- What a read gives that finds `n` expirations.
abbrev pub read_of : ℕ → ℕ → Round
read_of flags n =
    if ltb 0 n then passed n else if has_flag flags tfd_nonblock then failed eagain else yields

-- A timer is armed to expire after `wait` and then every `interval` (once, for 0), its ticks are
-- updated at any times after that, and then it is read at `end` into
-- user memory that takes the number: the read gives the number of
-- expirations from the first to `end`, or, where there are none, EAGAIN or another round. It
-- does not matter how often the ticks were updated between. All times are below 2^62 ns.
pub read-settime :
    (new_val : Itimerspec) (wait interval start end : ℕ) (ts : List ℕ) (tb : TimerfdBuffer)
    → Asks new_val wait interval
    → 0 < wait
    → start + wait < 2 ^ 62
    → InRange interval end
    → Ascending start ts end
    → (read_round true 8 end (polls (armed new_val start tb) ts)).0
      ≡ read_of tb.flags (expirations (start + wait) interval end)
read-settime new_val wait interval start end ts tb asks waits small r a =
    let tb0 : TimerfdBuffer = armed new_val start tb in
    let tb1 : TimerfdBuffer = polls tb0 ts in
    let (last, l, counts) =
      polls-Counts (start + wait) interval start end ts tb0 (omega arith) small r a
        (armed-Counts new_val wait interval start tb asks waits small) in
    let (_, c, _) =
      update_ticks-Counts (start + wait) interval last end tb1 (omega arith) small r l counts in
    let f : (update_ticks tb1 end).flags ≡ tb.flags =
      (update_ticks_kept tb1 end).0
      ∙ polls-flags tb0 ts
      ∙ (armed_kept new_val wait interval start tb asks waits small).0 in
    read_round_lem end tb1
    ∙ ap (λ n. read_of (update_ticks tb1 end).flags n) c
    ∙ ap (λ g. read_of g (expirations (start + wait) interval end)) f

gettime_lem :
    (now : ℕ) (tb : TimerfdBuffer)
    → gettime true now tb ≡ (
      ok 0,
      some (record {
        it_interval = (update_ticks tb now).value.it_interval;
        it_value = record {
          tv_sec = remaining (update_ticks tb now) now / nsec_per_sec;
          tv_nsec = remaining (update_ticks tb now) now % nsec_per_sec;
        };
      }),
      update_ticks tb now,
    )
unfolding gettime
gettime_lem now tb = refl

remaining_early :
    (tb : TimerfdBuffer) (now : ℕ)
    → now < tb.expire_time_ns
    → remaining tb now ≡ tb.expire_time_ns - now
unfolding remaining
remaining_early tb now h = ground arith

-- A timer is queried before its first expiration, at `now`, with user memory that takes the result
-- and times below 2^62 ns: `sys_timerfd_gettime` reports the
-- interval that was set, seconds and nanoseconds that make up what is left of `wait`, and less
-- than a second of nanoseconds.
pub gettime-settime :
    (new_val : Itimerspec) (wait interval start now : ℕ) (tb : TimerfdBuffer)
    → Asks new_val wait interval
    → 0 < wait
    → start + wait < 2 ^ 62
    → InRange interval now
    → start ≤ now
    → now < start + wait
    → (left : Timespec) × ((gettime true now (armed new_val start tb)).1
        ≡ some (record { it_interval = new_val.it_interval; it_value = left }))
      × (left.tv_sec * nsec_per_sec + left.tv_nsec + (now - start) ≡ wait)
      × (left.tv_nsec < nsec_per_sec)
gettime-settime new_val wait interval start now tb asks waits small r l early =
    let tb0 : TimerfdBuffer = armed new_val start tb in
    let tb1 : TimerfdBuffer = update_ticks tb0 now in
    let (_, _, n) =
      update_ticks-Counts (start + wait) interval start now tb0 (omega arith) small r l
        (armed-Counts new_val wait interval start tb asks waits small) in
    let at : tb1.expire_time_ns ≡ start + wait =
      n ∙ (before_first (start + wait) interval (omega arith) now early).1 in
    let left : remaining tb1 now ≡ start + wait - now =
      remaining_early tb1 now (omega arith) ∙ omega arith in
    let value : tb1.value ≡ new_val =
      (update_ticks_kept tb0 now).1
      ∙ (armed_kept new_val wait interval start tb asks waits small).1 in
    (
      record {
        tv_sec = remaining tb1 now / nsec_per_sec;
        tv_nsec = remaining tb1 now % nsec_per_sec;
      },
      ap (λ out. out.1) (gettime_lem now tb0)
          ∙ ap
              (λ (v : Itimerspec). some (record {
                it_interval = v.it_interval;
                it_value = record {
                  tv_sec = remaining tb1 now / nsec_per_sec;
                  tv_nsec = remaining tb1 now % nsec_per_sec;
                };
              }))
              value,
      omega arith,
      omega arith,
    )
