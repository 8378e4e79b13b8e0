-- ===== src/TimerFd.antt =====
-- kernel/sys/sys_fd.c, the timer descriptors: the count of expirations, and the calls that arm,
-- query and read a timer. A critical section under the lock of the buffer is one step, and the
-- uptime in nanoseconds is an argument.
pub mod Ticks
pub mod Calls
mod Tests
use doppio.Prelude.{
  ℕ, ◌+◌, ◌-◌, ◌*◌, ◌/◌, ◌%◌, ◌^◌, Bool, true, false, Option, none, some, ltb, leb, ◌==◌,
  if◌then◌else◌, has_flag,
}
use doppio.Errno.{Result, ok, err, Errno, einval, eagain, efault}

abbrev pub tfd_nonblock : ℕ
tfd_nonblock = 0o4000

abbrev pub tfd_timer_abstime : ℕ
tfd_timer_abstime = 1

abbrev pub nsec_per_sec : ℕ
nsec_per_sec = 1000000000

-- `struct timespec`; a negative field is its two's complement in 64 bits.
pub record Timespec : Type 0 where
  pub tv_sec : ℕ
  pub tv_nsec : ℕ

-- `struct itimerspec`
pub record Itimerspec : Type 0 where
  pub it_interval : Timespec
  pub it_value : Timespec

-- `struct timerfd_buffer`
pub record TimerfdBuffer : Type 0 where
  pub clockid : ℕ
  pub flags : ℕ
  pub value : Itimerspec
  pub start_time_ns : ℕ
  pub interval_ns : ℕ
  pub expire_time_ns : ℕ
  pub ticks_count : ℕ
  pub refcnt : ℕ

-- The buffer that `sys_timerfd_create` makes
pub new_timerfd : ℕ → ℕ → TimerfdBuffer
new_timerfd clockid flags =
    let zero_time : Timespec = record { tv_sec = 0; tv_nsec = 0 } in
    record {
      clockid = clockid;
      flags = flags;
      value = record { it_interval = zero_time; it_value = zero_time };
      start_time_ns = 0;
      interval_ns = 0;
      expire_time_ns = 0;
      ticks_count = 0;
      refcnt = 1;
    }

-- `timerfd_update_ticks`
pub update_ticks : TimerfdBuffer → ℕ → TimerfdBuffer
update_ticks tb now_ns =
    if tb.expire_time_ns == 0
    then tb
    else if leb tb.expire_time_ns now_ns
    then if tb.interval_ns == 0
      then record tb { ticks_count = (tb.ticks_count + 1) % 2 ^ 64; expire_time_ns = 0 }
      else record tb {
        ticks_count =
            (tb.ticks_count + (1 + (now_ns - tb.expire_time_ns) / tb.interval_ns) % 2 ^ 64)
            % 2 ^ 64;
        expire_time_ns =
            (tb.expire_time_ns
              + (1 + (now_ns - tb.expire_time_ns) / tb.interval_ns) % 2 ^ 64 * tb.interval_ns)
            % 2 ^ 64;
      }
    else tb

-- How a round of `timerfd_read` ends: it returns the count or an error, or yields and tries again.
pub data Round : Type 0 where
  passed : ℕ → Round
  failed : Errno → Round
  yields : Round

-- `timerfd_read`, one round; `writable` is false where `copy_to_user` fails.
pub read_round : Bool → ℕ → ℕ → TimerfdBuffer → Round × TimerfdBuffer
read_round writable count now_ns tb =
    if ltb count 8
    then (failed einval, tb)
    else let tb' = update_ticks tb now_ns in
      if ltb 0 tb'.ticks_count
      then (
        if writable then passed tb'.ticks_count else failed efault,
        record tb' { ticks_count = 0 },
      )
      else if has_flag tb'.flags tfd_nonblock
      then (failed eagain, tb')
      else (yields, tb')

-- Nanoseconds, in 64 bits
pub to_ns : Timespec → ℕ
to_ns t = (t.tv_sec * nsec_per_sec % 2 ^ 64 + t.tv_nsec) % 2 ^ 64

-- `sys_timerfd_settime` from where it stores the new value on
pub arm : ℕ → Itimerspec → ℕ → TimerfdBuffer → TimerfdBuffer
arm flags new_val now_ns tb =
    if to_ns new_val.it_value == 0
    then record tb { value = new_val; ticks_count = 0; expire_time_ns = 0; interval_ns = 0 }
    else record tb {
      value = new_val;
      ticks_count = 0;
      interval_ns = to_ns new_val.it_interval;
      expire_time_ns =
          if has_flag flags tfd_timer_abstime
          then to_ns new_val.it_value
          else (now_ns + to_ns new_val.it_value) % 2 ^ 64;
      start_time_ns = now_ns;
    }

-- `sys_timerfd_settime` on a timer descriptor, with the old value that is copied to the user.
-- `new` is `none` where `copy_from_user` fails; `old` is `none` for a null pointer, else whether
-- `copy_to_user` succeeds.
pub settime :
    ℕ
    → Option Itimerspec
    → Option Bool
    → ℕ
    → TimerfdBuffer
    → Result ℕ × Option Itimerspec × TimerfdBuffer
settime flags none old now_ns tb = (err efault, none, tb)
settime flags (some new_val) none now_ns tb =
    (ok 0, none, arm flags new_val now_ns (update_ticks tb now_ns))
settime flags (some new_val) (some false) now_ns tb = (err efault, none, update_ticks tb now_ns)
settime flags (some new_val) (some true) now_ns tb =
    let tb' = update_ticks tb now_ns in (ok 0, some tb'.value, arm flags new_val now_ns tb')

-- The time left, as `sys_timerfd_gettime` reports it
pub remaining : TimerfdBuffer → ℕ → ℕ
remaining tb now_ns =
    if tb.expire_time_ns == 0
    then 0
    else if ltb now_ns tb.expire_time_ns
    then tb.expire_time_ns - now_ns
    else 0

-- `sys_timerfd_gettime` on a timer descriptor
pub gettime : Bool → ℕ → TimerfdBuffer → Result ℕ × Option Itimerspec × TimerfdBuffer
gettime writable now_ns tb =
    let tb' = update_ticks tb now_ns in
    let rem_ns = remaining tb' now_ns in
    let curr_val : Itimerspec = record {
      it_interval = tb'.value.it_interval;
      it_value = record { tv_sec = rem_ns / nsec_per_sec; tv_nsec = rem_ns % nsec_per_sec };
    } in
    if writable then (ok 0, some curr_val, tb') else (err efault, none, tb')
