-- ===== src/TimerFd/Tests.antt =====
-- A timer of one second, then every half second.
use doppio.Prelude.{◌+◌, ◌-◌, ◌*◌, ◌<◌, ◌≡◌, refl, [], ◌∷◌, some, true, arith}
use doppio.TimerFd.{
  Timespec, Itimerspec, TimerfdBuffer, new_timerfd, read_round, gettime, to_ns, nsec_per_sec,
  tfd_nonblock, update_ticks,
}
use doppio.TimerFd.Ticks.{expirations, Counts, polls, update_ticks-Counts, next_expiry}
use doppio.TimerFd.Calls.{Asks, armed, read_of, read-settime, gettime-settime}

abbrev every_half : Itimerspec
every_half = record {
  it_interval = record { tv_sec = 0; tv_nsec = 500000000 };
  it_value = record { tv_sec = 1; tv_nsec = 0 };
}

abbrev idle : TimerfdBuffer
idle = new_timerfd 1 tfd_nonblock

every_half-Asks : Asks every_half 1000000000 500000000
unfolding to_ns
every_half-Asks = (refl, refl)

-- Two updates before the read: by 2.2 s after the start it has expired three times.
read-settime_example :
    (read_round true 8 2200000007 (polls (armed every_half 7 idle) (900000000 ∷ 1700000000 ∷ []))).0
    ≡ read_of idle.flags (expirations 1000000007 500000000 2200000007)
read-settime_example =
    read-settime every_half 1000000000 500000000 7 2200000007 (900000000 ∷ 1700000000 ∷ []) idle
      every_half-Asks (omega arith) (omega arith) (omega arith, omega arith)
      (omega arith, (omega arith, omega arith))

three_times : expirations 1000000007 500000000 2200000007 ≡ 3
unfolding expirations
three_times = refl

gettime-settime_example :
    (left : Timespec) × ((gettime true 250000007 (armed every_half 7 idle)).1
      ≡ some (record { it_interval = every_half.it_interval; it_value = left }))
    × (left.tv_sec * nsec_per_sec + left.tv_nsec + (250000007 - 7) ≡ 1000000000)
    × (left.tv_nsec < nsec_per_sec)
gettime-settime_example =
    gettime-settime every_half 1000000000 500000000 7 250000007 idle every_half-Asks (omega arith)
      (omega arith) (omega arith, omega arith) (omega arith) (omega arith)

abbrev counting : TimerfdBuffer
counting = record idle { interval_ns = 10; expire_time_ns = 100 }

counting-Counts : Counts 100 10 50 counting
unfolding expirations next_expiry new_timerfd
counting-Counts = (refl, refl, refl)

update_ticks-Counts_example : Counts 100 10 137 (update_ticks counting 137)
update_ticks-Counts_example =
    update_ticks-Counts 100 10 50 137 counting (omega arith) (omega arith)
      (omega arith, omega arith) (omega arith) counting-Counts
