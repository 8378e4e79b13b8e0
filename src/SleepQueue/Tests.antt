-- ===== src/SleepQueue/Tests.antt =====
-- A sleep queue of three threads.
use doppio.Prelude.{List, [], ◌∷◌, arith}
use doppio.SleepQueue.{Sleeper, thread_sleep, wake_expired, signal_wakeup}
use doppio.SleepQueue.Order.{PutBetween, WakesDue, TakesOne, Sorted, sleep-tick-signal}

abbrev a : Sleeper
a = record { tid = 4; sleep_until = 10 }

abbrev b : Sleeper
b = record { tid = 5; sleep_until = 20 }

abbrev c : Sleeper
c = record { tid = 6; sleep_until = 20 }

abbrev three : List Sleeper
three = a ∷ b ∷ c ∷ []

three-Sorted : Sorted three
three-Sorted = ((omega arith, (omega arith, tt)), ((omega arith, tt), (tt, tt)))

sleep-tick-signal_example :
    PutBetween 20 (record { tid = 7; sleep_until = 20 }) three (thread_sleep 8 7 12 three)
    × WakesDue 15 three (wake_expired 15 three)
    × TakesOne 5 three (signal_wakeup 5 three)
sleep-tick-signal_example = sleep-tick-signal 8 7 12 15 5 three (omega arith) three-Sorted
