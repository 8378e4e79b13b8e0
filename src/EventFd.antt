-- ===== src/EventFd.antt =====
-- kernel/sys/sys_fd.c, the event descriptors: the counter, its reads and writes. A critical
-- section under the lock of the buffer is one step.
pub mod Flow
pub mod Wakeups
mod Tests
use doppio.Prelude.{
  ℕ, ◌+◌, ◌-◌, ◌%◌, ◌^◌, Bool, true, false, Option, none, some, List, [], ◌∷◌, ltb, ◌==◌,
  if◌then◌else◌, has_flag,
}
use doppio.WaitQueue.{add_wait_queue, remove_wait_queue, wake_up, wake_up_all}
use doppio.Errno.{Errno, einval, eagain, efault}

abbrev pub efd_nonblock : ℕ
efd_nonblock = 0o4000

abbrev pub efd_semaphore : ℕ
efd_semaphore = 1

-- `struct eventfd_buffer`; `counter` is a `uint64_t`.
pub record EventfdBuffer : Type 0 where
  pub counter : ℕ
  pub flags : ℕ
  pub refcnt : ℕ
  pub waitq : List ℕ

-- The buffer that `sys_eventfd2` makes; `initval` is an `unsigned int`.
pub new_eventfd : ℕ → ℕ → EventfdBuffer
new_eventfd initval flags = record { counter = initval; flags = flags; refcnt = 1; waitq = [] }

-- How a call ends or sleeps: it fails, sleeps and will test again, or passes on a value.
pub data Round : Type 0 where
  failed : Errno → Round
  sleeping : Round
  passed : ℕ → Round

-- `eventfd_read` where the counter is not 0; `writable` is false where `copy_to_user` fails.
pub take_count : Bool → EventfdBuffer → Round × EventfdBuffer
take_count writable eb =
    let value = if has_flag eb.flags efd_semaphore then 1 else eb.counter in
    let rest = if has_flag eb.flags efd_semaphore then (eb.counter + 2 ^ 64 - 1) % 2 ^ 64 else 0 in
    (if writable then passed value else failed efault, record eb { counter = rest })

-- `eventfd_read`, from the test of the counter on
pub read_round : Bool → ℕ → ℕ → EventfdBuffer → Round × List ℕ × EventfdBuffer
read_round writable me count eb =
    if ltb count 8
    then (failed einval, [], eb)
    else if eb.counter == 0
    then if has_flag eb.flags efd_nonblock
      then (failed eagain, [], eb)
      else (sleeping, [], record eb { waitq = add_wait_queue eb.waitq me })
    else let (round, eb') =
        take_count writable (record eb { waitq = remove_wait_queue eb.waitq me }) in
      (round, [], eb')

-- `eventfd_write` of a value that was read from user memory
pub add_count : ℕ → ℕ → EventfdBuffer → Round × List ℕ × EventfdBuffer
add_count me value eb =
    if value == 0xffffffffffffffff
    then (failed einval, [], eb)
    else if ltb ((0xfffffffffffffffe + 2 ^ 64 - eb.counter) % 2 ^ 64) value
    then if has_flag eb.flags efd_nonblock
      then (failed eagain, [], eb)
      else (sleeping, [], record eb { waitq = add_wait_queue eb.waitq me })
    else let (ready, rest) = wake_up (remove_wait_queue eb.waitq me) in
      (passed value, ready, record eb { counter = (eb.counter + value) % 2 ^ 64; waitq = rest })

-- `eventfd_write`; `user` is `none` where `copy_from_user` fails.
pub write_round : Option ℕ → ℕ → ℕ → EventfdBuffer → Round × List ℕ × EventfdBuffer
write_round user me count eb =
    if ltb count 8
    then (failed einval, [], eb)
    else elim user [ none ↦ (failed efault, [], eb) | some value ↦ add_count me value eb ]

-- `eventfd_inactive` on a vnode with a buffer: the threads made ready, whether it is freed, and
-- the buffer
pub inactive : EventfdBuffer → List ℕ × Bool × EventfdBuffer
inactive eb =
    let eb' = record eb { refcnt = eb.refcnt - 1 } in
    if eb'.refcnt == 0
    then ((wake_up_all eb.waitq).0, true, record eb' { waitq = (wake_up_all eb.waitq).1 })
    else ([], false, eb')
