-- ===== src/Lock/RwLock.antt =====
-- `rwlock_t` of include/kernel/lock.h. Each round of a loop is a load of `val` and a
-- compare-and-swap; `continue` in a `do` loop goes on to its condition, here the compare-and-swap.
mod Laws
mod Tests
use doppio.Prelude.{
  ℕ, ◌+◌, ◌-◌, ◌%◌, ◌/◌, ◌^◌, Bool, true, false, not, Option, none, some, ◌==◌, if◌then◌else◌,
}

-- Both fields are `uint32_t`.
pub record RwLock : Type 0 where
  pub val : ℕ
  pub write_wanted : ℕ

pub rwlock_init : RwLock
rwlock_init = record { val = 0; write_wanted = 0 }

abbrev pub write_bit : ℕ
write_bit = 2 ^ 31

-- `__sync_bool_compare_and_swap(&lock->val, expected, v)` on the lock as it stands then.
pub compare_and_swap : RwLock → ℕ → ℕ → Option RwLock
compare_and_swap now expected v =
    if now.val == expected then some (record now { val = v % 2 ^ 32 }) else none

-- A round of `read_lock`: `loaded` is the lock at the load of `val`, `checked` at the load of
-- `write_wanted`, and `now` at the condition. `none` is another round.
pub read_lock : RwLock → RwLock → RwLock → Option RwLock
read_lock loaded checked now =
    let expected = loaded.val in
    if expected / write_bit % 2 == 1
    then compare_and_swap now expected (expected + 1)
    else if not (checked.write_wanted == 0)
    then compare_and_swap now expected (expected + 1)
    else compare_and_swap now expected (expected + 1)

pub read_unlock : RwLock → RwLock
read_unlock l = record l { val = (l.val + 2 ^ 32 - 1) % 2 ^ 32 }

-- The store before the loop of `write_lock`.
pub want_write : RwLock → RwLock
want_write l = record l { write_wanted = 1 }

-- A round of `write_lock`. The store to `write_wanted` after the loop, which follows the
-- compare-and-swap that takes the lock, is one step with it.
pub write_lock : RwLock → RwLock → Option RwLock
write_lock loaded now =
    let entered : Option RwLock =
      if not (loaded.val == 0)
      then compare_and_swap now 0 write_bit
      else compare_and_swap now 0 write_bit in
    elim entered [ none ↦ none | some l ↦ some (record l { write_wanted = 0 }) ]

pub write_unlock : RwLock → RwLock
write_unlock l = record l { val = 0 }
