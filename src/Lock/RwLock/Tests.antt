-- ===== src/Lock/RwLock/Tests.antt =====
-- The read-write spin lock at concrete locks.
use doppio.Prelude.{◌+◌, ◌-◌, ◌^◌, ◌≡◌, refl, ◌≢◌, ◌⊎◌, none, some}
use doppio.Lock.RwLock.{
  RwLock, rwlock_init, compare_and_swap, read_lock, read_unlock, want_write, write_lock,
  write_unlock, write_bit,
}
use doppio.Lock.RwLock.Laws.{
  write_lock_iff_free, read_lock-ignores-writer, reader_under_writer_wedges,
}

abbrev held : RwLock
held = record { val = write_bit; write_wanted = 0 }

-- The writer announces itself before it takes the free lock.
taken : write_lock (want_write rwlock_init) (want_write rwlock_init) ≡ some held
unfolding write_lock compare_and_swap want_write rwlock_init
taken = refl

write_lock_iff_free_example :
    ((held.val ≡ 0) × (write_lock held held ≡ some (record { val = write_bit; write_wanted = 0 })))
    ⊎ ((held.val ≢ 0) × (write_lock held held ≡ none))
write_lock_iff_free_example = write_lock_iff_free held held

read_lock-ignores-writer_example :
    read_lock held held held ≡ some (record { val = write_bit + 1; write_wanted = 0 })
read_lock-ignores-writer_example = read_lock-ignores-writer held

reader_under_writer_wedges_example :
    (r : RwLock) × (write_bit ≡ write_bit)
    × (read_lock held held held ≡ some r)
    × ((write_unlock (read_unlock r)).val ≡ 0)
    × ((read_unlock (write_unlock r)).val ≡ 2 ^ 32 - 1)
    × ((loaded now : RwLock)
        → now.val ≡ (read_unlock (write_unlock r)).val
        → write_lock loaded now ≡ none)
unfolding want_write rwlock_init
reader_under_writer_wedges_example = reader_under_writer_wedges (want_write rwlock_init) held taken
