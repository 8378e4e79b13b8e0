-- ===== src/Lock/RwLock/Laws.antt =====
-- Readers that meet a writer.
use doppio.Prelude.{
  ◌+◌, ◌-◌, ◌%◌, ◌^◌, ◌≡◌, refl, ◌≢◌, ◌⊎◌, inl, inr, ℕ_discrete, none, some, arith,
}
use doppio.Lock.RwLock.{
  RwLock, compare_and_swap, read_lock, read_unlock, write_lock, write_unlock, write_bit,
}

-- A round of `write_lock` takes the lock exactly if it is free at the compare-and-swap, whatever was
-- loaded, and then sets the write bit and clears `write_wanted`.
pub write_lock_iff_free :
    (loaded now : RwLock)
    → ((now.val ≡ 0)
        × (write_lock loaded now ≡ some (record { val = write_bit; write_wanted = 0 })))
      ⊎ ((now.val ≢ 0) × (write_lock loaded now ≡ none))
unfolding write_lock compare_and_swap
write_lock_iff_free loaded now = elim (ℕ_discrete now.val 0) [
  | yes e ↦ inl (e, ground arith)
  | no ne ↦ inr (ne, ground arith)
]

-- A round of `read_lock` in which nobody else touches the lock takes it, also while a writer holds
-- it or wants it.
pub read_lock-ignores-writer :
    (l : RwLock) → read_lock l l l ≡ some (record l { val = (l.val + 1) % 2 ^ 32 })
unfolding read_lock compare_and_swap
read_lock-ignores-writer l = ground arith

-- A writer that takes the lock leaves the write bit in `val`, and a reader that arrives while it
-- holds the lock gets in. When the reader leaves first and then the writer, `val` is 0. When the
-- writer leaves first and then the reader, `val` is 2^32 - 1, and no later round of `write_lock` on
-- that value takes the lock.
pub reader_under_writer_wedges :
    (l w : RwLock)
    → write_lock l l ≡ some w
    → (r : RwLock) × (w.val ≡ write_bit)
      × (read_lock w w w ≡ some r)
      × ((write_unlock (read_unlock r)).val ≡ 0)
      × ((read_unlock (write_unlock r)).val ≡ 2 ^ 32 - 1)
      × ((loaded now : RwLock)
          → now.val ≡ (read_unlock (write_unlock r)).val
          → write_lock loaded now ≡ none)
unfolding read_unlock write_unlock
reader_under_writer_wedges l w h = (
  record w { val = (w.val + 1) % 2 ^ 32 },
  ground (arith, write_lock_iff_free l l),
  read_lock-ignores-writer w,
  refl,
  refl,
  λ loaded now e. ground (arith, write_lock_iff_free loaded now),
)
