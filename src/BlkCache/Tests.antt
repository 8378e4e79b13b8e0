-- ===== src/BlkCache/Tests.antt =====
-- Runs of the cache, and the theorems at a concrete device and cache.
use doppio.Prelude.{ℕ, ◌≡◌, refl, true, some, [], ◌∷◌, if◌then◌else◌, ℤ, pos, negsuc, int_eq, arith}
use doppio.BlkCache.{
  BlkCache, BlockDevice, Block, init, slot_at, put_slot, matches, lookup, lookup_from, evict,
  install, read, write, flush, flush_all, write_back, dirty_list, clean_slots, to_flush,
  write_through,
}
use doppio.BlkCache.View.{IsReliable, IsCoherent, view, init-IsCoherent, slot_at-init, same_sector}
use doppio.BlkCache.Ops.{read_refines, write_refines}
use doppio.BlkCache.Flush.{flush_refines}
use doppio.BlkCache.Through.{write_through_refines, write_through_lost}

-- A disk whose every sector reads as zero until it is written.
abbrev ram_disk : BlockDevice
ram_disk = record {
  State = ℤ → ℕ → Block;
  bread = λ d a b. some (d a b);
  bwrite = λ d a b buf a' b'. if same_sector a b a' b' then buf else d a' b';
}

ram_disk-IsReliable : IsReliable ram_disk
ram_disk-IsReliable d a b buf a' b' = ground arith

abbrev blank : ℤ → ℕ → Block
blank a b = 0 ∷ []

abbrev after_write : BlkCache × (ℤ → ℕ → Block)
after_write = write ram_disk init blank (pos 0) 7 (5 ∷ [])

write_then_read : (read ram_disk after_write.0 after_write.1 (pos 0) 7).0 ≡ some (5 ∷ [])
unfolding read write install evict lookup lookup_from matches slot_at put_slot init int_eq
write_then_read = refl

not_yet_on_disk : after_write.1 (pos 0) 7 ≡ 0 ∷ []
unfolding write install evict lookup lookup_from matches slot_at put_slot init int_eq
not_yet_on_disk = refl

after_write-IsCoherent : IsCoherent ram_disk after_write.0 after_write.1
after_write-IsCoherent =
    (write_refines ram_disk ram_disk-IsReliable init blank (pos 0) 7 (5 ∷ [])
      (init-IsCoherent ram_disk blank).0).0

flushed : (flush_all ram_disk after_write.0 after_write.1).1 (pos 0) 7 ≡ 5 ∷ []
unfolding flush_all flush write_back dirty_list clean_slots to_flush write install evict lookup
    lookup_from matches slot_at put_slot init int_eq
flushed = refl

write_refines_example :
    let (c, d) = after_write in
    IsCoherent ram_disk c d
    × ((a' : ℤ) (b' : ℕ)
        → view ram_disk c d a' b'
          ≡ (if same_sector (pos 0) 7 a' b' then some (5 ∷ []) else view ram_disk init blank a' b'))
write_refines_example =
    write_refines ram_disk ram_disk-IsReliable init blank (pos 0) 7 (5 ∷ [])
      (init-IsCoherent ram_disk blank).0

read_refines_example :
    let (r, c', d') = read ram_disk after_write.0 after_write.1 (pos 1) 3 in
    (r ≡ view ram_disk after_write.0 after_write.1 (pos 1) 3)
    × IsCoherent ram_disk c' d'
    × ((a' : ℤ) (b' : ℕ)
        → view ram_disk c' d' a' b' ≡ view ram_disk after_write.0 after_write.1 a' b')
read_refines_example =
    read_refines ram_disk ram_disk-IsReliable after_write.0 after_write.1 (pos 1) 3
      after_write-IsCoherent

flush_refines_example :
    let (c', d') = flush ram_disk after_write.0 after_write.1 (negsuc 0) in
    IsCoherent ram_disk c' d'
    × ((a : ℤ) (b : ℕ) → view ram_disk c' d' a b ≡ view ram_disk after_write.0 after_write.1 a b)
    × ((a : ℤ) (b : ℕ)
        → true ≡ true
        → some (d' a b) ≡ view ram_disk after_write.0 after_write.1 a b)
flush_refines_example =
    flush_refines ram_disk ram_disk-IsReliable after_write.0 after_write.1 (negsuc 0)
      after_write-IsCoherent

write_through_refines_example :
    let (c', d') = write_through ram_disk init blank (pos 0) 7 (9 ∷ []) in
    IsCoherent ram_disk c' d'
    × ((a' : ℤ) (b' : ℕ)
        → view ram_disk c' d' a' b'
          ≡ (if same_sector (pos 0) 7 a' b' then some (9 ∷ []) else view ram_disk init blank a' b'))
write_through_refines_example =
    write_through_refines ram_disk ram_disk-IsReliable init blank (pos 0) 7 (9 ∷ [])
      (init-IsCoherent ram_disk blank).0 (λ i h. ground (arith, slot_at-init i))

-- The slot written last, once the ring of slots has come round to it.
abbrev worn : BlkCache
worn = record after_write.0 { next = 0 }

worn-IsCoherent : IsCoherent ram_disk worn after_write.1
unfolding slot_at
worn-IsCoherent = record {
  sized = after_write-IsCoherent.sized;
  next_in = omega arith;
  unique = after_write-IsCoherent.unique;
  dirty_valid = after_write-IsCoherent.dirty_valid;
  clean = after_write-IsCoherent.clean;
}

-- The 9 that was written past the cache is gone after the next eviction.
write_through_lost_example :
    let (c', d') = write_through ram_disk worn after_write.1 (pos 0) 7 (9 ∷ []) in
    let (_, _, d'') = evict ram_disk c' d' in
    (view ram_disk c' d' (pos 0) 7 ≡ some (9 ∷ [])) × (some (d'' (pos 0) 7) ≡ some (5 ∷ []))
unfolding write install evict lookup lookup_from matches slot_at put_slot init int_eq
write_through_lost_example =
    write_through_lost ram_disk ram_disk-IsReliable worn after_write.1 (pos 0) 7 (9 ∷ [])
      worn-IsCoherent refl refl
