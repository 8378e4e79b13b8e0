-- ===== src/BlkCache/Through.antt =====
-- `blk_cache_invalidate`, as blockdev.c uses it: a whole sector is written past the cache, and the
-- cached copy is dropped.
use doppio.Prelude.{
  ℕ, ◌≡◌, refl, ap, ◌∙◌, sym, inl, inr, Bool, true, false, some, if◌then◌else◌, ℤ, length,
  Bool-cases, Option-cases, arith,
}
use doppio.BlkCache.{
  BlkCache, BlockDevice, Block, Slot, slot_at, put_slot, matches, lookup, evict, invalidate,
  write_through,
}
use doppio.BlkCache.Slots.{
  Unique, sought, matches_iff, matches_self, matches_invalid, matches_lt, lookup-some, lookup-none,
  slot_at-put_slot, length-put_slot,
}
use doppio.BlkCache.View.{
  IsReliable, IsCoherent, view, view_hit, view_miss, same_sector, same_sector_iff, same_sector_self,
}

module _ (dev : BlockDevice) (rel : IsReliable dev) where
  open dev use {State, bread, bwrite}

  module _ (c : BlkCache) (d : State) (coh : IsCoherent dev c d) (a : ℤ) (b : ℕ) (buf : Block) where
    abbrev new : BlkCache
    new = invalidate c a b

    abbrev after : State
    after = bwrite d a b buf

    -- A slot keeps its place unless it held the sector; then it is only marked invalid.
    slot_at-new :
        (j : ℕ)
        → slot_at new j ≡ (
            if matches (slot_at c j) a b
            then record (slot_at c j) { valid = false }
            else slot_at c j)
    unfolding invalidate
    slot_at-new j = elim (Option-cases (lookup c a b)) [
      | inl miss ↦ rw (miss, lookup-none c a b miss j, invalidate) refl
      | inr (i, found) ↦
          let hit : matches (slot_at c i) a b ≡ true = lookup-some c a b i found in
          rw (found, invalidate)
            (ground (
              arith,
              slot_at-put_slot c i j (record (slot_at c i) { valid = false })
                  (matches_lt c a b i hit),
              coh.unique a b i j hit,
            ))
    ]

    length-new : length new.slots ≡ length c.slots
    unfolding invalidate
    length-new = elim (Option-cases (lookup c a b)) [
      | inl miss ↦ rw (miss, invalidate) refl
      | inr (i, found) ↦ rw (found, invalidate) (length-put_slot c i _)
    ]

    next-new : new.next ≡ c.next
    unfolding invalidate put_slot
    next-new = ground arith

    matches-new :
        (a' : ℤ) (b' j : ℕ)
        → matches (slot_at new j) a' b' ≡ true
        → (matches (slot_at c j) a' b' ≡ true)
          × (matches (slot_at c j) a b ≡ false)
          × (slot_at new j ≡ slot_at c j)
    matches-new a' b' j h = elim (Bool-cases (matches (slot_at c j) a b)) [
      | inr other ↦
          let same : slot_at new j ≡ slot_at c j = ground (arith, slot_at-new j) in
          (rw same at h, other, same)
      | inl hit ↦ absurd (
          ground (
            arith,
            slot_at-new j,
            matches_invalid (record (slot_at c j) { valid = false }) a' b' refl,
          ))
    ]

    Unique-new : Unique new
    Unique-new a' b' i j h k =
        coh.unique a' b' i j (matches-new a' b' i h).0 (matches-new a' b' j k).0

    kept :
        (a' : ℤ) (b' j : ℕ)
        → matches (slot_at c j) a b ≡ false
        → matches (slot_at c j) a' b' ≡ true
        → view dev new after a' b' ≡ some (slot_at c j).bytes
    kept a' b' j other h =
        let same : slot_at new j ≡ slot_at c j = ground (arith, slot_at-new j) in
        view_hit dev new after a' b' j Unique-new (rw same h) ∙ ap (λ (s : Slot). some s.bytes) same

    gone : (m : ℕ) → matches (slot_at new m) a b ≡ false
    gone m = elim (Bool-cases (matches (slot_at new m) a b)) [
      | inr e ↦ e
      | inl e ↦ absurd (ground (arith, matches-new a b m e))
    ]

    still_gone :
        (a' : ℤ) (b' : ℕ)
        → ((m : ℕ) → matches (slot_at c m) a' b' ≡ false)
        → (m : ℕ) → matches (slot_at new m) a' b' ≡ false
    still_gone a' b' miss m = elim (Bool-cases (matches (slot_at new m) a' b')) [
      | inr e ↦ e
      | inl e ↦ absurd (ground (arith, matches-new a' b' m e, miss m))
    ]

    -- A slot of another sector does not hold this one.
    unmatched :
        (a' : ℤ) (b' j : ℕ)
        → same_sector a b a' b' ≡ false
        → matches (slot_at c j) a' b' ≡ true
        → matches (slot_at c j) a b ≡ false
    unmatched a' b' j other hit = elim (Bool-cases (matches (slot_at c j) a b)) [
      | inr e ↦ e
      | inl e ↦
          let (_, p, q) = matches_iff (slot_at c j) a b e in
          let (_, p', q') = matches_iff (slot_at c j) a' b' hit in
          absurd (ground (arith, same_sector_self a b))
    ]

    view-new :
        (a' : ℤ) (b' : ℕ)
        → view dev new after a' b'
          ≡ (if same_sector a b a' b' then some buf else view dev c d a' b')
    view-new a' b' = elim (Bool-cases (same_sector a b a' b')) [
      | inl same ↦
          let (p, q) = same_sector_iff a b a' b' same in
          rw (same, if◌then◌else◌, ← p, ← q)
            (view_miss dev new after a b gone ∙ rel d a b buf a b ∙ rw (same_sector_self a b))
      | inr other ↦
          rw (other, if◌then◌else◌)
            (elim (sought c a' b') [
              | inl (j, hit) ↦
                  kept a' b' j (unmatched a' b' j other hit) hit
                  ∙ sym (view_hit dev c d a' b' j coh.unique hit)
              | inr miss ↦
                  view_miss dev new after a' b' (still_gone a' b' miss)
                  ∙ rel d a b buf a' b'
                  ∙ ap (λ (t : Bool). if t then some buf else bread d a' b') other
                  ∙ sym (view_miss dev c d a' b' miss)
            ])
    ]

    new_clean :
        (j : ℕ)
        → (slot_at new j).valid ≡ true
        → (slot_at new j).dirty ≡ false
        → bread after (slot_at new j).dev_id (slot_at new j).sector ≡ some (slot_at new j).bytes
    new_clean j v k =
        let s : Slot = slot_at new j in
        let (hit, other, same) = matches-new s.dev_id s.sector j (matches_self s v) in
        elim (Bool-cases (same_sector a b s.dev_id s.sector)) [
          | inl here ↦
              let (p, q) = same_sector_iff a b s.dev_id s.sector here in absurd (ground arith)
          | inr away ↦ rel d a b buf s.dev_id s.sector ∙ ground (arith, coh.clean j)
        ]

    -- Where the cached copy is not dirty, dropping it keeps the cache coherent.
    new-IsCoherent :
        ((i : ℕ) → matches (slot_at c i) a b ≡ true → (slot_at c i).dirty ≡ false)
        → IsCoherent dev new after
    new-IsCoherent not_dirty = record {
      sized = length-new ∙ coh.sized;
      next_in = omega (arith, next-new, coh.next_in);
      unique = Unique-new;
      dirty_valid = λ j h. ground (arith, slot_at-new j, not_dirty j, coh.dirty_valid j);
      clean = new_clean;
    }

    -- The slot to be evicted next keeps its bytes and its dirty flag when it is invalidated.
    victim-new :
        matches (slot_at c c.next) a b ≡ true
        → slot_at new new.next ≡ record (slot_at c c.next) { valid = false }
    victim-new hit = ap (slot_at new) next-new ∙ ground (arith, slot_at-new c.next)

    overwritten :
        matches (slot_at c c.next) a b ≡ true
        → (slot_at c c.next).dirty ≡ true
        → bread (evict dev new after).2 a b ≡ some (slot_at c c.next).bytes
    unfolding evict
    overwritten hit dirty =
        let (v, p, q) = matches_iff (slot_at c c.next) a b hit in
        ground
          (arith, victim-new hit, rel after a b (slot_at c c.next).bytes a b, same_sector_self a b)

  -- A whole sector written past the cache, whose cached copy is not dirty: the cache stays coherent,
  -- and the view changes at that sector, to the written bytes, and nowhere else.
  pub write_through_refines :
      (c : BlkCache) (d : State) (a : ℤ) (b : ℕ) (buf : Block)
      → IsCoherent dev c d
      → ((i : ℕ) → matches (slot_at c i) a b ≡ true → (slot_at c i).dirty ≡ false)
      → let (c', d') = write_through dev c d a b buf in
        IsCoherent dev c' d'
        × ((a' : ℤ) (b' : ℕ)
            → view dev c' d' a' b'
              ≡ (if same_sector a b a' b' then some buf else view dev c d a' b'))
  unfolding write_through
  write_through_refines c d a b buf coh not_dirty =
      (new-IsCoherent c d coh a b buf not_dirty, view-new c d coh a b buf)

  -- A whole sector written past the cache, whose cached copy is dirty and next to be evicted: the
  -- write is seen at first, and the eviction puts the old cached bytes back on the device.
  pub write_through_lost :
      (c : BlkCache) (d : State) (a : ℤ) (b : ℕ) (buf : Block)
      → IsCoherent dev c d
      → matches (slot_at c c.next) a b ≡ true
      → (slot_at c c.next).dirty ≡ true
      → let (c', d') = write_through dev c d a b buf in
        let (_, _, d'') = evict dev c' d' in
        (view dev c' d' a b ≡ some buf) × (bread d'' a b ≡ some (slot_at c c.next).bytes)
  unfolding write_through
  write_through_lost c d a b buf coh hit dirty = (
    view-new c d coh a b buf a b ∙ rw (same_sector_self a b),
    overwritten c d coh a b buf hit dirty,
  )
