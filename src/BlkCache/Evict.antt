-- ===== src/BlkCache/Evict.antt =====
-- `blk_cache_evict` and the filling of the slot that it frees.
use doppio.Prelude.{
  ℕ, ◌+◌, ◌%◌, ◌≡◌, refl, ◌∙◌, inl, inr, Bool, true, false, ◌&&◌, some, ◌==◌, if◌then◌else◌, ℤ,
  length, set, length-set, Bool-cases, arith,
}
use doppio.BlkCache.{
  BlkCache, BlockDevice, Block, Slot, blk_cache_size, slot_at, put_slot, matches, evict, install,
}
use doppio.BlkCache.Slots.{matches_iff, matches_self, slot_at-put_slot, length-put_slot}
use doppio.BlkCache.View.{IsReliable, IsCoherent, same_sector, same_sector_iff, same_sector_self}

module _ (dev : BlockDevice) (rel : IsReliable dev) where
  open dev use {State, bread, bwrite}

  module _ (c : BlkCache) (d : State) (coh : IsCoherent dev c d) where
    abbrev pub victim : Slot
    victim = slot_at c c.next

    freed : Slot
    freed = record victim { dirty = false; valid = false }

    slot_at-evict :
        (j : ℕ) → slot_at (evict dev c d).1 j ≡ (if c.next == j then freed else slot_at c j)
    unfolding evict freed slot_at
    slot_at-evict j = slot_at-put_slot _ c.next j freed (omega (arith, coh.sized, coh.next_in))

    -- The device after an eviction: the victim's sector has its bytes.
    bread-evict :
        (a : ℤ) (b : ℕ)
        → bread (evict dev c d).2 a b ≡ (
            if victim.dirty && same_sector victim.dev_id victim.sector a b
            then some victim.bytes
            else bread d a b)
    unfolding evict
    bread-evict a b = elim (Bool-cases victim.dirty) [
      | inl e ↦ rw (e, if◌then◌else◌) (rel d victim.dev_id victim.sector victim.bytes a b)
      | inr e ↦ rw (e, if◌then◌else◌)
    ]

    pub victim_holds :
        (a : ℤ) (b : ℕ)
        → victim.dirty ≡ true
        → same_sector victim.dev_id victim.sector a b ≡ true
        → matches victim a b ≡ true
    victim_holds a b e same =
        let (p, q) = same_sector_iff victim.dev_id victim.sector a b same in
        rw (← p, ← q) (matches_self victim (coh.dirty_valid c.next e))

    -- A sector that the victim does not hold is untouched on the device.
    pub bread-evict_other :
        (a : ℤ) (b : ℕ) → matches victim a b ≡ false → bread (evict dev c d).2 a b ≡ bread d a b
    bread-evict_other a b h =
        elim (Bool-cases (victim.dirty && same_sector victim.dev_id victim.sector a b)) [
          | inl e ↦ absurd (ground (arith, victim_holds a b))
          | inr e ↦ bread-evict a b ∙ rw e
        ]

    -- The victim's sector has the victim's bytes on the device, written now or before.
    pub bread-evict-victim :
        (a : ℤ) (b : ℕ)
        → matches victim a b ≡ true
        → bread (evict dev c d).2 a b ≡ some victim.bytes
    bread-evict-victim a b h =
        let (v, p, q) = matches_iff victim a b h in
        rw (← p, ← q)
          (ground (
            arith,
            bread-evict victim.dev_id victim.sector,
            same_sector_self victim.dev_id victim.sector,
            coh.clean c.next v,
          ))

    module _ (a : ℤ) (b : ℕ) (buf : Block) (dirty : Bool) where
      abbrev pub entry : Slot
      entry = record { dev_id = a; sector = b; bytes = buf; valid = true; dirty = dirty }

      advanced : BlkCache
      advanced = record c { next = (c.next + 1) % blk_cache_size }

      slot_at-advanced : (j : ℕ) → slot_at advanced j ≡ slot_at c j
      unfolding slot_at advanced
      slot_at-advanced j = refl

      pub slot_at-install :
          (j : ℕ)
          → slot_at (install dev c d a b buf dirty).0 j
            ≡ (if c.next == j then entry else slot_at c j)
      unfolding install evict advanced
      slot_at-install j = ground (
        arith,
        coh.sized,
        coh.next_in,
        length-put_slot advanced c.next
            (record (slot_at c c.next) { dirty = false; valid = false }),
        slot_at-put_slot
            (put_slot advanced c.next (record (slot_at c c.next) { dirty = false; valid = false }))
            c.next j entry,
        slot_at-put_slot advanced c.next j
            (record (slot_at c c.next) { dirty = false; valid = false }),
        slot_at-advanced j,
      )

      pub length-install : length (install dev c d a b buf dirty).0.slots ≡ blk_cache_size
      unfolding install evict put_slot
      length-install =
          length-set (set c.slots c.next _) c.next _ ∙ length-set c.slots c.next _ ∙ coh.sized

      pub next-install : (install dev c d a b buf dirty).0.next ≡ (c.next + 1) % blk_cache_size
      unfolding install evict put_slot
      next-install = refl

      pub bread-install :
          (a' : ℤ) (b' : ℕ)
          → bread (install dev c d a b buf dirty).1 a' b' ≡ bread (evict dev c d).2 a' b'
      unfolding install
      bread-install a' b' = refl
