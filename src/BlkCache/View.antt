-- ===== src/BlkCache/View.antt =====
-- The disk that the callers of blk_cache.c see: a cached sector shows the cached bytes, any other
-- the device's. The invariant that keeps the two in step.
use doppio.Prelude.{
  ℕ, ◌<◌, ◌≡◌, refl, Bool, true, false, ◌&&◌, Option, none, some, ◌==◌, if◌then◌else◌, ℤ, int_eq,
  int_eq_iff, length, get_or-replicate, length-replicate, arith,
}
use doppio.BlkCache.{
  BlkCache, BlockDevice, Block, blk_cache_size, lookup, slot_at, matches, init, empty_slot,
}
use doppio.BlkCache.Slots.{Unique, lookup-eq-some, lookup-eq-none, matches_invalid}

abbrev pub same_sector : ℤ → ℕ → ℤ → ℕ → Bool
same_sector a b a' b' = int_eq a a' && b == b'

pub same_sector_iff :
    (a : ℤ) (b : ℕ) (a' : ℤ) (b' : ℕ) → same_sector a b a' b' ≡ true → (a ≡ a') × (b ≡ b')
same_sector_iff a b a' b' h = ground (arith, int_eq_iff a a')

pub same_sector_self : (a : ℤ) (b : ℕ) → same_sector a b a b ≡ true
same_sector_self a b = ground (arith, int_eq_iff a a)

pub slot_at-init : (i : ℕ) → slot_at init i ≡ empty_slot
unfolding slot_at init
slot_at-init i = get_or-replicate blk_cache_size i empty_slot

module _ (dev : BlockDevice) where
  open dev use {State, bread, bwrite}

  -- A block device: a write is read back, and changes no other sector.
  abbrev pub IsReliable : Type 0
  IsReliable =
      (d : State) (a : ℤ) (b : ℕ) (buf : Block) (a' : ℤ) (b' : ℕ)
      → bread (bwrite d a b buf) a' b' ≡ (if same_sector a b a' b' then some buf else bread d a' b')

  unfoldable pub view : BlkCache → State → ℤ → ℕ → Option Block
  view c d a b = elim (lookup c a b) [ some i ↦ some (slot_at c i).bytes | none ↦ bread d a b ]

  pub record IsCoherent (c : BlkCache) (d : State) : Type 0 where
    pub sized : length c.slots ≡ blk_cache_size
    pub next_in : c.next < blk_cache_size
    pub unique : Unique c
    pub dirty_valid : (i : ℕ) → (slot_at c i).dirty ≡ true → (slot_at c i).valid ≡ true
    pub clean :
        (i : ℕ)
        → (slot_at c i).valid ≡ true
        → (slot_at c i).dirty ≡ false
        → bread d (slot_at c i).dev_id (slot_at c i).sector ≡ some (slot_at c i).bytes

  pub view_hit :
      (c : BlkCache) (d : State) (a : ℤ) (b i : ℕ)
      → Unique c
      → matches (slot_at c i) a b ≡ true
      → view c d a b ≡ some (slot_at c i).bytes
  unfolding view
  view_hit c d a b i u h = rw (lookup-eq-some c a b i u h, view)

  pub view_miss :
      (c : BlkCache) (d : State) (a : ℤ) (b : ℕ)
      → ((m : ℕ) → matches (slot_at c m) a b ≡ false)
      → view c d a b ≡ bread d a b
  unfolding view
  view_miss c d a b h = rw (lookup-eq-none c a b h, view)

  -- `blk_cache_init` leaves a coherent cache that shows the device.
  pub init-IsCoherent :
      (d : State) → IsCoherent init d × ((a : ℤ) (b : ℕ) → view init d a b ≡ bread d a b)
  unfolding init
  init-IsCoherent d = (
    record {
      sized = length-replicate blk_cache_size empty_slot;
      next_in = omega arith;
      unique = λ a b i j h k.
          absurd (ground (arith, slot_at-init i, matches_invalid empty_slot a b refl));
      dirty_valid = λ i h. ground (arith, slot_at-init i);
      clean = λ i h k. ground (arith, slot_at-init i);
    },
    λ a b. view_miss init d a b λ m. rw (slot_at-init m) (matches_invalid empty_slot a b refl),
  )
