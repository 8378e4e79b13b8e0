-- ===== src/BlkCache.antt =====
-- kernel/vfs/blk_cache.c: the write-back cache of disk sectors. The disk behind the AHCI driver
-- is a parameter. One operation runs at a time: `blk_cache_lock` is not modelled.
pub mod Slots
pub mod View
mod Evict
mod Install
pub mod Ops
pub mod Flush
pub mod Through
mod Tests
use doppio.Prelude.{
  ℕ, suc, ◌+◌, ◌%◌, Bool, true, false, ◌&&◌, ◌||◌, Option, none, some, List, [], ◌∷◌, ◌==◌,
  if◌then◌else◌, ℤ, negsuc, is_negative, int_eq, get_or, set, replicate,
}

-- The 512 bytes of a sector. They are only copied.
abbrev pub Block : Type 0
Block = List ℕ

abbrev pub blk_cache_size : ℕ
blk_cache_size = 256

-- `ahci_bread` and `ahci_bwrite`. `none` is a negative result of `ahci_bread`; blk_cache.c does not
-- look at the result of `ahci_bwrite`.
pub record BlockDevice : Type 1 where
  pub State : Type 0
  pub bread : State → ℤ → ℕ → Option Block
  pub bwrite : State → ℤ → ℕ → Block → State

-- `struct blk_cache_slot`
pub record Slot : Type 0 where
  pub dev_id : ℤ
  pub sector : ℕ
  pub bytes : Block
  pub valid : Bool
  pub dirty : Bool

abbrev pub empty_slot : Slot
empty_slot = record { dev_id = ℤ.pos 0; sector = 0; bytes = []; valid = false; dirty = false }

-- `blk_cache` and `blk_cache_next`
pub record BlkCache : Type 0 where
  pub slots : List Slot
  pub next : ℕ

-- The test of `blk_cache_lookup` on one slot.
pub matches : Slot → ℤ → ℕ → Bool
matches s dev_id sector = s.valid && int_eq s.dev_id dev_id && s.sector == sector

-- The loop of `blk_cache_lookup`, from index `i`; -1 is `none`.
pub lookup_from : ℕ → List Slot → ℤ → ℕ → Option ℕ
lookup_from i [] dev_id sector = none
lookup_from i (s ∷ rest) dev_id sector =
    if matches s dev_id sector then some i else lookup_from (i + 1) rest dev_id sector

pub lookup : BlkCache → ℤ → ℕ → Option ℕ
lookup c dev_id sector = lookup_from 0 c.slots dev_id sector

pub slot_at : BlkCache → ℕ → Slot
slot_at c i = get_or c.slots i empty_slot

pub put_slot : BlkCache → ℕ → Slot → BlkCache
put_slot c i s = record c { slots = set c.slots i s }

-- `blk_cache_init`: static storage is zero, and the loop clears `valid`.
pub init : BlkCache
init = record { slots = replicate blk_cache_size empty_slot; next = 0 }

-- A dirty sector, as `blk_cache_flush` lists it.
pub record Sector : Type 0 where
  pub dev_id : ℤ
  pub sector : ℕ

-- The test of the first loop of `blk_cache_flush`; a negative `dev_id` means every device.
pub to_flush : ℤ → Slot → Bool
to_flush dev_id s = s.valid && s.dirty && (is_negative dev_id || int_eq s.dev_id dev_id)

pub dirty_list : ℤ → List Slot → List Sector
dirty_list dev_id [] = []
dirty_list dev_id (s ∷ rest) =
    let others = dirty_list dev_id rest in
    if to_flush dev_id s then record { dev_id = s.dev_id; sector = s.sector } ∷ others else others

pub clean_slots : ℤ → List Slot → List Slot
clean_slots dev_id [] = []
clean_slots dev_id (s ∷ rest) =
    (if to_flush dev_id s then record s { dirty = false } else s) ∷ clean_slots dev_id rest

module _ (dev : BlockDevice) where
  open dev use {State, bread, bwrite}

  -- `blk_cache_evict`: the index, the cache and the device.
  pub evict : BlkCache → State → ℕ × BlkCache × State
  evict c d = (idx, put_slot (record c { next = (idx + 1) % blk_cache_size }) idx freed, written)
    where
      idx : ℕ
      idx = c.next

      s : Slot
      s = slot_at c idx

      freed : Slot
      freed = record s { dirty = false; valid = false }

      written : State
      written = if s.dirty then bwrite d s.dev_id s.sector s.bytes else d

  -- The part of `blk_cache_read` and `blk_cache_write` that fills an evicted slot.
  pub install : BlkCache → State → ℤ → ℕ → Block → Bool → BlkCache × State
  install c d dev_id sector buf dirty =
      let (idx, c', d') = evict c d in
      (
        put_slot c' idx
            (record { dev_id = dev_id; sector = sector; bytes = buf; valid = true; dirty = dirty }),
        d',
      )

  -- `blk_cache_read`: `none` where it returns the error of `ahci_bread`.
  pub read : BlkCache → State → ℤ → ℕ → Option Block × BlkCache × State
  read c d dev_id sector = elim (lookup c dev_id sector) [
    | some idx ↦ (some (slot_at c idx).bytes, c, d)
    | none ↦ elim (bread d dev_id sector) [
      | none ↦ (none, c, d)
      | some buf ↦ let (c', d') = install c d dev_id sector buf false in (some buf, c', d')
    ]
  ]

  -- `blk_cache_write`
  pub write : BlkCache → State → ℤ → ℕ → Block → BlkCache × State
  write c d dev_id sector buf = elim (lookup c dev_id sector) [
    | none ↦ install c d dev_id sector buf true
    | some idx ↦ (put_slot c idx (record (slot_at c idx) { bytes = buf; dirty = true }), d)
  ]

  -- The second loop of `blk_cache_flush`.
  pub write_back : BlkCache → State → List Sector → State
  write_back c d [] = d
  write_back c d (e ∷ rest) = write_back c written rest
    where
      written : State
      written = elim (lookup c e.dev_id e.sector) [
        | none ↦ d
        | some idx ↦ bwrite d e.dev_id e.sector (slot_at c idx).bytes
      ]

  -- `blk_cache_flush`
  pub flush : BlkCache → State → ℤ → BlkCache × State
  flush c d dev_id = (c', write_back c' d (dirty_list dev_id c.slots))
    where
      c' : BlkCache
      c' = record c { slots = clean_slots dev_id c.slots }

  -- `blk_cache_flush_all`
  pub flush_all : BlkCache → State → BlkCache × State
  flush_all c d = flush c d (negsuc 0)

-- `blk_cache_invalidate`
pub invalidate : BlkCache → ℤ → ℕ → BlkCache
invalidate c dev_id sector = elim (lookup c dev_id sector) [
  | none ↦ c
  | some idx ↦ put_slot c idx (record (slot_at c idx) { valid = false })
]

-- How `blockdev_write` writes a whole sector past the cache, where `ahci_bwrite` succeeds; where it
-- fails, the call returns with the cache as it was. The write comes first, then the invalidation,
-- which does not read the device.
pub write_through :
    (dev : BlockDevice)
    → BlkCache
    → BlockDevice.State dev
    → ℤ
    → ℕ
    → Block
    → BlkCache × BlockDevice.State dev
write_through dev c d dev_id sector buf =
    (invalidate c dev_id sector, BlockDevice.bwrite dev d dev_id sector buf)
