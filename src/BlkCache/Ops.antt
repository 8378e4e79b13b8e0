-- ===== src/BlkCache/Ops.antt =====
-- `blk_cache_read` and `blk_cache_write` as operations on the disk that their callers see.
use doppio.Prelude.{
  ℕ, ◌<◌, ◌≡◌, refl, ◌∙◌, sym, inl, inr, true, false, none, some, ◌==◌, if◌then◌else◌, ℤ, length,
  Option-cases, arith,
}
use doppio.BlkCache.{
  BlkCache, BlockDevice, Block, Slot, slot_at, put_slot, matches, lookup, install, read, write,
}
use doppio.BlkCache.Slots.{
  sought, matches_iff, matches_lt, lookup-some, lookup-none, slot_at-put_slot, length-put_slot,
}
use doppio.BlkCache.View.{
  IsReliable, IsCoherent, view, view_hit, view_miss, same_sector, same_sector_iff,
}
use doppio.BlkCache.Install.{install-IsCoherent, view-install, matches-entry}

module _ (dev : BlockDevice) (rel : IsReliable dev) where
  open dev use {State, bread, bwrite}

  -- Reading a sector into an evicted slot does not change what any sector shows.
  view-install_read :
      (c : BlkCache) (d : State) (a : ℤ) (b : ℕ) (buf : Block) (coh : IsCoherent dev c d)
      → lookup c a b ≡ none
      → bread d a b ≡ some buf
      → (a' : ℤ) (b' : ℕ)
      → let (c', d') = install dev c d a b buf false in view dev c' d' a' b' ≡ view dev c d a' b'
  view-install_read c d a b buf coh miss got a' b' =
      let absent : (m : ℕ) → matches (slot_at c m) a b ≡ false = lookup-none c a b miss in
      ground (
        arith,
        view-install dev rel c d coh a b buf false absent (λ _. got) a' b',
        same_sector_iff a b a' b',
        view_miss dev c d a b absent,
      )

  -- `blk_cache_read`: it returns what the view shows (so it fails only for an uncached sector that
  -- the device cannot read), keeps the cache coherent, and changes the view of no sector.
  pub read_refines :
      (c : BlkCache) (d : State) (a : ℤ) (b : ℕ)
      → IsCoherent dev c d
      → let (r, c', d') = read dev c d a b in
        (r ≡ view dev c d a b)
        × IsCoherent dev c' d'
        × ((a' : ℤ) (b' : ℕ) → view dev c' d' a' b' ≡ view dev c d a' b')
  unfolding read
  read_refines c d a b coh = elim (Option-cases (lookup c a b)) [
    | inr (i, hit) ↦
        rw (hit, read)
          (sym (view_hit dev c d a b i coh.unique (lookup-some c a b i hit)), coh, λ a' b'. refl)
    | inl miss ↦
        let shown : view dev c d a b ≡ bread d a b =
          view_miss dev c d a b (lookup-none c a b miss) in
        elim (Option-cases (bread d a b)) [
          | inl broken ↦ rw (miss, broken, read) (sym (shown ∙ broken), coh, λ a' b'. refl)
          | inr (buf, got) ↦
              rw (miss, got, read)
                (
                  sym (shown ∙ got),
                  install-IsCoherent dev rel c d coh a b buf false (lookup-none c a b miss)
                      (λ _. got),
                  view-install_read c d a b buf coh miss got,
                )
        ]
  ]

  -- The slot of a sector that is written while it is cached.
  module _ (c : BlkCache) (d : State) (coh : IsCoherent dev c d) (i : ℕ) (buf : Block)
      (here : i < length c.slots) (valid : (slot_at c i).valid ≡ true) where
    updated : Slot
    updated = record (slot_at c i) { bytes = buf; dirty = true }

    abbrev new : BlkCache
    new = put_slot c i (record (slot_at c i) { bytes = buf; dirty = true })

    slot_at-new : (j : ℕ) → slot_at new j ≡ (if i == j then updated else slot_at c j)
    unfolding updated
    slot_at-new j = slot_at-put_slot c i j updated here

    -- An overwritten slot stays the slot of its sector.
    matches-new : (a : ℤ) (b j : ℕ) → matches (slot_at new j) a b ≡ matches (slot_at c j) a b
    unfolding updated matches
    matches-new a b j = ground (arith, slot_at-new j)

    overwrite-IsCoherent : IsCoherent dev new d
    unfolding updated put_slot
    overwrite-IsCoherent = record {
      sized = length-put_slot c i _ ∙ coh.sized;
      next_in = coh.next_in;
      unique = λ a b j k h h'.
          coh.unique a b j k (sym (matches-new a b j) ∙ h) (sym (matches-new a b k) ∙ h');
      dirty_valid = λ j h. ground (arith, slot_at-new j, coh.dirty_valid j);
      clean = λ j v h. ground (arith, slot_at-new j, coh.clean j);
    }

    -- The view after an overwrite.
    view-overwrite :
        (a' : ℤ) (b' : ℕ)
        → view dev new d a' b'
          ≡ (if matches (slot_at c i) a' b' then some buf else view dev c d a' b')
    unfolding updated
    view-overwrite a' b' = elim (sought c a' b') [
      | inl (j, hit) ↦ ground (
        arith,
        slot_at-new j,
        coh.unique a' b' i j,
        view_hit dev c d a' b' j coh.unique hit,
        view_hit dev new d a' b' j overwrite-IsCoherent.unique (matches-new a' b' j ∙ hit),
      )
      | inr miss ↦
          rw (miss i, if◌then◌else◌)
            (view_miss dev new d a' b' (λ m. matches-new a' b' m ∙ miss m)
              ∙ sym (view_miss dev c d a' b' miss))
    ]

  -- `blk_cache_write`: it keeps the cache coherent, and changes the view of the written sector, to
  -- the written bytes, and of no other.
  pub write_refines :
      (c : BlkCache) (d : State) (a : ℤ) (b : ℕ) (buf : Block)
      → IsCoherent dev c d
      → let (c', d') = write dev c d a b buf in
        IsCoherent dev c' d'
        × ((a' : ℤ) (b' : ℕ)
            → view dev c' d' a' b'
              ≡ (if same_sector a b a' b' then some buf else view dev c d a' b'))
  unfolding write
  write_refines c d a b buf coh = elim (Option-cases (lookup c a b)) [
    | inl miss ↦
        let absent : (m : ℕ) → matches (slot_at c m) a b ≡ false = lookup-none c a b miss in
        rw (miss, write)
          (
            install-IsCoherent dev rel c d coh a b buf true absent (λ e. absurd (ground arith)),
            view-install dev rel c d coh a b buf true absent (λ e. absurd (ground arith)),
          )
    | inr (i, found) ↦
        let hit : matches (slot_at c i) a b ≡ true = lookup-some c a b i found in
        let here : i < length c.slots = matches_lt c a b i hit in
        let (v, p, q) = matches_iff (slot_at c i) a b hit in
        rw (found, write)
          (
            overwrite-IsCoherent c d coh i buf here v,
            λ a' b'.
                view-overwrite c d coh i buf here v a' b'
                ∙ rw (matches-entry a b (slot_at c i) a' b' v p q),
          )
  ]
