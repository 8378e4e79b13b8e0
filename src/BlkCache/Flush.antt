-- ===== src/BlkCache/Flush.antt =====
-- `blk_cache_flush`: what reaches the device.
use doppio.Prelude.{
  ℕ, zero, suc, ◌≡◌, refl, ap, ◌∙◌, sym, ◌⊎◌, inl, inr, Bool, true, false, ◌||◌, none, some, List,
  [], ◌∷◌, if◌then◌else◌, ℤ, int_eq, is_negative, length, get_or, Option-cases, int_eq_iff, arith,
}
use doppio.BlkCache.{
  BlkCache, BlockDevice, Slot, Sector, empty_slot, slot_at, matches, lookup, to_flush, dirty_list,
  clean_slots, write_back, flush,
}
use doppio.BlkCache.Slots.{Unique, sought, matches_iff, matches_self, lookup-some, lookup-none}
use doppio.BlkCache.View.{
  IsReliable, IsCoherent, view, view_hit, view_miss, same_sector, same_sector_iff, same_sector_self,
}

-- Whether a sector is on the list of dirty sectors.
listed : List Sector → ℤ → ℕ → Bool
listed [] a b = false
listed (e ∷ rest) a b = same_sector e.dev_id e.sector a b || listed rest a b

listed_of_slot :
    (t : ℤ) (xs : List Slot) (m : ℕ)
    → let s = get_or xs m empty_slot in
      to_flush t s ≡ true → listed (dirty_list t xs) s.dev_id s.sector ≡ true
unfolding listed dirty_list to_flush
listed_of_slot t [] m h = absurd (ground arith)
listed_of_slot t (s ∷ xs) zero h = ground (arith, same_sector_self s.dev_id s.sector)
listed_of_slot t (s ∷ xs) (suc m) h = ground (arith, listed_of_slot t xs m h)

clean : ℤ → Slot → Slot
clean t s = if to_flush t s then record s { dirty = false } else s

clean_slots_at :
    (t : ℤ) (xs : List Slot) (m : ℕ)
    → get_or (clean_slots t xs) m empty_slot ≡ clean t (get_or xs m empty_slot)
unfolding clean_slots clean to_flush
clean_slots_at t [] m = ground arith
clean_slots_at t (s ∷ xs) zero = refl
clean_slots_at t (s ∷ xs) (suc m) = clean_slots_at t xs m

length-clean_slots : (t : ℤ) (xs : List Slot) → length (clean_slots t xs) ≡ length xs
unfolding clean_slots
length-clean_slots t [] = refl
length-clean_slots t (s ∷ xs) = ap suc (length-clean_slots t xs)

matches-clean : (t : ℤ) (s : Slot) (a : ℤ) (b : ℕ) → matches (clean t s) a b ≡ matches s a b
unfolding clean matches
matches-clean t s a b = ground arith

module _ (dev : BlockDevice) (rel : IsReliable dev) where
  open dev use {State, bread, bwrite}

  -- One round of the second loop, and what it leaves on the device and in the view.
  module _ (c : BlkCache) (d : State) (e : Sector) (uniq : Unique c) where
    abbrev written : State
    written = elim (lookup c e.dev_id e.sector) [
      | none ↦ d
      | some idx ↦ bwrite d e.dev_id e.sector (slot_at c idx).bytes
    ]

    bread-written :
        (a : ℤ) (b : ℕ)
        → bread written a b
          ≡ (if same_sector e.dev_id e.sector a b then view dev c d a b else bread d a b)
    bread-written a b = elim (Option-cases (lookup c e.dev_id e.sector)) [
      | inl miss ↦
          rw (miss, written)
            (ground (
              arith,
              same_sector_iff e.dev_id e.sector a b,
              view_miss dev c d e.dev_id e.sector (lookup-none c e.dev_id e.sector miss),
            ))
      | inr (i, found) ↦
          rw (found, written)
            (ground (
              arith,
              same_sector_iff e.dev_id e.sector a b,
              view_hit dev c d e.dev_id e.sector i uniq (lookup-some c e.dev_id e.sector i found),
              rel d e.dev_id e.sector (slot_at c i).bytes a b,
            ))
    ]

    view-written : (a : ℤ) (b : ℕ) → view dev c written a b ≡ view dev c d a b
    unfolding view
    view-written a b = elim (Option-cases (lookup c a b)) [
      | inl miss ↦ ground (arith, bread-written a b)
      | inr (i, found) ↦ rw (found, view)
    ]

  -- The second loop leaves each listed sector on the device as the view showed it.
  bread-write_back :
      (c : BlkCache) (d : State) (es : List Sector) (a : ℤ) (b : ℕ)
      → Unique c
      → bread (write_back dev c d es) a b
        ≡ (if listed es a b then view dev c d a b else bread d a b)
  unfolding write_back listed
  bread-write_back c d [] a b u = refl
  bread-write_back c d (e ∷ es) a b u = ground (
    arith,
    bread-write_back c (written c d e u) es a b u,
    bread-written c d e u a b,
    view-written c d e u a b,
  )

  module _ (c : BlkCache) (d : State) (coh : IsCoherent dev c d) (t : ℤ) where
    abbrev new : BlkCache
    new = record c { slots = clean_slots t c.slots }

    abbrev after : State
    after = write_back dev new d (dirty_list t c.slots)

    slot_at-new : (j : ℕ) → slot_at new j ≡ clean t (slot_at c j)
    unfolding slot_at
    slot_at-new j = clean_slots_at t c.slots j

    matches-new : (a : ℤ) (b j : ℕ) → matches (slot_at new j) a b ≡ matches (slot_at c j) a b
    matches-new a b j = rw (slot_at-new j) (matches-clean t (slot_at c j) a b)

    Unique-new : Unique new
    Unique-new a b i j h k =
        coh.unique a b i j (sym (matches-new a b i) ∙ h) (sym (matches-new a b j) ∙ k)

    bytes-new : (j : ℕ) → (slot_at new j).bytes ≡ (slot_at c j).bytes
    unfolding clean
    bytes-new j = ground (arith, slot_at-new j)

    -- Clearing the dirty flags changes no view, whatever the device holds.
    shown_hit :
        (d' : State) (a : ℤ) (b j : ℕ)
        → matches (slot_at c j) a b ≡ true
        → view dev new d' a b ≡ some (slot_at c j).bytes
    shown_hit d' a b j h =
        view_hit dev new d' a b j Unique-new (matches-new a b j ∙ h) ∙ ap some (bytes-new j)

    shown_miss :
        (d' : State) (a : ℤ) (b : ℕ)
        → ((m : ℕ) → matches (slot_at c m) a b ≡ false)
        → view dev new d' a b ≡ bread d' a b
    shown_miss d' a b h = view_miss dev new d' a b (λ m. matches-new a b m ∙ h m)

    bread-after :
        (a : ℤ) (b : ℕ)
        → bread after a b
          ≡ (if listed (dirty_list t c.slots) a b then view dev new d a b else bread d a b)
    bread-after a b = bread-write_back new d (dirty_list t c.slots) a b Unique-new

    in_list :
        (j : ℕ)
        → to_flush t (slot_at c j) ≡ true
        → listed (dirty_list t c.slots) (slot_at c j).dev_id (slot_at c j).sector ≡ true
    unfolding slot_at
    in_list j h = listed_of_slot t c.slots j h

    -- A slot of a flushed device is flushed, or is clean.
    due :
        (j : ℕ) (a : ℤ) (b : ℕ)
        → matches (slot_at c j) a b ≡ true
        → (is_negative t || int_eq a t) ≡ true
        → (to_flush t (slot_at c j) ≡ true) ⊎ ((slot_at c j).dirty ≡ false)
    unfolding to_flush
    due j a b h target =
        let (v, p, q) = matches_iff (slot_at c j) a b h in
        ground (arith, int_eq_iff (slot_at c j).dev_id t)

    new_dirty : (j : ℕ) → (slot_at new j).dirty ≡ true → (slot_at new j).valid ≡ true
    unfolding clean
    new_dirty j h = ground (arith, slot_at-new j, coh.dirty_valid j)

    -- A slot that is flushed, or is clean, has its bytes on the device.
    settled :
        (a : ℤ) (b j : ℕ)
        → matches (slot_at c j) a b ≡ true
        → (to_flush t (slot_at c j) ≡ true) ⊎ ((slot_at c j).dirty ≡ false)
        → bread after a b ≡ some (slot_at c j).bytes
    settled a b j h w =
        let (v, p, q) = matches_iff (slot_at c j) a b h in
        ground (arith, bread-after a b, shown_hit d a b j h, in_list j, coh.clean j v)

    flushed_or_clean :
        (j : ℕ)
        → (slot_at new j).dirty ≡ false
        → (to_flush t (slot_at c j) ≡ true) ⊎ ((slot_at c j).dirty ≡ false)
    unfolding clean
    flushed_or_clean j h = ground (arith, slot_at-new j)

    new_clean :
        (j : ℕ)
        → (slot_at new j).valid ≡ true
        → (slot_at new j).dirty ≡ false
        → bread after (slot_at new j).dev_id (slot_at new j).sector ≡ some (slot_at new j).bytes
    new_clean j v h =
        let s : Slot = slot_at new j in
        let m : matches (slot_at c j) s.dev_id s.sector ≡ true =
          sym (matches-new s.dev_id s.sector j) ∙ matches_self s v in
        settled s.dev_id s.sector j m (flushed_or_clean j h) ∙ ap some (sym (bytes-new j))

    view-after : (a : ℤ) (b : ℕ) → view dev new after a b ≡ view dev c d a b
    view-after a b = elim (sought c a b) [
      | inl (j, hit) ↦ shown_hit after a b j hit ∙ sym (view_hit dev c d a b j coh.unique hit)
      | inr miss ↦ ground (
        arith,
        shown_miss after a b miss,
        shown_miss d a b miss,
        bread-after a b,
        view_miss dev c d a b miss,
      )
    ]

    after-IsCoherent : IsCoherent dev new after
    after-IsCoherent = record {
      sized = length-clean_slots t c.slots ∙ coh.sized;
      next_in = coh.next_in;
      unique = Unique-new;
      dirty_valid = λ j h. new_dirty j h;
      clean = λ j v h. new_clean j v h;
    }

    on_device :
        (a : ℤ) (b : ℕ) → (is_negative t || int_eq a t) ≡ true → bread after a b ≡ view dev c d a b
    on_device a b target = elim (sought c a b) [
      | inl (j, hit) ↦
          settled a b j hit (due j a b hit target) ∙ sym (view_hit dev c d a b j coh.unique hit)
      | inr miss ↦
          ground (arith, shown_miss d a b miss, bread-after a b, view_miss dev c d a b miss)
    ]

  -- `blk_cache_flush`: it keeps the cache coherent and changes the view of no sector, and each
  -- sector of a device that is flushed (of every device, for a negative `dev_id`) is then on the
  -- device as the view shows it.
  pub flush_refines :
      (c : BlkCache) (d : State) (t : ℤ)
      → IsCoherent dev c d
      → let (c', d') = flush dev c d t in
        IsCoherent dev c' d'
        × ((a : ℤ) (b : ℕ) → view dev c' d' a b ≡ view dev c d a b)
        × ((a : ℤ) (b : ℕ) → (is_negative t || int_eq a t) ≡ true → bread d' a b ≡ view dev c d a b)
  unfolding flush
  flush_refines c d t coh = (after-IsCoherent c d coh t, view-after c d coh t, on_device c d coh t)
