-- ===== src/BlkCache/Install.antt =====
-- The filling of an evicted slot, and the view of the disk after it.
use doppio.Prelude.{
  ℕ, ◌≡◌, refl, ap, ◌∙◌, sym, ◌≢◌, ◌⊎◌, inl, inr, Bool, true, false, some, if◌then◌else◌, ℤ,
  Bool-cases, ℕ_discrete, arith,
}
use doppio.BlkCache.{BlkCache, BlockDevice, Block, Slot, slot_at, matches, install}
use doppio.BlkCache.Slots.{Unique, Sought, sought, matches_self}
use doppio.BlkCache.View.{
  IsReliable, IsCoherent, view, view_hit, view_miss, same_sector, same_sector_iff,
}
use doppio.BlkCache.Evict.{
  entry, bread-evict_other, bread-evict-victim, slot_at-install, length-install, next-install,
  bread-install,
}

-- A new entry matches its own sector and no other.
pub matches-entry :
    (a : ℤ) (b : ℕ) (s : Slot) (a' : ℤ) (b' : ℕ)
    → s.valid ≡ true
    → s.dev_id ≡ a
    → s.sector ≡ b
    → matches s a' b' ≡ same_sector a b a' b'
unfolding matches
matches-entry a b s a' b' v p q = rw (v, p, q)

module _ (dev : BlockDevice) (rel : IsReliable dev) where
  open dev use {State, bread, bwrite}

  module _ (c : BlkCache) (d : State) (coh : IsCoherent dev c d) (a : ℤ) (b : ℕ) (buf : Block)
      (dirty : Bool) (absent : (m : ℕ) → matches (slot_at c m) a b ≡ false)
      (read_or_dirty : dirty ≡ false → bread d a b ≡ some buf) where
    abbrev pub new : BlkCache
    new = (install dev c d a b buf dirty).0

    abbrev pub after : State
    after = (install dev c d a b buf dirty).1

    at_next :
        slot_at new c.next
        ≡ record { dev_id = a; sector = b; bytes = buf; valid = true; dirty = dirty }
    at_next = ground (arith, slot_at-install dev rel c d coh a b buf dirty c.next)

    elsewhere : (j : ℕ) → c.next ≢ j → slot_at new j ≡ slot_at c j
    elsewhere j ne = ground (arith, slot_at-install dev rel c d coh a b buf dirty j)

    -- What a slot of the new cache matches.
    new_match :
        (a' : ℤ) (b' j : ℕ)
        → matches (slot_at new j) a' b' ≡ true
        → ((c.next ≡ j) × (same_sector a b a' b' ≡ true))
          ⊎ ((c.next ≢ j) × (matches (slot_at c j) a' b' ≡ true))
    new_match a' b' j h = elim (ℕ_discrete c.next j) [
      | yes e ↦ inl (e, ground (arith, at_next, matches-entry a b (slot_at new c.next) a' b'))
      | no ne ↦ inr (ne, rw (elsewhere j ne) at h)
    ]

    new-Unique : Unique new
    new-Unique a' b' i j h k = ground (
      arith,
      new_match a' b' i h,
      new_match a' b' j k,
      same_sector_iff a b a' b',
      absent i,
      absent j,
      coh.unique a' b' i j,
    )

    clean_elsewhere :
        (i : ℕ)
        → c.next ≢ i
        → (slot_at c i).valid ≡ true
        → (slot_at c i).dirty ≡ false
        → bread after (slot_at c i).dev_id (slot_at c i).sector ≡ some (slot_at c i).bytes
    clean_elsewhere i ne v k =
        let t : Slot = slot_at c i in
        elim (Bool-cases (matches (slot_at c c.next) t.dev_id t.sector)) [
          | inl e ↦ absurd (ne (coh.unique t.dev_id t.sector c.next i e (matches_self t v)))
          | inr e ↦
              bread-install dev rel c d coh a b buf dirty t.dev_id t.sector
              ∙ bread-evict_other dev rel c d coh t.dev_id t.sector e
              ∙ coh.clean i v k
        ]

    new_clean :
        (i : ℕ)
        → (slot_at new i).valid ≡ true
        → (slot_at new i).dirty ≡ false
        → bread after (slot_at new i).dev_id (slot_at new i).sector ≡ some (slot_at new i).bytes
    new_clean i v k = elim (ℕ_discrete c.next i) [
      | yes e ↦
          rw (← e, at_next)
            (bread-install dev rel c d coh a b buf dirty a b
              ∙ bread-evict_other dev rel c d coh a b (absent c.next)
              ∙ read_or_dirty (ground (arith, at_next)))
      | no ne ↦
          rw (elsewhere i ne)
            (clean_elsewhere i ne (rw (elsewhere i ne) at v) (rw (elsewhere i ne) at k))
    ]

    new_dirty : (i : ℕ) → (slot_at new i).dirty ≡ true → (slot_at new i).valid ≡ true
    new_dirty i k = elim (ℕ_discrete c.next i) [
      | yes e ↦ ground (arith, at_next)
      | no ne ↦ ground (arith, elsewhere i ne, coh.dirty_valid i)
    ]

    pub install-IsCoherent : IsCoherent dev new after
    install-IsCoherent = record {
      sized = length-install dev rel c d coh a b buf dirty;
      next_in = omega (arith, next-install dev rel c d coh a b buf dirty);
      unique = new-Unique;
      dirty_valid = new_dirty;
      clean = new_clean;
    }

    unmatched :
        (a' : ℤ) (b' m : ℕ)
        → c.next ≢ m
        → matches (slot_at c c.next) a' b' ≡ true
        → matches (slot_at c m) a' b' ≡ false
    unmatched a' b' m ne held = elim (Bool-cases (matches (slot_at c m) a' b')) [
      | inr e ↦ e
      | inl e ↦ absurd (ne (coh.unique a' b' c.next m held e))
    ]

    new_miss :
        (a' : ℤ) (b' : ℕ)
        → same_sector a b a' b' ≡ false
        → ((m : ℕ) → c.next ≢ m → matches (slot_at c m) a' b' ≡ false)
        → (m : ℕ) → matches (slot_at new m) a' b' ≡ false
    new_miss a' b' other h m = elim (Bool-cases (matches (slot_at new m) a' b')) [
      | inr e ↦ e
      | inl e ↦ elim (new_match a' b' m e) [
        | inl (_, same) ↦ absurd (ground arith)
        | inr (ne, hit) ↦ absurd (ground (arith, h m ne))
      ]
    ]

    -- A sector other than the installed one shows what it showed.
    view-install_other :
        (a' : ℤ) (b' : ℕ)
        → same_sector a b a' b' ≡ false
        → Sought c a' b'
        → view dev new after a' b' ≡ view dev c d a' b'
    view-install_other a' b' other (inr miss) =
        view_miss dev new after a' b' (new_miss a' b' other (λ m _. miss m))
        ∙ bread-install dev rel c d coh a b buf dirty a' b'
        ∙ bread-evict_other dev rel c d coh a' b' (miss c.next)
        ∙ sym (view_miss dev c d a' b' miss)
    view-install_other a' b' other (inl (i, hit)) = elim (ℕ_discrete c.next i) [
      | no ne ↦
          view_hit dev new after a' b' i new-Unique (rw (elsewhere i ne) hit)
          ∙ ap (λ (s : Slot). some s.bytes) (elsewhere i ne)
          ∙ sym (view_hit dev c d a' b' i coh.unique hit)
      | yes e ↦
          let held : matches (slot_at c c.next) a' b' ≡ true = rw (← e) at hit in
          let alone : (m : ℕ) → c.next ≢ m → matches (slot_at c m) a' b' ≡ false =
            λ m ne. unmatched a' b' m ne held in
          view_miss dev new after a' b' (new_miss a' b' other alone)
          ∙ bread-install dev rel c d coh a b buf dirty a' b'
          ∙ bread-evict-victim dev rel c d coh a' b' held
          ∙ sym (view_hit dev c d a' b' c.next coh.unique held)
    ]

    -- The view after the installation: one sector has the new bytes.
    pub view-install :
        (a' : ℤ) (b' : ℕ)
        → view dev new after a' b'
          ≡ (if same_sector a b a' b' then some buf else view dev c d a' b')
    view-install a' b' = elim (Bool-cases (same_sector a b a' b')) [
      | inl same ↦
          rw (same, if◌then◌else◌)
            (view_hit dev new after a' b' c.next new-Unique (
                rw at_next (
                  matches-entry a b (entry dev rel c d coh a b buf dirty) a' b' refl refl refl
                  ∙ same))
              ∙ ap (λ (s : Slot). some s.bytes) at_next)
      | inr other ↦ rw (other, if◌then◌else◌) (view-install_other a' b' other (sought c a' b'))
    ]
