-- ===== src/BlkCache/Slots.antt =====
-- The slot array of blk_cache.c: what a lookup finds, and what a write of one slot changes.
use doppio.Prelude.{
  ℕ, zero, suc, ◌+◌, ◌<◌, ◌≡◌, refl, ap, ◌⊎◌, inl, inr, true, false, none, some, List, [], ◌∷◌,
  ◌==◌, if◌then◌else◌, ℤ, int_eq_iff, length, get_or, get_or-set_self, get_or-set_ne, length-set,
  Bool-cases, Option-cases, ==_iff, get_or_out, ℕ_discrete, dec_lt, arith,
}
use doppio.BlkCache.{BlkCache, Slot, empty_slot, matches, lookup_from, lookup, slot_at, put_slot}

pub matches_iff :
    (s : Slot) (a : ℤ) (b : ℕ)
    → matches s a b ≡ true
    → (s.valid ≡ true) × (s.dev_id ≡ a) × (s.sector ≡ b)
unfolding matches
matches_iff s a b h = ground (arith, int_eq_iff s.dev_id a)

pub matches_self : (s : Slot) → s.valid ≡ true → matches s s.dev_id s.sector ≡ true
unfolding matches
matches_self s h = ground (arith, int_eq_iff s.dev_id s.dev_id)

pub matches_invalid : (s : Slot) (a : ℤ) (b : ℕ) → s.valid ≡ false → matches s a b ≡ false
unfolding matches
matches_invalid s a b h = ground arith

lookup_from-some :
    (i : ℕ) (xs : List Slot) (a : ℤ) (b j : ℕ)
    → lookup_from i xs a b ≡ some j
    → (m : ℕ) × (j ≡ i + m) × (matches (get_or xs m empty_slot) a b ≡ true)
unfolding lookup_from
lookup_from-some i [] a b j e = absurd (ground arith)
lookup_from-some i (s ∷ xs) a b j e = elim (Bool-cases (matches s a b)) [
  | inl hit ↦ (0, ground arith, hit)
  | inr miss ↦
      let (m, p, q) = lookup_from-some (i + 1) xs a b j (ground arith) in (suc m, omega arith, q)
]

lookup_from-none :
    (i : ℕ) (xs : List Slot) (a : ℤ) (b : ℕ)
    → lookup_from i xs a b ≡ none
    → (m : ℕ) → matches (get_or xs m empty_slot) a b ≡ false
unfolding lookup_from
lookup_from-none i [] a b e m = matches_invalid empty_slot a b refl
lookup_from-none i (s ∷ xs) a b e zero = ground arith
lookup_from-none i (s ∷ xs) a b e (suc m) = lookup_from-none (i + 1) xs a b (ground arith) m

pub lookup-some :
    (c : BlkCache) (a : ℤ) (b j : ℕ) → lookup c a b ≡ some j → matches (slot_at c j) a b ≡ true
unfolding lookup slot_at
lookup-some c a b j e =
    let (m, p, q) = lookup_from-some 0 c.slots a b j e in let r : j ≡ m = omega arith in rw r q

pub lookup-none :
    (c : BlkCache) (a : ℤ) (b : ℕ)
    → lookup c a b ≡ none
    → (m : ℕ) → matches (slot_at c m) a b ≡ false
unfolding lookup slot_at
lookup-none c a b e m = lookup_from-none 0 c.slots a b e m

-- Two slots never hold one sector.
abbrev pub Unique : BlkCache → Type 0
Unique c =
    (a : ℤ) (b i j : ℕ)
    → matches (slot_at c i) a b ≡ true
    → matches (slot_at c j) a b ≡ true
    → i ≡ j

pub lookup-eq-some :
    (c : BlkCache) (a : ℤ) (b i : ℕ)
    → Unique c
    → matches (slot_at c i) a b ≡ true
    → lookup c a b ≡ some i
lookup-eq-some c a b i u h = elim (Option-cases (lookup c a b)) [
  | inl e ↦ absurd (ground (arith, lookup-none c a b e i))
  | inr (j, e) ↦ rw e (ap some (u a b j i (lookup-some c a b j e) h))
]

pub lookup-eq-none :
    (c : BlkCache) (a : ℤ) (b : ℕ)
    → ((m : ℕ) → matches (slot_at c m) a b ≡ false)
    → lookup c a b ≡ none
lookup-eq-none c a b h = elim (Option-cases (lookup c a b)) [
  | inl e ↦ e
  | inr (j, e) ↦ absurd (ground (arith, lookup-some c a b j e, h j))
]

abbrev pub Sought : BlkCache → ℤ → ℕ → Type 0
Sought c a b =
    ((i : ℕ) × (matches (slot_at c i) a b ≡ true)) ⊎ ((m : ℕ) → matches (slot_at c m) a b ≡ false)

pub sought : (c : BlkCache) (a : ℤ) (b : ℕ) → Sought c a b
sought c a b = elim (Option-cases (lookup c a b)) [
  | inl e ↦ inr (lookup-none c a b e)
  | inr (j, e) ↦ inl (j, lookup-some c a b j e)
]

pub slot_at-put_slot :
    (c : BlkCache) (i j : ℕ) (s : Slot)
    → i < length c.slots
    → slot_at (put_slot c i s) j ≡ (if i == j then s else slot_at c j)
unfolding slot_at put_slot
slot_at-put_slot c i j s h = elim (ℕ_discrete i j) [
  | yes e ↦ rw ((==_iff i j).1 e, ← e) (get_or-set_self c.slots i s empty_slot h)
  | no ne ↦ ground (arith, get_or-set_ne c.slots i j s empty_slot ne)
]

-- A slot that matches lies in the array.
pub matches_lt :
    (c : BlkCache) (a : ℤ) (b i : ℕ) → matches (slot_at c i) a b ≡ true → i < length c.slots
unfolding slot_at
matches_lt c a b i h = elim (dec_lt i (length c.slots)) [
  | yes p ↦ p
  | no q ↦
      absurd (ground (arith, matches_invalid empty_slot a b refl, get_or_out c.slots i empty_slot))
]

pub length-put_slot :
    (c : BlkCache) (i : ℕ) (s : Slot) → length (put_slot c i s).slots ≡ length c.slots
unfolding put_slot
length-put_slot c i s = length-set c.slots i s
