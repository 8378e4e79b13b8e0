-- ===== src/Pmm/Buddies.antt =====
-- The buddy of a block, and the block that the two make.
use native.Mathlib.Nat.{pow-suc}
use doppio.Prelude.{
  ℕ, suc, ◌+◌, ◌%◌, ◌^◌, ◌≤◌, ◌≡◌, ◌≢◌, refl, sym, ◌⊎◌, inl, inr, true, false, ltb, ◌==◌,
  if◌then◌else◌, Bool-cases, arith,
}
use doppio.Pmm.Blocks.{
  block_of, size_positive, block_of-suc, Aligned, Aligned-double, other_half, lower_other,
  upper_other,
}
use doppio.Pmm.Cover.{Halves}

-- The buddy and what it makes with the block
abbrev pub BuddyOf : ℕ → ℕ → ℕ → Type 0
BuddyOf o h q =
    let m : ℕ = if ltb q h then q else h in
    Halves o h q m
    × Aligned o q
    × Aligned (suc o) m
    × (q ≢ h)
    × ((m ≡ q) ⊎ (m ≡ h))
    × ((total : ℕ) → h + 2 ^ o ≤ total → q + 2 ^ o ≤ total → m + 2 ^ suc o ≤ total)

pub buddy_of : (o h : ℕ) → Aligned o h → BuddyOf o h (other_half o h)
buddy_of o h a = elim (Bool-cases (block_of o h % 2 == 0)) [
  | inl even ↦
      let half : block_of o h % 2 ≡ 0 = ground arith in
      let (e, f, al) = lower_other o h a half in
      let low : ltb (other_half o h) h ≡ false = ground (arith, e) in
      rw low (
        (block_of-suc o h, inl (f, half)),
        al,
        Aligned-double o h a half,
        (λ same. omega (arith, e, same, size_positive o)),
        inr refl,
        λ total le le'. omega (arith, e, pow-suc 2 o, le'),
      )
  | inr odd ↦
      let half : block_of o h % 2 ≡ 1 = ground arith in
      let (e, f, al) = upper_other o h a half in
      let high : ltb (other_half o h) h ≡ true = ground (arith, e, size_positive o) in
      let even : block_of o (other_half o h) % 2 ≡ 0 = omega (arith, f, half) in
      rw high (
        (omega (arith, block_of-suc o (other_half o h), f, half), inr (sym f, even)),
        al,
        Aligned-double o (other_half o h) al even,
        (λ same. omega (arith, e, same, size_positive o)),
        inl refl,
        λ total le le'. omega (arith, e, pow-suc 2 o, le),
      )
]
