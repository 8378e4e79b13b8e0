-- ===== src/Pmm/Blocks.antt =====
-- Blocks of 2 ^ order pages and their buddies.
use native.Mathlib.Nat.{
  pow-suc, div-div-eq-div-mul, mul-div-mul_right, add-div_right, add-mod_right, div-add-mod,
  mul-div-le,
}
use mathlib.Core.Path.{subst}
use doppio.Prelude.{
  ℕ, zero, suc, ◌+◌, ◌-◌, ◌*◌, ◌/◌, ◌%◌, ◌^◌, ◌<◌, ◌≤◌, ◌≡◌, refl, sym, ap, ◌∙◌, inl, inr, true,
  false, Option, none, some, leb, ◌==◌, if◌then◌else◌, Bool-cases, arith,
}
use doppio.Pmm.{page_size, flip_bit, get_buddy}

-- The block of an order that a page is in, by its number among the blocks of the order
abbrev pub block_of : ℕ → ℕ → ℕ
block_of order page = page / 2 ^ order

abbrev pub Aligned : ℕ → ℕ → Type 0
Aligned order page = page % 2 ^ order ≡ 0

pub size_positive : (order : ℕ) → 0 < 2 ^ order
size_positive zero = omega arith
size_positive (suc n) = omega (arith, pow-suc 2 n, size_positive n)

pub block_of-suc : (order page : ℕ) → block_of (suc order) page ≡ block_of order page / 2
block_of-suc order page =
    ap (λ (b : ℕ). page / b) (pow-suc 2 order) ∙ sym (div-div-eq-div-mul page (2 ^ order) 2)

-- Pages of one block are in one block of every higher order.
pub same_above :
    (a d p q : ℕ) → block_of a p ≡ block_of a q → block_of (d + a) p ≡ block_of (d + a) q
same_above a zero p q e =
    let z : 0 + a ≡ a = omega arith in subst (λ (o : ℕ). block_of o p ≡ block_of o q) (sym z) e
same_above a (suc d) p q e =
    let z : suc d + a ≡ suc (d + a) = omega arith in
    subst (λ (o : ℕ). block_of o p ≡ block_of o q) (sym z)
      (block_of-suc (d + a) p
        ∙ ap (λ (k : ℕ). k / 2) (same_above a d p q e)
        ∙ sym (block_of-suc (d + a) q))

-- An aligned page of a block is its first one.
pub Aligned-first :
    (order p q : ℕ)
    → Aligned order p
    → Aligned order q
    → block_of order p ≡ block_of order q
    → p ≡ q
Aligned-first order p q a b e =
    sym (div-add-mod p (2 ^ order))
    ∙ omega (arith, a, b, ap (λ (k : ℕ). 2 ^ order * k) e)
    ∙ div-add-mod q (2 ^ order)

mod_double : (b p : ℕ) → 0 < b → p % (b * 2) ≡ p % b + b * (p / b % 2)
mod_double b p h =
    let q : ℕ = p / b in
    let parts : b * q ≡ b * (q / 2) * 2 + b * (q % 2) =
      ap (λ (m : ℕ). b * m) (the_parts q) ∙ distribute b (q / 2) (q % 2) in
    let whole : b * 2 * (p / (b * 2)) ≡ b * (q / 2) * 2 =
      ap (λ (m : ℕ). b * 2 * m) (sym (div-div-eq-div-mul p b 2)) ∙ swap b (q / 2) in
    omega (arith, div-add-mod p b, div-add-mod p (b * 2), parts, whole)
  where
    the_parts : (q : ℕ) → q ≡ q / 2 * 2 + q % 2
    the_parts q = omega arith

    distribute : (b k r : ℕ) → b * (k * 2 + r) ≡ b * k * 2 + b * r
    distribute b k r = grind arith

    swap : (b k : ℕ) → b * 2 * k ≡ b * k * 2
    swap b k = grind arith

-- The first page of a block is the first one of the lower half.
pub Aligned-half :
    (order p : ℕ) → Aligned (suc order) p → Aligned order p × (block_of order p % 2 ≡ 0)
Aligned-half order p a =
    let b : ℕ = 2 ^ order in
    let pos : 0 < b = size_positive order in
    let e : p % b + b * (p / b % 2) ≡ 0 =
      sym (mod_double b p pos) ∙ ap (λ (m : ℕ). p % m) (sym (pow-suc 2 order)) ∙ a in
    (omega (arith, e), grind (arith, e, pos))

pub Aligned-double :
    (order p : ℕ) → Aligned order p → block_of order p % 2 ≡ 0 → Aligned (suc order) p
Aligned-double order p a e =
    ap (λ (m : ℕ). p % m) (pow-suc 2 order)
    ∙ mod_double (2 ^ order) p (size_positive order)
    ∙ omega (arith, a, ap (λ (k : ℕ). 2 ^ order * k) e)

-- The buddy is in the other half of the block of the next order.
pub other_half : ℕ → ℕ → ℕ
other_half order page = if block_of order page % 2 == 0 then page + 2 ^ order else page - 2 ^ order

page_of-phys : (p : ℕ) → p * page_size / page_size ≡ p
page_of-phys p = omega arith

flip_bit-pages :
    (b p : ℕ) → 0 < b → flip_bit (page_size * b) (p * page_size) / page_size ≡ flip_bit b p
flip_bit-pages b p h =
    let e : p * page_size / (page_size * b) ≡ p / b =
      ap (λ (m : ℕ). p * page_size / m) (grind arith)
      ∙ mul-div-mul_right {m = page_size} p b (omega arith) in
    ap
      (λ (m : ℕ).
        (if m % 2 == 0 then p * page_size + page_size * b else p * page_size - page_size * b)
        / page_size)
      e
    ∙ (elim (Bool-cases (p / b % 2 == 0)) [
      | inl f ↦ rw f (omega arith)
      | inr f ↦ rw f (omega arith)
    ])

pub get_buddy_lem :
    (total page order : ℕ)
    → get_buddy total page order
      ≡ (if leb total (other_half order page) then none else some (other_half order page))
unfolding get_buddy other_half
get_buddy_lem total page order =
    ap (λ (i : ℕ). if◌then◌else◌ {A = Option ℕ} (leb total i) none (some i))
      (flip_bit-pages (2 ^ order) page (size_positive order))

-- The other half of a lower half and of an upper half
module _ (order p : ℕ) (a : Aligned order p) where
  pub lower_other :
      block_of order p % 2 ≡ 0
      → (other_half order p ≡ p + 2 ^ order)
        × (block_of order (other_half order p) ≡ block_of order p + 1)
        × Aligned order (other_half order p)
  unfolding other_half
  lower_other e =
      let f : (block_of order p % 2 == 0) ≡ true = ground (arith, e) in
      rw f (refl, add-div_right p (size_positive order), add-mod_right p (2 ^ order) ∙ a)

  pub upper_other :
      block_of order p % 2 ≡ 1
      → (other_half order p + 2 ^ order ≡ p)
        × (block_of order (other_half order p) + 1 ≡ block_of order p)
        × Aligned order (other_half order p)
  unfolding other_half
  upper_other e =
      let b : ℕ = 2 ^ order in
      let f : (block_of order p % 2 == 0) ≡ false = ground (arith, e) in
      let room : b ≤ p =
        covers b (p / b) p (size_positive order) (mul-div-le p b) (omega (arith, e)) in
      let back : p - b + b ≡ p = omega (arith, room) in
      rw f (
        back,
        sym (add-div_right (p - b) (size_positive order)) ∙ ap (λ (m : ℕ). m / b) back,
        sym (add-mod_right (p - b) b) ∙ ap (λ (m : ℕ). m % b) back ∙ a,
      )
    where
      covers : (b q p : ℕ) → 0 < b → b * q ≤ p → 1 ≤ q → b ≤ p
      covers b zero p h le one = absurd (omega arith)
      covers b (suc q) p h le one = grind arith
