-- ===== src/Pmm/Init/Orders.antt =====
-- The order of the next block of free memory.
use native.Mathlib.Nat.{mul-div-mul_right, div-add-mod, div-eq_of_lt-le, mod-one, mod-lt}
use doppio.Prelude.{
  ℕ, zero, suc, ◌+◌, ◌-◌, ◌*◌, ◌/◌, ◌%◌, ◌^◌, ◌<◌, ◌≤◌, ◌≡◌, ap, ◌∙◌, inl, inr, true, ◌&&◌, ltb,
  leb, ◌==◌, if◌then◌else◌, Bool-cases, arith,
}
use doppio.Pmm.{page_size}
use doppio.Pmm.Blocks.{Aligned, size_positive}
use doppio.Pmm.Cover.{hit}
use doppio.Pmm.Init.{largest_order}

-- An address that is a multiple of the size of a block of an order, in pages
aligned_pages : (c b : ℕ) → c * page_size % (page_size * b) ≡ 0 → c % b ≡ 0
aligned_pages c b e =
    let same : page_size * b ≡ b * page_size = omega arith in
    let q : c * page_size / (page_size * b) ≡ c / b =
      ap (λ (m : ℕ). c * page_size / m) same
      ∙ mul-div-mul_right {m = page_size} c b (omega arith) in
    let whole : page_size * b * (c / b) ≡ c * page_size = omega (
      arith,
      div-add-mod (c * page_size) (page_size * b),
      e,
      ap (λ (m : ℕ). page_size * b * m) q,
    ) in
    omega (arith, div-add-mod c b, whole, regroup b (c / b))
  where
    regroup : (b k : ℕ) → page_size * b * k ≡ page_size * (b * k)
    regroup b k = grind arith

-- The block that the loop chooses starts at the page, lies in the `r` pages that remain, and is
-- of one of the orders.
abbrev pub OrderFits : ℕ → ℕ → ℕ → ℕ → Type 0
OrderFits r c n order = (order ≤ n - 1) × Aligned order c × (2 ^ order ≤ r)

pub largest_order-OrderFits :
    (r c n : ℕ) → 1 ≤ r → OrderFits r c n (largest_order (r * page_size) (c * page_size) n)
largest_order-OrderFits r c zero h = (omega arith, mod-one c, omega arith)
largest_order-OrderFits r c (suc n) h =
    elim (Bool-cases
      (leb (page_size * 2 ^ n) (r * page_size) && (c * page_size % (page_size * 2 ^ n) == 0))) [
        | inl e ↦
            let room : page_size * 2 ^ n ≤ r * page_size = ground (arith, e) in
            let whole : c * page_size % (page_size * 2 ^ n) ≡ 0 = ground (arith, e) in
            rw e (omega arith, aligned_pages c (2 ^ n) whole, omega (arith, room))
        | inr e ↦
            let (le, a, room) = largest_order-OrderFits r c n h in rw e (omega (arith, le), a, room)
      ]

-- The pages of a block
pub hit_range :
    (o c p : ℕ) → Aligned o c → hit 0 p o c ≡ (if leb c p && ltb p (c + 2 ^ o) then 1 else 0)
hit_range o c p a =
    let b : ℕ = 2 ^ o in
    let start : b * (c / b) ≡ c = omega (arith, div-add-mod c b, a) in
    elim (Bool-cases (leb c p && ltb p (c + b))) [
      | inl e ↦
          let from : c / b * b ≤ p = omega (arith, e_from e, start, turn (c / b) b) in
          let below : p < (c / b + 1) * b = omega (arith, e_below e, start, more (c / b) b) in
          let same : p / b ≡ c / b = div-eq_of_lt-le b from below in ground (arith, same, e)
      | inr e ↦
          ground (
            arith,
            e,
            outside (p / b) (c / b) b,
            div-add-mod p b,
            mod-lt p (size_positive o),
            start,
          )
    ]
  where
    e_from : (leb c p && ltb p (c + 2 ^ o)) ≡ true → c ≤ p
    e_from e = ground (arith, e)

    e_below : (leb c p && ltb p (c + 2 ^ o)) ≡ true → p < c + 2 ^ o
    e_below e = ground (arith, e)

    turn : (k b : ℕ) → k * b ≡ b * k
    turn k b = grind arith

    more : (k b : ℕ) → (k + 1) * b ≡ b * k + b
    more k b = grind arith

    outside : (k m b : ℕ) → k ≡ m → b * k ≡ b * m
    outside k m b e = ap (λ (x : ℕ). b * x) e
