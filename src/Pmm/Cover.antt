-- ===== src/Pmm/Cover.antt =====
-- How many blocks a page is in.
use mathlib.Core.Path.{subst}
use doppio.Prelude.{
  ℕ, zero, suc, ◌+◌, ◌-◌, ◌/◌, ◌%◌, ◌<◌, ◌≤◌, ◌≡◌, ◌≢◌, refl, sym, ap, ◌∙◌, ◌⊎◌, inl, inr, true,
  false, ◌&&◌, List, [], ◌∷◌, ◌++◌, leb, ◌==◌, if◌then◌else◌, Bool-cases, arith,
}
use doppio.Pmm.{max_order, Pmm, set_at, without}
use doppio.Pmm.Blocks.{block_of, block_of-suc, same_above}

-- A block that was handed out
pub record Block : Type 0 where
  pub head : ℕ
  pub order : ℕ

abbrev pub OnList : ℕ → List ℕ → Type 0
OnList x [] = ⊥
OnList x (y ∷ ys) = (x ≡ y) ⊎ OnList x ys

-- 1 if the block is of an order from `k` on and the page is in it
abbrev pub hit : ℕ → ℕ → ℕ → ℕ → ℕ
hit k page order head = if leb k order && (block_of order page == block_of order head) then 1 else 0

abbrev pub hits : ℕ → ℕ → ℕ → List ℕ → ℕ
hits k page order [] = 0
hits k page order (x ∷ xs) = hit k page order x + hits k page order xs

-- How many blocks on the first `n` free lists, and of those handed out, are of an order from `k` on
-- and have the page
abbrev pub free_cover : ℕ → ℕ → (ℕ → List ℕ) → ℕ → ℕ
free_cover k page lists zero = 0
free_cover k page lists (suc n) = free_cover k page lists n + hits k page n (lists n)

abbrev pub live_cover : ℕ → ℕ → List Block → ℕ
live_cover k page [] = 0
live_cover k page (b ∷ bs) = hit k page b.order b.head + live_cover k page bs

abbrev pub cover : ℕ → ℕ → Pmm → List Block → ℕ
cover k page s live = free_cover k page s.free_lists max_order + live_cover k page live

pub hits-without :
    (k p o x : ℕ) (xs : List ℕ)
    → OnList x xs
    → hits k p o (without x xs) + hit k p o x ≡ hits k p o xs
hits-without k p o x [] h = absurd h
hits-without k p o x (y ∷ ys) h = elim (Bool-cases (y == x)) [
  | inl e ↦ let same : y ≡ x = ground arith in rw e (omega (arith, ap (hit k p o) same))
  | inr e ↦ rw e (omega (arith, hits-without k p o x ys (later h (λ f. ground arith))))
]
  where
    later : (x ≡ y) ⊎ OnList x ys → (x ≢ y) → OnList x ys
    later (inl f) ne = absurd (ne f)
    later (inr on) ne = on

pub hits-on : (k p o x : ℕ) (xs : List ℕ) → OnList x xs → hit k p o x ≤ hits k p o xs
hits-on k p o x xs h = omega (arith, hits-without k p o x xs h)

free_cover-set_below :
    (k p i : ℕ) (lists : ℕ → List ℕ) (xs : List ℕ) (n : ℕ)
    → n ≤ i
    → free_cover k p (set_at lists i xs) n ≡ free_cover k p lists n
free_cover-set_below k p i lists xs zero h = refl
free_cover-set_below k p i lists xs (suc n) h =
    let e : (n == i) ≡ false = ground arith in
    rw e (
      ap (λ (m : ℕ). m + hits k p n (lists n))
        (free_cover-set_below k p i lists xs n (omega arith)))

pub free_cover-set :
    (k p i : ℕ) (lists : ℕ → List ℕ) (xs : List ℕ) (n : ℕ)
    → i < n
    → free_cover k p (set_at lists i xs) n + hits k p i (lists i)
      ≡ free_cover k p lists n + hits k p i xs
free_cover-set k p i lists xs zero h = absurd (omega arith)
free_cover-set k p i lists xs (suc n) h = elim (Bool-cases (n == i)) [
  | inl e ↦
      let same : n ≡ i = ground arith in
      rw e (
        omega (
          arith,
          free_cover-set_below k p i lists xs n (omega arith),
          ap (λ (m : ℕ). hits k p m (lists m)) same,
          ap (λ (m : ℕ). hits k p m xs) same,
        ))
  | inr e ↦
      let below : i < n = ground arith in
      rw e (omega (arith, free_cover-set k p i lists xs n below))
]

pub free_cover-at :
    (k p i : ℕ) (lists : ℕ → List ℕ) (n : ℕ) → i < n → hits k p i (lists i) ≤ free_cover k p lists n
free_cover-at k p i lists n h = omega (arith, free_cover-set k p i lists [] n h)

-- Pages of one block of the order `j` are in the same blocks from `j` on.
module _ (j p q : ℕ) (e : block_of j p ≡ block_of j q) where
  same_hit : (o h : ℕ) → hit j p o h ≡ hit j q o h
  same_hit o h = elim (Bool-cases (leb j o)) [
    | inl f ↦
        let d : o - j + j ≡ o = ground arith in
        let same : block_of o p ≡ block_of o q =
          subst (λ (m : ℕ). block_of m p ≡ block_of m q) d (same_above j (o - j) p q e) in
        rw (f, same) refl
    | inr f ↦ rw f refl
  ]

  same_hits : (o : ℕ) (xs : List ℕ) → hits j p o xs ≡ hits j q o xs
  same_hits o [] = refl
  same_hits o (x ∷ xs) = omega (arith, same_hit o x, same_hits o xs)

  same_free : (lists : ℕ → List ℕ) (n : ℕ) → free_cover j p lists n ≡ free_cover j q lists n
  same_free lists zero = refl
  same_free lists (suc n) = omega (arith, same_free lists n, same_hits n (lists n))

  same_live : (live : List Block) → live_cover j p live ≡ live_cover j q live
  same_live [] = refl
  same_live (b ∷ bs) = omega (arith, same_hit b.order b.head, same_live bs)

  pub same_cover : (s : Pmm) (live : List Block) → cover j p s live ≡ cover j q s live
  same_cover s live = omega (arith, same_free s.free_lists max_order, same_live live)

-- Fewer blocks are of a higher order.
module _ (k p : ℕ) where
  less_hit : (o h : ℕ) → hit k p o h ≤ hit 0 p o h
  less_hit o h = ground arith

  less_hits : (o : ℕ) (xs : List ℕ) → hits k p o xs ≤ hits 0 p o xs
  less_hits o [] = omega arith
  less_hits o (x ∷ xs) = omega (arith, less_hit o x, less_hits o xs)

  less_free : (lists : ℕ → List ℕ) (n : ℕ) → free_cover k p lists n ≤ free_cover 0 p lists n
  less_free lists zero = omega arith
  less_free lists (suc n) = omega (arith, less_free lists n, less_hits n (lists n))

  pub less_live : (live : List Block) → live_cover k p live ≤ live_cover 0 p live
  less_live [] = omega arith
  less_live (b ∷ bs) = omega (arith, less_hit b.order b.head, less_live bs)

  pub less_cover : (s : Pmm) (live : List Block) → cover k p s live ≤ cover 0 p s live
  less_cover s live = omega (arith, less_free s.free_lists max_order, less_live live)

pub live_cover-append :
    (k p : ℕ) (xs ys : List Block)
    → live_cover k p (xs ++ ys) ≡ live_cover k p xs + live_cover k p ys
live_cover-append k p [] ys = omega arith
live_cover-append k p (x ∷ xs) ys = omega (arith, live_cover-append k p xs ys)

-- The block of the next order that two blocks make up
abbrev pub Halves : ℕ → ℕ → ℕ → ℕ → Type 0
Halves order h q m =
    (block_of (suc order) m ≡ block_of order h / 2)
    × (((block_of order q ≡ block_of order h + 1) × (block_of order h % 2 ≡ 0))
        ⊎ ((block_of order h ≡ block_of order q + 1) × (block_of order q % 2 ≡ 0)))

in_half :
    (x h q : ℕ)
    → ((q ≡ h + 1) × (h % 2 ≡ 0)) ⊎ ((h ≡ q + 1) × (q % 2 ≡ 0))
    → (if x / 2 == h / 2 then 1 else 0) ≡ (if x == h then 1 else 0) + (if x == q then 1 else 0)
in_half x h q (inl (e, f)) = ground (arith, e, f)
in_half x h q (inr (e, f)) = ground (arith, e, f)

hit-low : (k p o h : ℕ) → k ≤ o → hit k p o h ≡ (if block_of o p == block_of o h then 1 else 0)
hit-low k p o h le = let e : leb k o ≡ true = ground arith in rw e refl

pub hit_halves :
    (k p o h q m : ℕ) → Halves o h q m → k ≤ o → hit k p (suc o) m ≡ hit k p o h + hit k p o q
hit_halves k p o h q m (e, c) le =
    hit-low k p (suc o) m (omega arith)
    ∙ ap (λ (x : ℕ). if x == block_of (suc o) m then 1 else 0) (block_of-suc o p)
    ∙ ap (λ (x : ℕ). if block_of o p / 2 == x then 1 else 0) e
    ∙ in_half (block_of o p) (block_of o h) (block_of o q) c
    ∙ sym (rw (hit-low k p o h le, hit-low k p o q le) refl)

pub hit_halves_le :
    (k p o h q m : ℕ) → Halves o h q m → hit k p o h + hit k p o q ≤ hit k p (suc o) m
hit_halves_le k p o h q m c = elim (Bool-cases (leb k o)) [
  | inl f ↦ omega (arith, hit_halves k p o h q m c (ground arith))
  | inr f ↦ rw f (omega arith)
]

pub hit_self : (k o h : ℕ) → k ≤ o → hit k h o h ≡ 1
hit_self k o h le = ground arith

-- A block on a free list has its first page.
pub free_cover-on :
    (k o x : ℕ) (lists : ℕ → List ℕ) (n : ℕ)
    → k ≤ o
    → o < n
    → OnList x (lists o)
    → 1 ≤ free_cover k x lists n
free_cover-on k o x lists n le lt on =
    let one : 1 ≤ hits k x o (lists o) =
      subst (λ (m : ℕ). m ≤ hits k x o (lists o)) (hit_self k o x le)
        (hits-on k x o x (lists o) on) in
    omega (arith, one, free_cover-at k x o lists n lt)

pub hit_above : (k p o h : ℕ) → o < k → hit k p o h ≡ 0
hit_above k p o h lt = ground arith

pub hit_in : (k p o h : ℕ) → k ≤ o → block_of o p ≡ block_of o h → hit k p o h ≡ 1
hit_in k p o h le e = ground (arith, e)
