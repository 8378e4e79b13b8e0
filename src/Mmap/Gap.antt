-- ===== src/Mmap/Gap.antt =====
-- The ranges of addresses that the search for a free one may choose.
use doppio.Prelude.{
  ℕ, zero, suc, ◌+◌, ◌-◌, ◌*◌, ◌/◌, ◌%◌, ◌^◌, ◌<◌, ◌≤◌, ◌≡◌, refl, sym, ap, ◌∙◌, ◌⊎◌, inl, inr,
  Bool, true, false, none, some, List, ◌∷◌, All, All-map, All-append, All-of-append, ◌++◌,
  Bool-cases, arith,
}
use doppio.Vma.{VmArea}
use doppio.Vma.RbTree.InOrder.{Disjoint, Disjoint-of-append}
use doppio.Pmm.{page_size}
use doppio.Pmm.Init.{word}
use doppio.Mmap.{first_mapped}

-- The page table maps none of `n` pages.
abbrev pub Unmapped : (ℕ → Bool) → ℕ → ℕ → Type 0
Unmapped mapped zero addr = Unit {0}
Unmapped mapped (suc n) addr = (mapped addr ≡ false) × Unmapped mapped n (addr + page_size)

-- The area has no address of the range.
abbrev pub ApartFrom : ℕ → ℕ → VmArea → Type 0
ApartFrom addr end v = (v.end ≤ addr) ⊎ (end ≤ v.start)

-- A range that the search may choose
abbrev pub IsGap : (ℕ → Bool) → List VmArea → ℕ → ℕ → Type 0
IsGap mapped xs len addr =
    Unmapped mapped (len / page_size) addr × All (ApartFrom addr (addr + len)) xs

Unmapped-at :
    (mapped : ℕ → Bool) (n k addr : ℕ)
    → Unmapped mapped n addr
    → k < n
    → mapped (addr + k * page_size) ≡ false
Unmapped-at mapped zero k addr h lt = absurd (omega arith)
Unmapped-at mapped (suc n) zero addr (e, h) lt =
    let same : addr + 0 * page_size ≡ addr = omega arith in ap mapped same ∙ e
Unmapped-at mapped (suc n) (suc k) addr (e, h) lt =
    let same : addr + suc k * page_size ≡ addr + page_size + k * page_size = omega arith in
    ap mapped same ∙ Unmapped-at mapped n k (addr + page_size) h (omega arith)

pub first_mapped-cases :
    (mapped : ℕ → Bool) (n addr : ℕ)
    → addr + n * page_size < 2 ^ 64
    → ((first_mapped mapped n addr ≡ none) × Unmapped mapped n addr)
      ⊎ ((k : ℕ) × (k < n)
          × (first_mapped mapped n addr ≡ some (addr + k * page_size))
          × (mapped (addr + k * page_size) ≡ true))
unfolding first_mapped
first_mapped-cases mapped zero addr small = inl (refl, tt)
first_mapped-cases mapped (suc n) addr small =
    let next : word (addr + page_size) ≡ addr + page_size = omega arith in
    let here : addr + 0 * page_size ≡ addr = omega arith in
    elim (Bool-cases (mapped addr)) [
      | inl e ↦ inr (0, omega arith, rw e (ap (λ (a : ℕ). some a) (sym here)), ap mapped here ∙ e)
      | inr e ↦ elim (first_mapped-cases mapped n (addr + page_size) (omega arith)) [
        | inl (f, h) ↦ inl (rw (e, next) f, (e, h))
        | inr (k, lt, f, g) ↦
            let same : addr + page_size + k * page_size ≡ addr + suc k * page_size = omega arith in
            inr (
              suc k,
              omega arith,
              rw (e, next) (f ∙ ap (λ (a : ℕ). some a) same),
              ap mapped (sym same) ∙ g,
            )
      ]
    ]

-- All is in front of the first area that ends behind the start of a range, or behind the range.
pub apart_around :
    (start end : ℕ) (front back : List VmArea) (v : VmArea)
    → Disjoint (front ++ (v ∷ back))
    → All (λ (x : VmArea). x.end ≤ start) front
    → end ≤ v.start
    → All (ApartFrom start end) (front ++ (v ∷ back))
apart_around start end front back v d before le =
    let (_, _, (size, later, _)) = Disjoint-of-append front v back d in
    All-append (ApartFrom start end) front (v ∷ back)
      (All-map (λ (x : VmArea). x.end ≤ start) (ApartFrom start end) (λ x h. inl h) front before)
      (
        inr le,
        All-map (λ (y : VmArea). v.end ≤ y.start) (ApartFrom start end) (λ y h. inr (omega arith))
            back later,
      )

-- A page-aligned address in front of the next one that the search looks at is no gap.
module _ (mapped : ℕ → Bool) (len start : ℕ) where
  pub passed_page :
      (k addr : ℕ) (xs : List VmArea)
      → k < len / page_size
      → mapped (start + k * page_size) ≡ true
      → start % page_size ≡ 0
      → addr % page_size ≡ 0
      → start ≤ addr
      → addr < start + k * page_size + page_size
      → IsGap mapped xs len addr
      → ⊥
  passed_page k addr xs lt there al al' le below (free, _) =
      let j : ℕ = (start + k * page_size - addr) / page_size in
      let at : addr + j * page_size ≡ start + k * page_size = omega arith in
      let small : j < len / page_size = omega arith in
      clash (sym (Unmapped-at mapped (len / page_size) j addr free small) ∙ ap mapped at ∙ there)
    where
      clash : false ≡ true → ⊥
      clash e = ground (arith, e)

  pub passed_area :
      (addr : ℕ) (front back : List VmArea) (v : VmArea)
      → v.start < start + len
      → start ≤ addr
      → addr < v.end
      → IsGap mapped (front ++ (v ∷ back)) len addr
      → ⊥
  passed_area addr front back v inside le below (_, apart) =
      let (_, (clear, _)) = All-of-append (ApartFrom addr (addr + len)) front (v ∷ back) apart in
      elim clear [ inl h ↦ omega arith | inr h ↦ omega arith ]
