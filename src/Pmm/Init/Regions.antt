-- ===== src/Pmm/Init/Regions.antt =====
-- All regions of free memory, given to the allocator.
use mathlib.Core.Path.{subst}
use doppio.Prelude.{
  ℕ, ◌+◌, ◌-◌, ◌*◌, ◌/◌, ◌^◌, ◌<◌, ◌≤◌, ◌≡◌, ◌≢◌, refl, sym, ap, ◌∙◌, ◌⊎◌, inl, inr, ◌&&◌, List, [],
  ◌∷◌, ltb, leb, ◌==◌, if◌then◌else◌, All, All-map, Bool-cases, arith,
}
use doppio.Pmm.{page_size, Pmm}
use doppio.Pmm.Valid.{IsValid}
use doppio.Pmm.Free.{free_blocks}
use doppio.Pmm.Init.{
  MemoryRegion, mmap_free, word, align_down, align_up, has_pages, max_end, total_pages_of,
  region_start, region_end, array_at, carve, add_region, add_regions,
}
use doppio.Pmm.Init.Carve.{new_page, carve-Carved}

-- Physical addresses have 52 bits.
abbrev pub InMemory : MemoryRegion → Type 0
InMemory r = r.base + r.length ≤ 2 ^ 52

abbrev pub start_page : MemoryRegion → ℕ
start_page r = region_start r / page_size

abbrev pub end_page : MemoryRegion → ℕ
end_page r = region_end r / page_size

-- How many regions of free memory have the whole page
abbrev pub usable : ℕ → List MemoryRegion → ℕ
usable p [] = 0
usable p (r ∷ rs) =
    (if (r.kind == mmap_free) && (leb (start_page r) p && ltb p (end_page r)) then 1 else 0)
    + usable p rs

-- Nothing for the pages of the array of pages
abbrev pub outside : ℕ → ℕ → ℕ → ℕ → ℕ
outside a b p k = if leb a p && ltb p b then 0 else k

pub whole_pages : (x : ℕ) → align_down x page_size ≡ align_down x page_size / page_size * page_size
whole_pages x = omega arith

-- A region does not end behind the last page.
abbrev pub Known : ℕ → MemoryRegion → Type 0
Known total r = (r.kind ≢ mmap_free) ⊎ (end_page r ≤ total)

abbrev pub Given : ℕ → ℕ → List MemoryRegion → Pmm → Pmm → Type 0
Given a b rs s s' =
    IsValid s' []
    × (s'.total_pages ≡ s.total_pages)
    × ((p : ℕ) → free_blocks p s' ≡ free_blocks p s + outside a b p (usable p rs))

module _ (a b : ℕ) where
  add_region-Given :
      (r : MemoryRegion) (s : Pmm)
      → Known s.total_pages r
      → IsValid s []
      → ((p : ℕ) → free_blocks p s + outside a b p (usable p (r ∷ [])) ≤ 1)
      → Given a b (r ∷ []) s (add_region (a * page_size) (b * page_size) r s)
  add_region-Given r s known valid unused = elim (Bool-cases (r.kind == mmap_free)) [
    | inr f ↦
        let call : add_region (a * page_size) (b * page_size) r s ≡ s = rw f refl in
        let none_new : (p : ℕ) → outside a b p (usable p (r ∷ [])) ≡ 0 = λ p. rw f (ground arith) in
        subst (Given a b (r ∷ []) s) (sym call) (valid, refl, λ p. omega (arith, none_new p))
    | inl f ↦
        let e : ℕ = end_page r in
        let c : ℕ = start_page r in
        let known' : e ≤ s.total_pages = elim known [
          | inl ne ↦ absurd (ne (ground (arith, f)))
          | inr le ↦ le
        ] in
        let rounds : ℕ = (region_end r - region_start r) / page_size in
        let ends : region_end r ≡ e * page_size = whole_pages (word (r.base + r.length)) in
        let starts : region_start r ≡ c * page_size = whole_pages (word (r.base + page_size - 1)) in
        let enough : e ≤ rounds + c = omega (arith, ends, starts) in
        let bound : e * page_size < 2 ^ 64 = omega (arith, ends) in
        let new : (p : ℕ) → new_page a b c e p ≡ outside a b p (usable p (r ∷ [])) =
          λ p. rw f (ground arith) in
        let (valid', total, free) =
          carve-Carved rounds a b e c s enough known' bound valid
            (λ p. omega (arith, unused p, new p)) in
        let call : add_region (a * page_size) (b * page_size) r s
            ≡ carve rounds (a * page_size) (b * page_size) (e * page_size) (c * page_size) s =
          rw f (
            ap (λ (x : ℕ). carve rounds (a * page_size) (b * page_size) x (region_start r) s) ends
            ∙ ap (λ (x : ℕ). carve rounds (a * page_size) (b * page_size) (e * page_size) x s)
                starts) in
        subst (Given a b (r ∷ []) s) (sym call) (valid', total, λ p. omega (arith, free p, new p))
  ]

  outside-usable :
      (p : ℕ) (r : MemoryRegion) (rs : List MemoryRegion)
      → outside a b p (usable p (r ∷ rs))
        ≡ outside a b p (usable p (r ∷ [])) + outside a b p (usable p rs)
  outside-usable p r rs = elim (Bool-cases (leb a p && ltb p b)) [
    | inl f ↦ rw f refl
    | inr f ↦ rw f (omega arith)
  ]

  pub add_regions-Given :
      (rs : List MemoryRegion) (s : Pmm)
      → All (Known s.total_pages) rs
      → IsValid s []
      → ((p : ℕ) → free_blocks p s + outside a b p (usable p rs) ≤ 1)
      → Given a b rs s (add_regions (a * page_size) (b * page_size) rs s)
  add_regions-Given [] s known valid unused = (valid, refl, λ p. ground arith)
  add_regions-Given (r ∷ rs) s (known, others) valid unused =
      let s' : Pmm = add_region (a * page_size) (b * page_size) r s in
      let (valid', total, free) =
        add_region-Given r s known valid (λ p. omega (arith, unused p, outside-usable p r rs)) in
      let (valid'', total', free') =
        add_regions-Given rs s' (subst (λ (n : ℕ). All (Known n) rs) (sym total) others) valid'
          (λ p. omega (arith, unused p, outside-usable p r rs, free p)) in
      (valid'', total' ∙ total, λ p. omega (arith, free p, free' p, outside-usable p r rs))

-- `max_end` is behind every region of free memory, and below 2 ^ 52.
max_end-from : (rs : List MemoryRegion) (m : ℕ) → m ≤ max_end rs m
max_end-from [] m = omega arith
max_end-from (r ∷ rs) m =
    let e : ℕ = word (r.base + r.length) in
    let next : ℕ = if has_pages r && ltb m e then e else m in
    let up : m ≤ next = ground arith in omega (arith, up, max_end-from rs next)

abbrev Below : ℕ → MemoryRegion → Type 0
Below n r = (r.kind ≢ mmap_free) ⊎ (word (r.base + r.length) ≤ n)

max_end-Below : (rs : List MemoryRegion) (m : ℕ) → All (Below (max_end rs m)) rs
max_end-Below [] m = tt
max_end-Below (r ∷ rs) m =
    let e : ℕ = word (r.base + r.length) in
    let next : ℕ = if has_pages r && ltb m e then e else m in
    (
      elim (Bool-cases (r.kind == mmap_free)) [
        | inr f ↦ inl (λ same. ground arith)
        | inl f ↦
            let reached : e ≤ next = ground (arith, f) in
            inr (omega (arith, reached, max_end-from rs next))
      ],
      max_end-Below rs next,
    )

max_end_small :
    (rs : List MemoryRegion) (m : ℕ) → All InMemory rs → m ≤ 2 ^ 52 → max_end rs m ≤ 2 ^ 52
max_end_small [] m fits h = h
max_end_small (r ∷ rs) m (fit, fits) h =
    let e : ℕ = word (r.base + r.length) in
    let next : ℕ = if has_pages r && ltb m e then e else m in
    let small : e ≤ 2 ^ 52 = omega (arith, fit) in
    let next_small : next ≤ 2 ^ 52 = ground (arith, small, h) in
    max_end_small rs next fits next_small

pub All-Known : (rs : List MemoryRegion) → All InMemory rs → All (Known (total_pages_of rs)) rs
All-Known rs fits =
    All-map (Below (max_end rs 0)) (Known (total_pages_of rs))
      (λ r below. elim below [
        | inl ne ↦ inl ne
        | inr le ↦ inr (
            rounded (word (r.base + r.length)) (max_end rs 0) le
              (max_end_small rs 0 fits (omega arith)))
      ])
      rs (max_end-Below rs 0)
  where
    rounded :
        (x m : ℕ)
        → x ≤ m
        → m ≤ 2 ^ 52
        → align_down x page_size / page_size ≤ align_up m page_size / page_size
    rounded x m le small = omega arith

-- The array lies in whole pages.
abbrev pub ArrayFits : ℕ → ℕ → Type 0
ArrayFits size start = (start ≡ start / page_size * page_size) × (start + size < 2 ^ 64)

pub array_at-ArrayFits :
    (rs : List MemoryRegion) (size : ℕ) → size < 2 ^ 64 → ArrayFits size (array_at rs size)
array_at-ArrayFits [] size h = (omega arith, omega (arith, h))
array_at-ArrayFits (r ∷ rs) size h =
    elim (Bool-cases (
      (r.kind == mmap_free)
      && ltb (region_start r) (region_end r)
      && leb size (region_end r - region_start r))) [
        | inl f ↦
            let room : region_start r < region_end r = ground (arith, f) in
            let fits : size ≤ region_end r - region_start r = ground (arith, f) in
            rw f (whole_pages (word (r.base + page_size - 1)), omega (arith, room, fits))
        | inr f ↦ rw f (array_at-ArrayFits rs size h)
      ]
