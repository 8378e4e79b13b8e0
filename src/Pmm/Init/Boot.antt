-- ===== src/Pmm/Init/Boot.antt =====
-- The allocator as `pmm_init` leaves it.
use mathlib.Core.Path.{subst}
use doppio.Prelude.{
  ℕ, ◌+◌, ◌-◌, ◌*◌, ◌/◌, ◌%◌, ◌^◌, ◌<◌, ◌≤◌, ◌≡◌, ◌≢◌, ◌⊎◌, inl, inr, ◌==◌, Bool-cases, true, false,
  refl, sym, ap, ◌∙◌, true, false, some, List, [], ◌==◌, All, arith,
}
use doppio.Pmm.{page_size, Pmm}
use doppio.Pmm.Valid.{IsValid}
use doppio.Pmm.Free.{free_blocks}
use doppio.Pmm.Init.{
  MemoryRegion, page_bytes, word, total_pages_of, array_size_of, array_at, add_regions, boot_pmm,
  pmm_init,
}
use doppio.Pmm.Init.Regions.{
  InMemory, usable, outside, whole_pages, add_regions-Given, All-Known, array_at-ArrayFits,
}

abbrev no_pages : ℕ → Pmm
no_pages total = record boot_pmm { total_pages = total }

no_pages-IsValid : (total : ℕ) → IsValid (no_pages total) []
no_pages-IsValid total =
    ((λ order head lt on. absurd on), (λ p. omega arith), (λ p free. absurd (marked_used free)), tt)
  where
    marked_used : false ≡ true → ⊥
    marked_used e = ground arith

init_regions :
    (rs : List MemoryRegion)
    → array_at rs (array_size_of (total_pages_of rs)) ≢ 0
    → pmm_init (some rs) boot_pmm
      ≡ add_regions
          (array_at rs (array_size_of (total_pages_of rs)))
          (word
            (array_at rs (array_size_of (total_pages_of rs)) + array_size_of (total_pages_of rs)))
          rs
          (no_pages (total_pages_of rs))
unfolding pmm_init
init_regions rs some_room =
    let f : (array_at rs (array_size_of (total_pages_of rs)) == 0) ≡ false =
      ground (arith, some_room) in
    rw (f, pmm_init) refl

-- The array of pages that `pmm_init` makes room for: its first page and the one behind its last
abbrev pub array_first : List MemoryRegion → ℕ
array_first rs = array_at rs (array_size_of (total_pages_of rs)) / page_size

abbrev pub array_behind : List MemoryRegion → ℕ
array_behind rs =
    (array_at rs (array_size_of (total_pages_of rs)) + array_size_of (total_pages_of rs))
    / page_size

init_nothing :
    (rs : List MemoryRegion)
    → array_at rs (array_size_of (total_pages_of rs)) ≡ 0
    → pmm_init (some rs) boot_pmm ≡ no_pages (total_pages_of rs)
unfolding pmm_init
init_nothing rs e =
    let f : (array_at rs (array_size_of (total_pages_of rs)) == 0) ≡ true = ground (arith, e) in
    rw (f, pmm_init) refl

-- What `pmm_init` makes of the address that it finds for the array
abbrev pub Booted : List MemoryRegion → Pmm → Type 0
Booted rs s =
    IsValid s []
    × (((array_at rs (array_size_of (total_pages_of rs)) ≢ 0)
          × ((p : ℕ)
              → free_blocks p s ≡ outside (array_first rs) (array_behind rs) p (usable p rs)))
        ⊎ ((array_at rs (array_size_of (total_pages_of rs)) ≡ 0) × ((p : ℕ) → free_blocks p s ≡ 0)))

with_room :
    (rs : List MemoryRegion)
    → All InMemory rs
    → ((p : ℕ) → usable p rs ≤ 1)
    → array_at rs (array_size_of (total_pages_of rs)) ≢ 0
    → let s : Pmm = pmm_init (some rs) boot_pmm in
      IsValid s []
      × ((p : ℕ) → free_blocks p s ≡ outside (array_first rs) (array_behind rs) p (usable p rs))
with_room rs fits once some_room =
    let total : ℕ = total_pages_of rs in
    let size : ℕ = array_size_of total in
    let start : ℕ = array_at rs size in
    let (begins, ends) =
      array_at-ArrayFits rs size (word_small (word (total * page_bytes) + page_size - 1)) in
    let size_whole : size ≡ size / page_size * page_size =
      whole_pages (word (word (total * page_bytes) + page_size - 1)) in
    let behind : word (start + size) ≡ array_behind rs * page_size =
      last_byte start size begins size_whole ends in
    let s : Pmm = no_pages total in
    let (valid, _, free) =
      add_regions-Given (array_first rs) (array_behind rs) rs s (All-Known rs fits)
        (no_pages-IsValid total) (λ p. at_most p (usable p rs) (once p)) in
    let call : pmm_init (some rs) boot_pmm
        ≡ add_regions (array_first rs * page_size) (array_behind rs * page_size) rs s =
      init_regions rs some_room
      ∙ ap (λ (x : ℕ). add_regions x (word (start + size)) rs s) begins
      ∙ ap (λ (x : ℕ). add_regions (array_first rs * page_size) x rs s) behind in
    subst
      (λ (s' : Pmm).
        IsValid s' []
        × ((p : ℕ) → free_blocks p s' ≡ outside (array_first rs) (array_behind rs) p (usable p rs)))
      (sym call) (valid, λ p. omega (arith, free p))
  where
    word_small : (x : ℕ) → word x - word x % page_size < 2 ^ 64
    word_small x = omega arith

    last_byte :
        (start size : ℕ)
        → start ≡ start / page_size * page_size
        → size ≡ size / page_size * page_size
        → start + size < 2 ^ 64
        → word (start + size) ≡ (start + size) / page_size * page_size
    last_byte start size e f h = omega (arith, e, f, h)

    at_most : (p k : ℕ) → k ≤ 1 → 0 + outside (array_first rs) (array_behind rs) p k ≤ 1
    at_most p k h = ground (arith, h)

-- `pmm_init` of a map of the memory with 52-bit addresses, in which no two regions of free memory
-- have a page in common: the allocator is valid, with nothing handed out. Where the search for room
-- for the array of pages ends with an address other than 0, a page is in a free block exactly if it
-- lies in a region of free memory and not in the array, and then in one. Where it ends with 0, for
-- want of room or since the first region with room begins there, no page is free.
pub pmm_init-IsValid :
    (rs : List MemoryRegion)
    → All InMemory rs
    → ((p : ℕ) → usable p rs ≤ 1)
    → Booted rs (pmm_init (some rs) boot_pmm)
pmm_init-IsValid rs fits once =
    elim (Bool-cases (array_at rs (array_size_of (total_pages_of rs)) == 0)) [
      | inr e ↦
          let some_room : array_at rs (array_size_of (total_pages_of rs)) ≢ 0 =
            λ z. ground (arith, e, z) in
          let (valid, free) = with_room rs fits once some_room in (valid, inl (some_room, free))
      | inl e ↦
          let none_found : array_at rs (array_size_of (total_pages_of rs)) ≡ 0 =
            ground (arith, e) in
          subst (Booted rs) (sym (init_nothing rs none_found))
            (no_pages-IsValid (total_pages_of rs), inr (none_found, λ p. omega arith))
    ]
