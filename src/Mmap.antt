-- ===== src/Mmap.antt =====
-- kernel/sys/sys_mmap.c: where sys_mmap puts a mapping for which the caller names no address, and
-- what it does to the areas of the address space; sys_brk on the areas. Whether the page table maps
-- a page is an argument.
pub mod Gap
pub mod Search
pub mod Place
pub mod Longer
pub mod Heap
mod Tests
use doppio.Prelude.{
  ℕ, zero, suc, ◌+◌, ◌-◌, ◌*◌, ◌/◌, ◌%◌, ◌^◌, Bool, true, false, not, Option, none, some, List,
  ◌&&◌, ◌==◌, ltb, leb, if◌then◌else◌,
}
use doppio.Errno.{Result, ok, err, enomem}
use doppio.Vma.{VmArea, Tree}
use doppio.Vma.RbTree.{vma_find, vma_find_first}
use doppio.Vma.Range.{Areas, insert, set_end, remove_range}
use doppio.Pmm.{page_size}
use doppio.Pmm.Init.{word, align_down, align_up}

-- The fields of `struct proc` that the mapping calls use
pub record Space : Type 0 where
  pub areas : Areas
  pub mmap_base : ℕ
  pub brk : ℕ
  pub stack_top : ℕ

-- Where the search begins
abbrev pub mmap_floor : ℕ
mmap_floor = 0x400000000000

-- The loop over the pages of a range: the first one that the page table maps
pub first_mapped : (ℕ → Bool) → ℕ → ℕ → Option ℕ
first_mapped mapped zero addr = none
first_mapped mapped (suc n) addr =
    let rest = first_mapped mapped n (word (addr + page_size)) in
    if mapped addr then some addr else rest

-- The search for a range of `len` bytes below `base`, for as many rounds as are given; none if it
-- goes on after them, `some none` if there is no such range.
pub find_gap : ℕ → (ℕ → Bool) → Tree → ℕ → ℕ → ℕ → Option (Option ℕ)
find_gap zero mapped root len base start = none
find_gap (suc n) mapped root len base start = elim (ltb start base) [
  | false ↦ some none
  | true ↦ elim (first_mapped mapped (len / page_size) start) [
    | some at ↦ find_gap n mapped root len base (align_up (word (at + page_size)) page_size)
    | none ↦ elim (vma_find_first root start) [
      | none ↦ some (some start)
      | some existing ↦ elim (ltb existing.start (word (start + len))) [
        | true ↦ find_gap n mapped root len base (align_up existing.end page_size)
        | false ↦ some (some start)
      ]
    ]
  ]
]

-- The new area, `vma_alloc` of the range at an address
abbrev pub new_area : ℕ → ℕ → ℕ → Option ℕ → ℕ → VmArea
new_area addr length flags vn offset = record {
  start = align_down addr page_size;
  end = align_up (word (addr + length)) page_size;
  flags = flags;
  file_offset = (offset + (2 ^ 64 - addr % page_size)) % 2 ^ 64;
  vn = vn;
}

-- `sys_mmap` without an address: its result and what is left. `granted` is false where `vma_alloc`
-- gets no memory for the area; `p_mmap_base` has been raised by then.
abbrev pub settle : Bool → ℕ → ℕ → ℕ → Option ℕ → ℕ → Space → Result ℕ × Space
settle false addr length flags vn offset s = (err enomem, s)
settle true addr length flags vn offset s =
    (ok addr, record s { areas = insert (new_area addr length flags vn offset) s.areas })

pub mmap_anywhere : Bool → ℕ → (ℕ → Bool) → ℕ → ℕ → Option ℕ → ℕ → Space → Option (Result ℕ × Space)
mmap_anywhere granted rounds mapped length flags vn offset s =
    let len : ℕ = align_up length page_size in
    elim (find_gap rounds mapped s.areas.root len s.mmap_base mmap_floor) [
      | none ↦ none
      | some (some addr) ↦ some (settle granted addr length flags vn offset s)
      | some none ↦ some (
          settle granted s.mmap_base length flags vn offset
            (record s { mmap_base = word (s.mmap_base + len) }))
    ]

-- MMU_FLAGS_USER, MMU_FLAGS_READ and MMU_FLAGS_WRITE
abbrev pub heap_flags : ℕ
heap_flags = 11

abbrev pub heap_area : ℕ → ℕ → VmArea
heap_area start end = record {
  start = start;
  end = end;
  flags = heap_flags;
  file_offset = 0;
  vn = none;
}

-- Whether an area at the start of the new range is in the way
abbrev pub in_the_way : Option VmArea → ℕ → ℕ → Bool
in_the_way none end old_brk = false
in_the_way (some existing) end old_brk = ltb existing.start end && ltb old_brk existing.end

abbrev pub no_file : Option ℕ → Bool
no_file none = true
no_file (some vn) = false

-- Whether the area in front of the break ends there and can be made longer
abbrev pub extends : Option VmArea → ℕ → Bool
extends none old_brk = false
extends (some heap) old_brk = heap.end == old_brk && no_file heap.vn

abbrev pub start_of : Option VmArea → ℕ
start_of none = 0
start_of (some heap) = heap.start

-- `sys_brk` upwards: whether `vma_alloc` gets its memory is an argument.
pub grow_brk : Bool → ℕ → Space → ℕ × Space
grow_brk granted brk s =
    let start : ℕ = align_up s.brk page_size in
    let end : ℕ = align_up brk page_size in
    let heap : Option VmArea = vma_find s.areas.root (word (s.brk + (2 ^ 64 - 1))) in
    if ltb s.stack_top end
    then (s.brk, s)
    else if in_the_way (vma_find s.areas.root start) end s.brk
    then (s.brk, s)
    else if extends heap s.brk
    then (brk, record s { areas = set_end (start_of heap) end s.areas; brk = brk })
    else if granted
    then (brk, record s { areas = insert (heap_area start end) s.areas; brk = brk })
    else (s.brk, s)

-- `sys_brk`, with the outcomes of `kmalloc`; none where the loop of `vma_remove_range` goes on after
-- the outcomes that are given.
pub sys_brk : Bool → List (Bool × Bool) → ℕ → Space → Option (ℕ × Space)
sys_brk granted grants brk s =
    if brk == 0
    then some (s.brk, s)
    else if ltb s.brk brk
    then some (grow_brk granted brk s)
    else if ltb brk s.brk
    then elim (remove_range grants (align_up brk page_size) (align_up s.brk page_size) s.areas) [
      | none ↦ none
      | some areas ↦ some (brk, record s { areas = areas; brk = brk })
    ]
    else some (brk, record s { brk = brk })
