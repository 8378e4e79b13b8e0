-- ===== src/Mmap/Tests.antt =====
-- Mappings without a wanted address.
use doppio.Prelude.{
  ℕ, ◌+◌, ◌*◌, ◌≡◌, refl, Bool, true, false, Option, none, some, List, [], ◌∷◌, inl, inr, arith,
}
use doppio.Errno.{Result, ok}
use doppio.Vma.{VmArea, red, black, leaf, node}
use doppio.Vma.RbTree.{
  vma_find, list_insert, add_before, add_after, find_prev_from, vma_find_prev, vma_find_first,
  find_first_from, vma_insert, descend, rb_insert_fixup,
}
use doppio.Pmm.{page_size}
use doppio.Mmap.{Space, mmap_floor, mmap_anywhere, heap_area, grow_brk, sys_brk}
use doppio.Mmap.Heap.{Grown, sys_brk-Grown}

abbrev none_mapped : ℕ → Bool
none_mapped page = false

abbrev page_area : ℕ → VmArea
page_area n = record {
  start = mmap_floor + n * page_size;
  end = mmap_floor + n * page_size + page_size;
  flags = 11;
  file_offset = 0;
  vn = none;
}

-- Two pages were mapped, and the second one was unmapped again.
abbrev one_left : Space
one_left = record {
  areas = record { root = node black leaf (page_area 0) leaf; areas = page_area 0 ∷ [] };
  mmap_base = mmap_floor + 2 * page_size;
  brk = 0;
  stack_top = 0x7ffff0000000;
}

abbrev address : Option (Result ℕ × Space) → ℕ
address (some (ok addr, s)) = addr
address _ = 0

abbrev space_after : Option (Result ℕ × Space) → Space
space_after none = one_left
space_after (some (r, s)) = s

-- Three pages fit behind the one that is left, though they reach over `p_mmap_base`, which stays;
-- the next page is put at `p_mmap_base`, on the second one of the three.
abbrev three_pages : Option (Result ℕ × Space)
three_pages = mmap_anywhere true 3 none_mapped 12288 11 none 0 one_left

overlapping_mappings :
    (address three_pages ≡ mmap_floor + page_size)
    × (address (mmap_anywhere true 3 none_mapped 4096 11 none 0 (space_after three_pages))
        ≡ mmap_floor + 2 * page_size)
unfolding mmap_anywhere doppio.Mmap.find_gap doppio.Mmap.first_mapped vma_find_first find_first_from
    vma_insert descend rb_insert_fixup
overlapping_mappings = (refl, refl)

-- A heap of one page, and an area three pages behind it
abbrev two_areas : List VmArea
two_areas = heap_area 0x600000 0x601000 ∷ heap_area 0x604000 0x605000 ∷ []

abbrev with_heap : Space
with_heap = record {
  areas = record {
    root =
        node black leaf (heap_area 0x600000 0x601000)
          (node red leaf (heap_area 0x604000 0x605000) leaf);
    areas = two_areas;
  };
  mmap_base = mmap_floor;
  brk = 0x601000;
  stack_top = 0x7ffff0000000;
}

sys_brk-Grown_example : Grown 0x602800 with_heap two_areas (sys_brk true [] 0x602800 with_heap)
sys_brk-Grown_example =
    sys_brk-Grown [] 0x602800 with_heap two_areas (refl, refl)
      (omega arith, (omega arith, tt), (omega arith, tt, tt)) (refl, (refl, tt)) (omega arith)
      (omega arith) (omega arith) (omega arith) (omega arith)
      (inl (omega arith), (inr (omega arith), tt))

-- The heap grows over the other area: only the first page of the new range is looked at.
heap_overlaps :
    (grow_brk true 0x606000 with_heap).1.areas.areas
    ≡ heap_area 0x600000 0x606000 ∷ heap_area 0x604000 0x605000 ∷ []
unfolding grow_brk vma_find
heap_overlaps = refl

-- A break that moves inside of a page adds an area without addresses.
empty_area :
    (grow_brk true 0x600900 (record with_heap { brk = 0x600800 })).1.areas.areas
    ≡ heap_area 0x600000 0x601000 ∷ heap_area 0x601000 0x601000 ∷ heap_area 0x604000 0x605000 ∷ []
unfolding grow_brk vma_find vma_insert descend rb_insert_fixup list_insert add_before add_after
    find_prev_from vma_find_prev
empty_area = refl
