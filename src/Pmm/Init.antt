-- ===== src/Pmm/Init.antt =====
-- kernel/arch/x86_64/mmu.c: pmm_init, which gives the free memory to the page allocator. Addresses
-- are numbers of bytes, with 64 bits.
pub mod Orders
pub mod Carve
pub mod Regions
pub mod Boot
mod Tests
use doppio.Prelude.{
  ℕ, zero, suc, ◌+◌, ◌-◌, ◌*◌, ◌/◌, ◌%◌, ◌^◌, Bool, false, true, ◌&&◌, ◌||◌, Option, none, some,
  List, [], ◌∷◌, ltb, leb, ◌==◌, if◌then◌else◌,
}
use doppio.Pmm.{max_order, page_size, Page, Pmm, set_page, add_to_list, phys_to_page}

pub record MemoryRegion : Type 0 where
  pub base : ℕ
  pub length : ℕ
  pub kind : ℕ

abbrev pub mmap_free : ℕ
mmap_free = 0

abbrev pub mmap_bootloader_reclaim : ℕ
mmap_bootloader_reclaim = 5

abbrev pub mmap_kernel_and_modules : ℕ
mmap_kernel_and_modules = 6

-- `sizeof(page_t)`
abbrev pub page_bytes : ℕ
page_bytes = 56

abbrev pub word : ℕ → ℕ
word x = x % 2 ^ 64

-- ALIGN_DOWN and ALIGN_UP, for an alignment that is a power of two
abbrev pub align_down : ℕ → ℕ → ℕ
align_down x a = x - x % a

abbrev pub align_up : ℕ → ℕ → ℕ
align_up x a = align_down (word (x + a - 1)) a

abbrev pub has_pages : MemoryRegion → Bool
has_pages r =
    (r.kind == mmap_free)
    || (r.kind == mmap_kernel_and_modules)
    || (r.kind == mmap_bootloader_reclaim)

-- The loop for `max_usable_addr`
abbrev pub max_end : List MemoryRegion → ℕ → ℕ
max_end [] m = m
max_end (r ∷ rs) m =
    let e : ℕ = word (r.base + r.length) in max_end rs (if has_pages r && ltb m e then e else m)

abbrev pub total_pages_of : List MemoryRegion → ℕ
total_pages_of regions = align_up (max_end regions 0) page_size / page_size

abbrev pub array_size_of : ℕ → ℕ
array_size_of total = align_up (word (total * page_bytes)) page_size

abbrev pub region_start : MemoryRegion → ℕ
region_start r = align_up r.base page_size

abbrev pub region_end : MemoryRegion → ℕ
region_end r = align_down (word (r.base + r.length)) page_size

-- The loop that looks for room for the array of pages; 0 if there is none. Room that begins at the
-- address 0 is taken for none as well.
abbrev pub array_at : List MemoryRegion → ℕ → ℕ
array_at [] size = 0
array_at (r ∷ rs) size =
    let rest : ℕ = array_at rs size in
    if (r.kind == mmap_free)
      && ltb (region_start r) (region_end r)
      && leb size (region_end r - region_start r)
    then region_start r
    else rest

-- The loop over the orders, from the order below `n` on down
abbrev pub largest_order : ℕ → ℕ → ℕ → ℕ
largest_order remaining curr zero = 0
largest_order remaining curr (suc n) =
    let rest : ℕ = largest_order remaining curr n in
    if leb (page_size * 2 ^ n) remaining && (curr % (page_size * 2 ^ n) == 0) then n else rest

-- How far the block at `curr` may reach
abbrev pub limit_of : ℕ → ℕ → ℕ → ℕ
limit_of array_start end curr =
    if ltb curr array_start && ltb array_start end then array_start else end

abbrev pub order_at : ℕ → ℕ → ℕ → ℕ
order_at array_start end curr = largest_order (limit_of array_start end curr - curr) curr max_order

-- The pages from `curr` to `end`, without those of the array; a page behind the last one would be a
-- null pointer that the code follows, and the model stops.
pub carve : ℕ → ℕ → ℕ → ℕ → ℕ → Pmm → Pmm
carve zero array_start array_end end curr s = s
carve (suc n) array_start array_end end curr s =
    let order : ℕ = order_at array_start end curr in
    elim (ltb curr end) [
      | false ↦ s
      | true ↦ elim (leb array_start curr && ltb curr array_end) [
        | true ↦ carve n array_start array_end end array_end s
        | false ↦ elim (phys_to_page s.total_pages curr) [
          | none ↦ s
          | some page ↦ carve n array_start array_end end (word (curr + page_size * 2 ^ order)) (
              add_to_list order page
                (set_page s page (record (s.pages page) { is_free = true; order = order })))
        ]
      ]
    ]

-- A round for each page is enough.
abbrev pub add_region : ℕ → ℕ → MemoryRegion → Pmm → Pmm
add_region array_start array_end r s =
    let rounds : ℕ = (region_end r - region_start r) / page_size in
    if r.kind == mmap_free
    then carve rounds array_start array_end (region_end r) (region_start r) s
    else s

abbrev pub add_regions : ℕ → ℕ → List MemoryRegion → Pmm → Pmm
add_regions array_start array_end [] s = s
add_regions array_start array_end (r ∷ rs) s =
    add_regions array_start array_end rs (add_region array_start array_end r s)

abbrev pub zero_page : Page
zero_page = record { is_free = false; order = 0; ref_count = 0 }

-- `g_pmm` when the kernel starts
abbrev pub boot_pmm : Pmm
boot_pmm = record { free_lists = λ order. []; pages = λ page. zero_page; total_pages = 0 }

-- None is a null `g_boot_info.mmap`.
pub pmm_init : Option (List MemoryRegion) → Pmm → Pmm
pmm_init none s = s
pmm_init (some regions) s =
    let total : ℕ = total_pages_of regions in
    let size : ℕ = array_size_of total in
    let start : ℕ = array_at regions size in
    if start == 0
    then record s { total_pages = total }
    else add_regions start (word (start + size)) regions
        (record s { pages = λ p. zero_page; total_pages = total })
