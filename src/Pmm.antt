-- ===== src/Pmm.antt =====
-- kernel/arch/x86_64/mmu.c: the buddy allocator of physical pages. A page is its index in
-- all_pages_array; a free list, linked through the pages, is a list of pages.
pub mod Blocks
pub mod Cover
pub mod Valid
pub mod Buddies
pub mod Merge
pub mod Free
pub mod Cut
pub mod Alloc
pub mod Flow
pub mod Init
mod Tests
use doppio.Prelude.{
  ℕ, zero, suc, ◌+◌, ◌-◌, ◌*◌, ◌/◌, ◌%◌, ◌^◌, Bool, true, false, not, ◌&&◌, ◌||◌, Option, none,
  some, List, [], ◌∷◌, ltb, leb, ◌==◌, if◌then◌else◌,
}

abbrev pub max_order : ℕ
max_order = 11

abbrev pub page_size : ℕ
page_size = 4096

-- The fields of `struct page` that the allocator writes
pub record Page : Type 0 where
  pub is_free : Bool
  pub order : ℕ
  pub ref_count : ℕ

pub record Pmm : Type 0 where
  pub free_lists : ℕ → List ℕ
  pub pages : ℕ → Page
  pub total_pages : ℕ

-- An array with another element at an index
abbrev pub set_at {ℓ} : {A : Type ℓ} → (ℕ → A) → ℕ → A → ℕ → A
set_at f i v j = if j == i then v else f j

abbrev pub set_list : Pmm → ℕ → List ℕ → Pmm
set_list s order xs = record s { free_lists = set_at s.free_lists order xs }

abbrev pub set_page : Pmm → ℕ → Page → Pmm
set_page s page v = record s { pages = set_at s.pages page v }

-- `add_to_list` and `remove_from_list`. A page is removed from a list that it is on: for another one
-- the source would write the links that the page has, and the model changes nothing.
abbrev pub add_to_list : ℕ → ℕ → Pmm → Pmm
add_to_list order page s = set_list s order (page ∷ s.free_lists order)

abbrev pub without : ℕ → List ℕ → List ℕ
without page [] = []
without page (x ∷ xs) = let rest = without page xs in if x == page then xs else x ∷ rest

abbrev pub remove_from_list : ℕ → ℕ → Pmm → Pmm
remove_from_list order page s = set_list s order (without page (s.free_lists order))

abbrev pub page_to_phys : ℕ → ℕ
page_to_phys page = page * page_size

-- Null for an address behind the last page
abbrev pub phys_to_page : ℕ → ℕ → Option ℕ
phys_to_page total phys = let i : ℕ = phys / page_size in if leb total i then none else some i

-- `x ^ b`, for a `b` that is a power of two
abbrev pub flip_bit : ℕ → ℕ → ℕ
flip_bit b x = if x / b % 2 == 0 then x + b else x - b

pub get_buddy : ℕ → ℕ → ℕ → Option ℕ
get_buddy total page order =
    phys_to_page total (flip_bit (page_size * 2 ^ order) (page_to_phys page))

-- The loop that looks for a block, `n` orders before the end: its order and its first page
pub find_block : (ℕ → List ℕ) → ℕ → ℕ → Option (ℕ × ℕ)
find_block lists order zero = none
find_block lists order (suc n) = elim (lists order) [
  | [] ↦ find_block lists (order + 1) n
  | page ∷ rest ↦ some (order, page)
]

-- The loop that cuts a block of `n` orders more than wanted; a buddy that is not there would be
-- a null pointer that the code follows, and the model stops.
pub split_block : ℕ → ℕ → ℕ → Pmm → Pmm
split_block order page zero s = s
split_block order page (suc n) s = elim (get_buddy s.total_pages page (order + n)) [
  | none ↦ s
  | some buddy ↦ split_block order page n (
      add_to_list (order + n) buddy
        (set_page s buddy (record (s.pages buddy) { is_free = true; order = order + n })))
]

pub pmm_alloc_pages : ℕ → Pmm → Option ℕ × Pmm
pmm_alloc_pages order s = elim (find_block s.free_lists order (max_order - order)) [
  | none ↦ (none, s)
  | some (current_order, page) ↦
      let s' : Pmm =
        split_block order page (current_order - order) (remove_from_list current_order page s) in
      (some page, set_page s' page (record { is_free = false; order = order; ref_count = 0 }))
]

-- Whether the buddy of a page can be merged with it
abbrev pub mergeable : Pmm → ℕ → ℕ → Bool
mergeable s buddy order =
    ltb buddy s.total_pages && (s.pages buddy).is_free && ((s.pages buddy).order == order)

-- The loop of `pmm_free_pages`, `n` orders before the last
pub merge_block : ℕ → ℕ → ℕ → Pmm → Pmm
merge_block zero page order s = add_to_list order page s
merge_block (suc n) page order s = elim (get_buddy s.total_pages page order) [
  | none ↦ add_to_list order page s
  | some buddy ↦
      let s' : Pmm = remove_from_list order buddy s in
      let page' : ℕ = if ltb buddy page then buddy else page in
      elim (mergeable s buddy order) [
        | false ↦ add_to_list order page s
        | true ↦
            merge_block n page' (suc order)
              (set_page s' page' (record (s'.pages page') { order = suc order }))
      ]
]

pub pmm_free_pages : ℕ → ℕ → Pmm → Pmm
pmm_free_pages page order s =
    merge_block (max_order - 1 - order) page order
      (set_page s page (record (s.pages page) { is_free = true; order = order }))
