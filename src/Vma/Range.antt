-- ===== src/Vma/Range.antt =====
-- kernel/mm/vma.c: the areas of an address space, cut, merged and removed.
pub mod Places
pub mod Rounds
pub mod Steps
pub mod Remove
pub mod View
pub mod Neighbours
pub mod Merge
mod Tests
use doppio.Prelude.{
  ℕ, ◌+◌, ◌-◌, ◌%◌, ◌^◌, Bool, true, false, ◌&&◌, ◌||◌, not, Option, none, some, List, [], ◌∷◌, ltb,
  leb, ◌==◌, if◌then◌else◌,
}
use doppio.Vma.{VmArea, Tree, leaf, node}
use doppio.Vma.RbTree.{vma_insert, list_insert, vma_find_first}
use doppio.Vma.RbTree.Erase.{vma_erase}
use doppio.Vma.RbTree.Erase.Delete.{list_del}

-- The root of the tree and the list of areas of an address space, which hold the same areas
pub record Areas : Type 0 where
  pub root : Tree
  pub areas : List VmArea

-- `vma_insert` and `vma_erase` on both; the start of an area stands for the pointer to it.
abbrev pub insert : VmArea → Areas → Areas
insert v s = record { root = vma_insert s.root v; areas = list_insert s.root v s.areas }

abbrev pub erase : ℕ → Areas → Areas
erase start s = record { root = vma_erase s.root start; areas = list_del start s.areas }

-- A write of the `end` of the area that starts at `start`
abbrev pub with_end : ℕ → ℕ → VmArea → VmArea
with_end start end v = if v.start == start then record v { end = end } else v

abbrev pub tree_set_end : ℕ → ℕ → Tree → Tree
tree_set_end start end leaf = leaf
tree_set_end start end (node c l v r) =
    node c (tree_set_end start end l) (with_end start end v) (tree_set_end start end r)

abbrev pub list_set_end : ℕ → ℕ → List VmArea → List VmArea
list_set_end start end [] = []
list_set_end start end (x ∷ xs) = with_end start end x ∷ list_set_end start end xs

abbrev pub set_end : ℕ → ℕ → Areas → Areas
set_end start end s = record {
  root = tree_set_end start end s.root;
  areas = list_set_end start end s.areas;
}

-- The new area of `vma_split`; an offset is the 64 bits of its `int64_t`.
abbrev pub tail_from : ℕ → VmArea → VmArea
tail_from addr v = record v {
  start = addr;
  file_offset = (v.file_offset + (addr - v.start)) % 2 ^ 64;
}

-- `vma_split`: whether `kmalloc` grants the new area is an argument.
pub vma_split : Bool → VmArea → ℕ → Areas → Option VmArea × Areas
vma_split granted v addr s =
    if leb addr v.start || leb v.end addr
    then (some v, s)
    else if not granted
    then (none, s)
    else (some (tail_from addr v), insert (tail_from addr v) (set_end v.start addr s))

-- The neighbours of an area in the list
pub vma_next : ℕ → List VmArea → Option VmArea
vma_next start [] = none
vma_next start (x ∷ []) = none
vma_next start (x ∷ y ∷ xs) =
    let rest = vma_next start (y ∷ xs) in if x.start == start then some y else rest

pub vma_prev : ℕ → List VmArea → Option VmArea
vma_prev start [] = none
vma_prev start (x ∷ []) = none
vma_prev start (x ∷ y ∷ xs) =
    let rest = vma_prev start (y ∷ xs) in if y.start == start then some x else rest

abbrev pub same_vn : Option ℕ → Option ℕ → Bool
same_vn none none = true
same_vn (some a) (some b) = a == b
same_vn _ _ = false

-- The test of `vma_merge_adjacent`: the second area goes on where the first one ends.
abbrev pub continues : VmArea → VmArea → Bool
continues v w =
    v.end == w.start
    && (v.flags == w.flags)
    && same_vn v.vn w.vn
    && ((v.file_offset + (v.end - v.start)) % 2 ^ 64 == w.file_offset)

-- The two halves of `vma_merge_adjacent`; the first one returns the area with its new end.
pub merge_next : VmArea → Areas → VmArea × Areas
merge_next v s = elim (vma_next v.start s.areas) [
  | none ↦ (v, s)
  | some next ↦
      if continues v next
      then (record v { end = next.end }, erase next.start (set_end v.start next.end s))
      else (v, s)
]

pub merge_prev : VmArea → Areas → Areas
merge_prev v s = elim (vma_prev v.start s.areas) [
  | none ↦ s
  | some prev ↦ if continues prev v then erase v.start (set_end prev.start v.end s) else s
]

pub vma_merge_adjacent : VmArea → Areas → Areas
vma_merge_adjacent v s = let (v', s') = merge_next v s in merge_prev v' s'

-- Where a round of the loop of `vma_remove_range` leads
pub data Outcome : Type 0 where
  stop : Areas → Outcome
  again : Areas → Outcome

-- A round at an area that starts in front of the range
pub cut_right : ℕ → Option VmArea × Areas → Outcome
cut_right end (none, s) = stop s
cut_right end (some tail, s) = again (erase tail.start s)

pub cut_left : Bool → ℕ → Option VmArea × Areas → Outcome
cut_left granted end (none, s) = stop s
cut_left granted end (some right, s) =
    if ltb end right.end
    then cut_right end (vma_split granted right end s)
    else again (erase right.start s)

-- A round at an area that starts in the range and ends behind it
pub cut_front : ℕ → Option VmArea × Areas → Outcome
cut_front start (none, s) = again s
cut_front start (some right, s) = again (erase start s)

-- A round of the loop, with the outcomes of its calls of `kmalloc`
pub remove_round : Bool × Bool → ℕ → ℕ → Areas → Outcome
remove_round grants start end s = elim (vma_find_first s.root start) [
  | none ↦ stop s
  | some v ↦
      if leb end v.start
      then stop s
      else if ltb v.start start
      then cut_left grants.1 end (vma_split grants.0 v start s)
      else if ltb end v.end
      then cut_front v.start (vma_split grants.0 v end s)
      else again (erase v.start s)
]

-- `vma_remove_range`, for as many rounds as outcomes of `kmalloc` are given; `none` if it goes on
-- after them.
pub remove_range : List (Bool × Bool) → ℕ → ℕ → Areas → Option Areas
remove_range [] start end s = none
remove_range (grants ∷ rounds) start end s = elim (remove_round grants start end s) [
  | stop s' ↦ some s'
  | again s' ↦ remove_range rounds start end s'
]
