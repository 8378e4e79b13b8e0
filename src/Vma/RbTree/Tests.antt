-- ===== src/Vma/RbTree/Tests.antt =====
-- A tree of areas for the theorems, and runs of the operations.
use doppio.Prelude.{ℕ, ◌≡◌, refl, ◌+◌, ◌*◌, ◌^◌, ◌≤◌, none, length, arith}
use doppio.Vma.{VmArea, red, black, Tree, leaf, node}
use doppio.Vma.RbTree.{
  rb_insert_fixup, descend, vma_insert, list_insert, vma_find, vma_find_prev, vma_find_first,
}
use doppio.Vma.RbTree.InOrder.{in_order}
use doppio.Vma.RbTree.Insert.{insert_sorted}
use doppio.Vma.RbTree.Balance.{IsRedBlack}
use doppio.Vma.RbTree.Height.{height}
use doppio.Vma.RbTree.Kept.{in_order-insert_erase, insert_erase-IsRedBlack}
use doppio.Vma.RbTree.Search.{holding, starting_before, ending_after, search_list}
use doppio.Vma.RbTree.Erase.{vma_erase}
use doppio.Vma.RbTree.Erase.Delete.{list_del}

abbrev area : ℕ → ℕ → VmArea
area a b = record { start = a; end = b; flags = 3; file_offset = 0; vn = none }

-- Three areas, a black one over two red ones
abbrev three : Tree
three = node black (node red leaf (area 10 20) leaf) (area 20 30) (node red leaf (area 40 50) leaf)

-- Insertion at a red uncle, then a rotation
insert_twice :
    vma_insert (vma_insert three (area 60 70)) (area 50 60)
    ≡ node black (node black leaf (area 10 20) leaf) (area 20 30) (
        node black (node red leaf (area 40 50) leaf) (area 50 60) (node red leaf (area 60 70) leaf))
unfolding vma_insert rb_insert_fixup descend
insert_twice = refl

find_in_gap : vma_find three 35 ≡ none
unfolding vma_find
find_in_gap = refl

in_order-insert_erase_example :
    (in_order (vma_insert three (area 30 35)) ≡ insert_sorted (area 30 35) (in_order three))
    × (list_insert three (area 30 35) (in_order three) ≡ in_order (vma_insert three (area 30 35)))
    × (in_order (vma_erase three 20) ≡ list_del 20 (in_order three))
in_order-insert_erase_example = in_order-insert_erase three (area 30 35) 20 (
  omega arith,
  (omega arith, (omega arith, tt)),
  (omega arith, (omega arith, tt), (omega arith, tt, tt)),
)

insert_erase-IsRedBlack_example :
    IsRedBlack (vma_insert three (area 30 35))
    × IsRedBlack (vma_erase three 20)
    × ((n : ℕ) × (height three ≤ 2 * n) × (2 ^ n ≤ length (in_order three) + 1))
insert_erase-IsRedBlack_example = insert_erase-IsRedBlack three (area 30 35) 20 (
  refl,
  (1, ((0, refl, (refl, refl), (refl, refl)), ((refl, refl, tt, tt), (refl, refl, tt, tt)))),
)

search_list_example :
    (vma_find three 45 ≡ holding (in_order three) 45)
    × (vma_find_prev three 45 ≡ starting_before (in_order three) 45)
    × (vma_find_first three 45 ≡ ending_after (in_order three) 45)
search_list_example = search_list three 45 (
  omega arith,
  (omega arith, (omega arith, tt)),
  (omega arith, (omega arith, tt), (omega arith, tt, tt)),
)
