-- ===== src/Vma/RbTree/Kept.antt =====
-- What insertions and removals do to the areas of the tree, and what they keep of its shape.
use doppio.Prelude.{ℕ, ◌≡◌, ◌+◌, ◌*◌, ◌^◌, ◌≤◌, length}
use doppio.Vma.{VmArea, Tree}
use doppio.Vma.RbTree.{vma_insert, list_insert}
use doppio.Vma.RbTree.InOrder.{in_order, Disjoint}
use doppio.Vma.RbTree.Insert.{insert_sorted, in_order-insert}
use doppio.Vma.RbTree.Balance.{IsRedBlack, insert-IsRedBlack}
use doppio.Vma.RbTree.Height.{height, height-IsRedBlack}
use doppio.Vma.RbTree.Erase.{vma_erase}
use doppio.Vma.RbTree.Erase.Delete.{list_del, in_order-erase}
use doppio.Vma.RbTree.Erase.Recolor.{erase-IsRedBlack}

-- A red-black tree is still red-black after `vma_insert` of any area and after `vma_erase` at any
-- address: the root is black, no red area has a red child, and every way down from the root meets
-- the same number of black areas. The longest way down has at most 2 n areas, for an n with
-- 2 ^ n at most the number of areas plus one.
pub insert_erase-IsRedBlack :
    (t : Tree) (v : VmArea) (start : ℕ)
    → IsRedBlack t
    → IsRedBlack (vma_insert t v)
      × IsRedBlack (vma_erase t start)
      × ((n : ℕ) × (height t ≤ 2 * n) × (2 ^ n ≤ length (in_order t) + 1))
insert_erase-IsRedBlack t v start h =
    (insert-IsRedBlack t v h, erase-IsRedBlack t start h, height-IsRedBlack t h)

-- On areas that do not overlap, `vma_insert` puts an area at its place in the order of addresses,
-- behind those that start no later, in the tree and in the list of areas alike, and `vma_erase`
-- takes the area that starts at an address out of the tree as `list_del` takes it out of the list;
-- the rebalancing moves no other area.
pub in_order-insert_erase :
    (t : Tree) (v : VmArea) (start : ℕ)
    → Disjoint (in_order t)
    → (in_order (vma_insert t v) ≡ insert_sorted v (in_order t))
      × (list_insert t v (in_order t) ≡ in_order (vma_insert t v))
      × (in_order (vma_erase t start) ≡ list_del start (in_order t))
in_order-insert_erase t v start d =
    let (tree, list) = in_order-insert t v d in (tree, list, in_order-erase t start d)
