-- ===== src/Vma/Range/Tests.antt =====
-- Three areas for the theorem, and a run of the loop.
use doppio.Prelude.{ℕ, ◌≡◌, refl, true, none, some, List, [], ◌∷◌, replicate, arith}
use doppio.Vma.{VmArea, red, black, leaf, node}
use doppio.Vma.RbTree.InOrder.{Disjoint}
use doppio.Vma.Range.{Areas, vma_split, vma_merge_adjacent, remove_range}
use doppio.Vma.Range.Merge.{SameView, split_merge-SameView}
use doppio.Vma.Range.Places.{Holds}
use doppio.Vma.Range.View.{view, left_of, remove_range-view}

abbrev area : ℕ → ℕ → VmArea
area a b = record { start = a; end = b; flags = 3; file_offset = 0; vn = none }

abbrev three : List VmArea
three = area 10 20 ∷ area 20 30 ∷ area 40 80 ∷ []

abbrev space : Areas
space = record {
  root =
      node black (node red leaf (area 10 20) leaf) (area 20 30) (node red leaf (area 40 80) leaf);
  areas = three;
}

-- A hole in the last area: the part behind it goes too.
remove_range-view_example :
    (s' : Areas) × (ys : List VmArea) × (remove_range (replicate 7 (true, true)) 50 60 space
      ≡ some s')
    × Holds s' ys
    × Disjoint ys
    × ((a : ℕ) → view ys a ≡ left_of 50 60 three a)
remove_range-view_example =
    remove_range-view 50 60 7 space three (omega arith) (omega arith)
      (
        omega arith,
        (omega arith, (omega arith, tt)),
        (omega arith, (omega arith, tt), (omega arith, tt, tt)),
      )
      (refl, refl)

-- Two areas of which the second goes on where the first one ends
abbrev second : VmArea
second = record (area 20 30) { file_offset = 10 }

abbrev mergeable : Areas
mergeable = record {
  root = node black leaf (area 10 20) (node red leaf second leaf);
  areas = area 10 20 ∷ second ∷ [];
}

split_merge-SameView_example :
    SameView (vma_split true (area 10 20) 15 mergeable).1 (area 10 20 ∷ second ∷ [])
    × SameView (vma_merge_adjacent (area 10 20) mergeable) (area 10 20 ∷ second ∷ [])
split_merge-SameView_example =
    split_merge-SameView true mergeable [] (second ∷ []) (area 10 20) 15
      (omega arith, (omega arith, tt), (omega arith, tt, tt)) (refl, refl)
