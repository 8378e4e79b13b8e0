-- ===== src/Vma/RbTree.antt =====
-- kernel/mm/vma.c: the red-black tree of areas, its rotations, insertion and searches.
pub mod InOrder
pub mod Insert
pub mod Balance
pub mod Height
pub mod Search
pub mod Erase
pub mod Kept
mod Tests
use doppio.Prelude.{
  ℕ, ◌≡◌, Bool, true, false, Option, none, some, List, [], ◌∷◌, ltb, leb, ◌==◌, if◌then◌else◌,
}
use doppio.Vma.{VmArea, Color, red, black, Tree, leaf, node}

-- The way from a child to its parent: the child is the left or the right one, the parent has a
-- color and an area, and the other child hangs there.
pub data Step : Type 0 where
  left : Color → VmArea → Tree → Step
  right : Color → Tree → VmArea → Step

abbrev pub rb_color : Tree → Color
rb_color leaf = black
rb_color (node c l v r) = c

abbrev pub rb_set_color : Tree → Color → Tree
rb_set_color leaf c = leaf
rb_set_color (node d l v r) c = node c l v r

abbrev pub parent_color : Step → Color
parent_color (left c v r) = c
parent_color (right c l v) = c

-- The other child of the parent
abbrev pub sibling : Step → Tree
sibling (left c v r) = r
sibling (right c l v) = l

-- The parent, with the child in place
abbrev pub up : Tree → Step → Tree
up t (left c v r) = node c t v r
up t (right c l v) = node c l v t

-- The root, with the subtree in place
abbrev pub plug : Tree → List Step → Tree
plug t [] = t
plug t (s ∷ path) = plug (up t s) path

-- `rb_rotate_left` and `rb_rotate_right` at a node; the code calls them where the child is there.
abbrev pub rb_rotate_left : Tree → Tree
rb_rotate_left leaf = leaf
rb_rotate_left (node c a x leaf) = node c a x leaf
rb_rotate_left (node c a x (node d b y e)) = node d (node c a x b) y e

abbrev pub rb_rotate_right : Tree → Tree
rb_rotate_right leaf = leaf
rb_rotate_right (node c leaf x e) = node c leaf x e
rb_rotate_right (node c (node d a y b) x e) = node d a y (node c b x e)

-- `rb_insert_fixup` at a red uncle: the parent and the uncle are made black, the grandparent red.
abbrev pub push_black : Tree → Step → Step → Tree
push_black z p (left c g u) = node red (rb_set_color (up z p) black) g (rb_set_color u black)
push_black z p (right c u g) = node red (rb_set_color u black) g (rb_set_color (up z p) black)

-- At a black uncle: an inner child is rotated outwards,
abbrev pub straighten : Tree → Step → Step → Tree
straighten z (left c v r) (left d g u) = up z (left c v r)
straighten z (right c l v) (left d g u) = rb_rotate_left (up z (right c l v))
straighten z (left c v r) (right d u g) = rb_rotate_right (up z (left c v r))
straighten z (right c l v) (right d u g) = up z (right c l v)

-- then the parent is made black, the grandparent red, and rotated down.
abbrev pub turn : Tree → Step → Step → Tree
turn z p (left c g u) =
    rb_rotate_right (node red (rb_set_color (straighten z p (left c g u)) black) g u)
turn z p (right c u g) =
    rb_rotate_left (node red u g (rb_set_color (straighten z p (right c u g)) black))

-- `rb_insert_fixup` from the node `z` on. A red parent that is the root has no grandparent; the
-- code would follow a null pointer there, and the model stops.
unfoldable pub rb_insert_fixup : Tree → List Step → Tree
rb_insert_fixup z [] = rb_set_color z black
rb_insert_fixup z (p ∷ []) = rb_set_color (up z p) black
rb_insert_fixup z (p ∷ g ∷ path) = elim (parent_color p) [
  | black ↦ rb_set_color (plug z (p ∷ g ∷ path)) black
  | red ↦ elim (rb_color (sibling g)) [
    | red ↦ rb_insert_fixup (push_black z p g) path
    | black ↦ rb_set_color (plug (turn z p g) path) black
  ]
]

-- The loop of `vma_insert` that looks for the place
unfoldable pub descend : VmArea → Tree → List Step → List Step
descend vma leaf path = path
descend vma (node c l x r) path =
    let before = descend vma l (left c x r ∷ path) in
    let after = descend vma r (right c l x ∷ path) in
    if ltb vma.start x.start then before else after

-- `vma_insert` on the tree
unfoldable pub vma_insert : Tree → VmArea → Tree
vma_insert root vma = rb_insert_fixup (node red leaf vma leaf) (descend vma root [])

-- `list_add_tail` and `list_add` beside the entry of an area that starts at `y`
unfoldable pub add_before : ℕ → VmArea → List VmArea → List VmArea
add_before y vma [] = []
add_before y vma (x ∷ xs) =
    let rest = add_before y vma xs in if x.start == y then vma ∷ x ∷ xs else x ∷ rest

unfoldable pub add_after : ℕ → VmArea → List VmArea → List VmArea
add_after y vma [] = []
add_after y vma (x ∷ xs) =
    let rest = add_after y vma xs in if x.start == y then x ∷ vma ∷ xs else x ∷ rest

-- `vma_insert` on the list of areas
unfoldable pub list_insert : Tree → VmArea → List VmArea → List VmArea
list_insert root vma areas = elim (descend vma root []) [
  | [] ↦ vma ∷ areas
  | left c y r ∷ path ↦ add_before y.start vma areas
  | right c l y ∷ path ↦ add_after y.start vma areas
]

-- `vma_find`
unfoldable pub vma_find : Tree → ℕ → Option VmArea
vma_find leaf addr = none
vma_find (node c l v r) addr =
    let in_left = vma_find l addr in
    let in_right = vma_find r addr in
    if ltb addr v.start then in_left else if leb v.end addr then in_right else some v

-- The loop of `vma_find_prev`, with its candidate
unfoldable pub find_prev_from : Option VmArea → Tree → ℕ → Option VmArea
find_prev_from candidate leaf addr = candidate
find_prev_from candidate (node c l v r) addr =
    let in_right = find_prev_from (some v) r addr in
    let in_left = find_prev_from candidate l addr in if ltb v.start addr then in_right else in_left

unfoldable pub vma_find_prev : Tree → ℕ → Option VmArea
vma_find_prev root addr = find_prev_from none root addr

-- The loop of `vma_find_first`, with its candidate
unfoldable pub find_first_from : Option VmArea → Tree → ℕ → Option VmArea
find_first_from candidate leaf addr = candidate
find_first_from candidate (node c l v r) addr =
    let in_left = find_first_from (some v) l addr in
    let in_right = find_first_from candidate r addr in
    if ltb addr v.start then in_left else if leb v.end addr then in_right else some v

unfoldable pub vma_find_first : Tree → ℕ → Option VmArea
vma_find_first root addr = find_first_from none root addr
