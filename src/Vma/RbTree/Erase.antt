-- ===== src/Vma/RbTree/Erase.antt =====
-- kernel/mm/vma.c: the removal of a node from the tree of areas.
pub mod Keep
pub mod Delete
pub mod Balanced
pub mod Recolor
use doppio.Prelude.{
  ℕ, Bool, true, false, ◌&&◌, Option, none, some, List, [], ◌∷◌, ◌++◌, ltb, ◌==◌, if◌then◌else◌,
}
use doppio.Vma.{VmArea, Color, red, black, Tree, leaf, node}
use doppio.Vma.RbTree.{
  Step, left, right, rb_color, rb_set_color, sibling, up, plug, rb_rotate_left, rb_rotate_right,
}

abbrev pub is_black : Color → Bool
is_black red = false
is_black black = true

-- Both children of the sibling are black; the code does not ask at a null sibling.
abbrev pub kids_black : Tree → Bool
kids_black leaf = true
kids_black (node c a y b) = is_black (rb_color a) && is_black (rb_color b)

-- The sibling made red
abbrev pub redden : Step → Step
redden (left c v w) = left c v (rb_set_color w red)
redden (right c w v) = right c (rb_set_color w red) v

-- A red near child and a black far one: the near child is made black, the sibling red, and
-- rotated below it.
abbrev pub far_red_right : Tree → Tree
far_red_right leaf = leaf
far_red_right (node c a y b) = elim (rb_color b) [
  | black ↦ rb_rotate_right (node red (rb_set_color a black) y b)
  | red ↦ node c a y b
]

abbrev pub far_red_left : Tree → Tree
far_red_left leaf = leaf
far_red_left (node c b y a) = elim (rb_color b) [
  | black ↦ rb_rotate_left (node red b y (rb_set_color a black))
  | red ↦ node c b y a
]

-- The sibling takes the color of the parent, its far child is made black.
abbrev pub dress_right : Color → Tree → Tree
dress_right c leaf = leaf
dress_right c (node d a y b) = node c a y (rb_set_color b black)

abbrev pub dress_left : Color → Tree → Tree
dress_left c leaf = leaf
dress_left c (node d b y a) = node c (rb_set_color b black) y a

-- The last round: the parent is made black and rotated down beside `x`.
abbrev pub lift : Tree → Step → Tree
lift x (left c v w) = rb_rotate_left (node black x v (dress_right c (far_red_right w)))
lift x (right c w v) = rb_rotate_right (node black (dress_left c (far_red_left w)) v x)

-- A round with a black sibling under the red parent that a red sibling was rotated to: if the
-- sibling's children are black, the loop goes on at that parent, which is red, and ends.
pub settle : Tree → Step → List Step → Tree
settle x s path = elim (kids_black (sibling s)) [
  | true ↦ plug (rb_set_color (up x (redden s)) black) path
  | false ↦ rb_set_color (plug (lift x s) path) black
]

-- A round with a red sibling: it is made black, the parent red, and rotated down beside `x`.
pub red_sibling : Tree → Step → List Step → Tree
red_sibling x (left c v leaf) path = plug (up x (left c v leaf)) path
red_sibling x (left c v (node d a y b)) path = settle x (left red v a) (left black y b ∷ path)
red_sibling x (right c leaf v) path = plug (up x (right c leaf v)) path
red_sibling x (right c (node d b y a) v) path = settle x (right red a v) (right black b y ∷ path)

-- `rb_erase_fixup`; the code passes the parent and the side of `x` along, as `x` may be null. A
-- null sibling would be followed by the code; the model has no area to move there.
pub rb_erase_fixup : Tree → List Step → Tree
rb_erase_fixup x [] = rb_set_color x black
rb_erase_fixup x (s ∷ path) = elim (rb_color x) [
  | red ↦ plug (rb_set_color x black) (s ∷ path)
  | black ↦ elim (rb_color (sibling s)) [
    | red ↦ red_sibling x s path
    | black ↦ elim (kids_black (sibling s)) [
      | true ↦ rb_erase_fixup (up x (redden s)) path
      | false ↦ rb_set_color (plug (lift x s) path) black
    ]
  ]
]

-- The end of `rb_erase_node`, by the color of the node that left its place
abbrev pub after_unlink : Color → Tree → List Step → Tree
after_unlink red x path = plug x path
after_unlink black x path = rb_erase_fixup x path

-- `rb_minimum` of a node: its color, its area, its right child and the path from it up
pub rb_minimum : Color → Tree → VmArea → Tree → List Step → Color × VmArea × Tree × List Step
rb_minimum c leaf v r path = (c, v, r, path)
rb_minimum c (node d a x b) v r path = rb_minimum d a x b (left c v r ∷ path)

-- `rb_erase_node`, at a node given by its color, children and area. With two children, the
-- successor takes the node's place and color. On which side of its parent `x` then is, the source
-- gets wrong for a successor with a child; it does not matter on a red-black tree, where that child
-- is red and only gets black. The model has the right side.
pub rb_erase_node : Color → Tree → VmArea → Tree → List Step → Tree
rb_erase_node c leaf v r path = after_unlink c r path
rb_erase_node c (node d a x b) v leaf path = after_unlink c (node d a x b) path
rb_erase_node c (node d a x b) v (node e f w g) path =
    let (y_color, y, x_new, inner) = rb_minimum e f w g [] in
    after_unlink y_color x_new (inner ++ (right c (node d a x b) y ∷ path))

-- The node of the area that starts at `start`, which stands for the pointer to it: `vma_erase`
-- on the tree
pub erase_below : ℕ → Tree → List Step → Tree
erase_below start leaf path = plug leaf path
erase_below start (node c l v r) path =
    let in_left = erase_below start l (left c v r ∷ path) in
    let in_right = erase_below start r (right c l v ∷ path) in
    if start == v.start
    then rb_erase_node c l v r path
    else if ltb start v.start
    then in_left
    else in_right

pub vma_erase : Tree → ℕ → Tree
vma_erase root start = erase_below start root []
