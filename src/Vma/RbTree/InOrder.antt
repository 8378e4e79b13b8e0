-- ===== src/Vma/RbTree/InOrder.antt =====
-- The areas of the tree in the order of a walk from left to right, and what the operations do to it.
use doppio.Prelude.{
  ◌<◌, ◌≤◌, ◌≡◌, refl, ap, ◌∙◌, sym, ◌⊎◌, inl, inr, List, [], ◌∷◌, ◌++◌, append_assoc, append_nil,
  arith, All, All-map, All-of-append,
}
use doppio.Vma.{VmArea, Color, red, black, Tree, leaf, node}
use doppio.Vma.RbTree.{
  Step, left, right, rb_color, rb_set_color, parent_color, sibling, up, plug, rb_rotate_left,
  rb_rotate_right, push_black, straighten, turn, rb_insert_fixup,
}

abbrev pub in_order : Tree → List VmArea
in_order leaf = []
in_order (node c l v r) = in_order l ++ (v ∷ in_order r)

-- The areas left and right of the hole of a path
abbrev pub before : List Step → List VmArea
before [] = []
before (left c v r ∷ path) = before path
before (right c l v ∷ path) = before path ++ (in_order l ++ (v ∷ []))

abbrev pub after : List Step → List VmArea
after [] = []
after (left c v r ∷ path) = v ∷ (in_order r ++ after path)
after (right c l v ∷ path) = after path

pub in_order-plug :
    (t : Tree) (path : List Step)
    → in_order (plug t path) ≡ before path ++ (in_order t ++ after path)
in_order-plug t [] = sym (append_nil (in_order t))
in_order-plug t (left c v r ∷ path) =
    in_order-plug (node c t v r) path
    ∙ ap (λ xs. before path ++ xs) (append_assoc (in_order t) (v ∷ in_order r) (after path))
in_order-plug t (right c l v ∷ path) =
    in_order-plug (node c l v t) path
    ∙ ap (λ xs. before path ++ xs)
        (append_assoc (in_order l) (v ∷ in_order t) (after path)
          ∙ sym (append_assoc (in_order l) (v ∷ []) (in_order t ++ after path)))
    ∙ sym (append_assoc (before path) (in_order l ++ (v ∷ [])) (in_order t ++ after path))

pub in_order-color : (t : Tree) (c : Color) → in_order (rb_set_color t c) ≡ in_order t
in_order-color leaf c = refl
in_order-color (node d l v r) c = refl

pub in_order-rotate_left : (t : Tree) → in_order (rb_rotate_left t) ≡ in_order t
in_order-rotate_left leaf = refl
in_order-rotate_left (node c a x leaf) = refl
in_order-rotate_left (node c a x (node d b y e)) =
    append_assoc (in_order a) (x ∷ in_order b) (y ∷ in_order e)

pub in_order-rotate_right : (t : Tree) → in_order (rb_rotate_right t) ≡ in_order t
in_order-rotate_right leaf = refl
in_order-rotate_right (node c leaf x e) = refl
in_order-rotate_right (node c (node d a y b) x e) =
    sym (append_assoc (in_order a) (y ∷ in_order b) (x ∷ in_order e))

-- Two subtrees with the same areas can stand for one another.
pub in_order-swap :
    (s t : Tree) (path : List Step)
    → in_order s ≡ in_order t
    → in_order (plug s path) ≡ in_order (plug t path)
in_order-swap s t path e =
    in_order-plug s path
    ∙ ap (λ xs. before path ++ (xs ++ after path)) e
    ∙ sym (in_order-plug t path)

in_order-up :
    (s t : Tree) (p : Step) → in_order s ≡ in_order t → in_order (up s p) ≡ in_order (up t p)
in_order-up s t (left c v r) e = ap (λ xs. xs ++ (v ∷ in_order r)) e
in_order-up s t (right c l v) e = ap (λ xs. in_order l ++ (v ∷ xs)) e

in_order-push_black :
    (z : Tree) (p g : Step) → in_order (push_black z p g) ≡ in_order (up (up z p) g)
in_order-push_black z p (left c v u) =
    rw (in_order-color (up z p) black, in_order-color u black) refl
in_order-push_black z p (right c u v) =
    rw (in_order-color (up z p) black, in_order-color u black) refl

in_order-straighten : (z : Tree) (p g : Step) → in_order (straighten z p g) ≡ in_order (up z p)
in_order-straighten z (left c v r) (left d g u) = refl
in_order-straighten z (right c l v) (left d g u) = in_order-rotate_left (up z (right c l v))
in_order-straighten z (left c v r) (right d u g) = in_order-rotate_right (up z (left c v r))
in_order-straighten z (right c l v) (right d u g) = refl

in_order-turn : (z : Tree) (p g : Step) → in_order (turn z p g) ≡ in_order (up (up z p) g)
in_order-turn z p (left c v u) =
    in_order-rotate_right (node red (rb_set_color (straighten z p (left c v u)) black) v u)
    ∙ ap (λ xs. xs ++ (v ∷ in_order u))
        (in_order-color (straighten z p (left c v u)) black ∙ in_order-straighten z p (left c v u))
in_order-turn z p (right c u v) =
    in_order-rotate_left (node red u v (rb_set_color (straighten z p (right c u v)) black))
    ∙ ap (λ xs. in_order u ++ (v ∷ xs))
        (in_order-color (straighten z p (right c u v)) black
          ∙ in_order-straighten z p (right c u v))

pub color_cases : (c : Color) → (c ≡ red) ⊎ (c ≡ black)
color_cases red = inl refl
color_cases black = inr refl

pub fixup_root : (z : Tree) → rb_insert_fixup z [] ≡ rb_set_color z black
unfolding rb_insert_fixup
fixup_root z = refl

pub fixup_top : (z : Tree) (p : Step) → rb_insert_fixup z (p ∷ []) ≡ rb_set_color (up z p) black
unfolding rb_insert_fixup
fixup_top z p = refl

-- The three ways of a round of the loop
module _ (z : Tree) (p g : Step) (path : List Step) where
  pub fixup_done :
      parent_color p ≡ black
      → rb_insert_fixup z (p ∷ g ∷ path) ≡ rb_set_color (plug z (p ∷ g ∷ path)) black
  unfolding rb_insert_fixup
  fixup_done e = rw (e, rb_insert_fixup) refl

  pub fixup_push :
      parent_color p ≡ red
      → rb_color (sibling g) ≡ red
      → rb_insert_fixup z (p ∷ g ∷ path) ≡ rb_insert_fixup (push_black z p g) path
  unfolding rb_insert_fixup
  fixup_push e f = rw (e, f, rb_insert_fixup) refl

  pub fixup_turn :
      parent_color p ≡ red
      → rb_color (sibling g) ≡ black
      → rb_insert_fixup z (p ∷ g ∷ path) ≡ rb_set_color (plug (turn z p g) path) black
  unfolding rb_insert_fixup
  fixup_turn e f = rw (e, f, rb_insert_fixup) refl

-- The rebalancing after an insertion moves no area.
pub in_order-fixup :
    (z : Tree) (path : List Step) → in_order (rb_insert_fixup z path) ≡ in_order (plug z path)
unfolding rb_insert_fixup
in_order-fixup z [] = in_order-color z black
in_order-fixup z (p ∷ []) = in_order-color (up z p) black
in_order-fixup z (p ∷ g ∷ path) = elim (color_cases (parent_color p)) [
  | inr e ↦ rw (fixup_done z p g path e) (in_order-color (plug z (p ∷ g ∷ path)) black)
  | inl e ↦ elim (color_cases (rb_color (sibling g))) [
    | inl f ↦ rw (fixup_push z p g path e f) (
        in_order-fixup (push_black z p g) path
        ∙ in_order-swap (push_black z p g) (up (up z p) g) path (in_order-push_black z p g))
    | inr f ↦ rw (fixup_turn z p g path e f) (
        in_order-color (plug (turn z p g) path) black
        ∙ in_order-swap (turn z p g) (up (up z p) g) path (in_order-turn z p g))
  ]
]

-- Areas that do not overlap, in the order of their addresses.
abbrev pub Disjoint : List VmArea → Type 0
Disjoint [] = Unit {0}
Disjoint (x ∷ xs) = (x.start < x.end) × All (λ (y : VmArea). x.end ≤ y.start) xs × Disjoint xs

pub Disjoint-of-append :
    (xs : List VmArea) (y : VmArea) (ys : List VmArea)
    → Disjoint (xs ++ (y ∷ ys))
    → All (λ (x : VmArea). (x.start < x.end) × (x.end ≤ y.start)) xs
      × Disjoint xs
      × Disjoint (y ∷ ys)
Disjoint-of-append [] y ys d = (tt, tt, d)
Disjoint-of-append (x ∷ xs) y ys (some_size, apart, d) =
    let (a, b, c) = Disjoint-of-append xs y ys d in
    let (near, (next, far)) = All-of-append (λ (z : VmArea). x.end ≤ z.start) xs (y ∷ ys) apart in
    (((some_size, next), a), (some_size, near, b), c)

-- Areas in the order of their starts
abbrev pub Ascending : List VmArea → Type 0
Ascending [] = Unit {0}
Ascending (x ∷ xs) = All (λ (y : VmArea). x.start < y.start) xs × Ascending xs

pub Ascending-of-append :
    (xs : List VmArea) (y : VmArea) (ys : List VmArea)
    → Ascending (xs ++ (y ∷ ys))
    → All (λ (x : VmArea). x.start < y.start) xs × Ascending xs × Ascending (y ∷ ys)
Ascending-of-append [] y ys d = (tt, tt, d)
Ascending-of-append (x ∷ xs) y ys (apart, d) =
    let (a, b, c) = Ascending-of-append xs y ys d in
    let (near, (next, far)) = All-of-append (λ (z : VmArea). x.start < z.start) xs (y ∷ ys) apart in
    ((next, a), (near, b), c)

pub Disjoint-Ascending : (xs : List VmArea) → Disjoint xs → Ascending xs
Disjoint-Ascending [] d = tt
Disjoint-Ascending (x ∷ xs) (size, apart, d) = (
  All-map (λ (y : VmArea). x.end ≤ y.start) (λ (y : VmArea). x.start < y.start)
      (λ y p. omega (arith, size)) xs apart,
  Disjoint-Ascending xs d,
)
