-- ===== src/Vma/RbTree/Erase/Keep.antt =====
-- The removal of a node and the order of the other areas.
use doppio.Prelude.{
  ◌≡◌, refl, ap, ◌∙◌, sym, inl, inr, true, false, List, [], ◌∷◌, ◌++◌, append_assoc, append_nil,
  Bool-cases,
}
use doppio.Vma.{VmArea, Color, red, black, Tree, leaf, node}
use doppio.Vma.RbTree.{Step, left, right, rb_color, rb_set_color, sibling, up, plug}
use doppio.Vma.RbTree.InOrder.{
  in_order, before, after, in_order-plug, in_order-color, in_order-rotate_left,
  in_order-rotate_right, in_order-swap, color_cases,
}
use doppio.Vma.RbTree.Erase.{
  kids_black, redden, far_red_right, far_red_left, dress_right, dress_left, lift, settle,
  red_sibling, rb_erase_fixup, after_unlink, rb_minimum, rb_erase_node,
}

in_order-redden : (x : Tree) (s : Step) → in_order (up x (redden s)) ≡ in_order (up x s)
in_order-redden x (left c v w) = ap (λ xs. in_order x ++ (v ∷ xs)) (in_order-color w red)
in_order-redden x (right c w v) = ap (λ xs. xs ++ (v ∷ in_order x)) (in_order-color w red)

in_order-far_red_right : (w : Tree) → in_order (far_red_right w) ≡ in_order w
in_order-far_red_right leaf = refl
in_order-far_red_right (node c a y leaf) =
    in_order-rotate_right (node red (rb_set_color a black) y leaf)
    ∙ ap (λ xs. xs ++ (y ∷ [])) (in_order-color a black)
in_order-far_red_right (node c a y (node red b1 z b2)) = refl
in_order-far_red_right (node c a y (node black b1 z b2)) =
    in_order-rotate_right (node red (rb_set_color a black) y (node black b1 z b2))
    ∙ ap (λ xs. xs ++ (y ∷ in_order (node black b1 z b2))) (in_order-color a black)

in_order-far_red_left : (w : Tree) → in_order (far_red_left w) ≡ in_order w
in_order-far_red_left leaf = refl
in_order-far_red_left (node c leaf y a) =
    in_order-rotate_left (node red leaf y (rb_set_color a black))
    ∙ ap (λ xs. y ∷ xs) (in_order-color a black)
in_order-far_red_left (node c (node red b1 z b2) y a) = refl
in_order-far_red_left (node c (node black b1 z b2) y a) =
    in_order-rotate_left (node red (node black b1 z b2) y (rb_set_color a black))
    ∙ ap (λ xs. in_order (node black b1 z b2) ++ (y ∷ xs)) (in_order-color a black)

in_order-dress_right : (c : Color) (w : Tree) → in_order (dress_right c w) ≡ in_order w
in_order-dress_right c leaf = refl
in_order-dress_right c (node d a y b) = ap (λ xs. in_order a ++ (y ∷ xs)) (in_order-color b black)

in_order-dress_left : (c : Color) (w : Tree) → in_order (dress_left c w) ≡ in_order w
in_order-dress_left c leaf = refl
in_order-dress_left c (node d b y a) = ap (λ xs. xs ++ (y ∷ in_order a)) (in_order-color b black)

in_order-lift : (x : Tree) (s : Step) → in_order (lift x s) ≡ in_order (up x s)
in_order-lift x (left c v w) =
    in_order-rotate_left (node black x v (dress_right c (far_red_right w)))
    ∙ ap (λ xs. in_order x ++ (v ∷ xs))
        (in_order-dress_right c (far_red_right w) ∙ in_order-far_red_right w)
in_order-lift x (right c w v) =
    in_order-rotate_right (node black (dress_left c (far_red_left w)) v x)
    ∙ ap (λ xs. xs ++ (v ∷ in_order x))
        (in_order-dress_left c (far_red_left w) ∙ in_order-far_red_left w)

-- The two ends of a round with a black sibling
module _ (x : Tree) (s : Step) (path : List Step) where
  in_order-recolored :
      in_order (plug (rb_set_color (up x (redden s)) black) path) ≡ in_order (plug (up x s) path)
  in_order-recolored =
      in_order-swap (rb_set_color (up x (redden s)) black) (up x s) path
        (in_order-color (up x (redden s)) black ∙ in_order-redden x s)

  in_order-lifted :
      in_order (rb_set_color (plug (lift x s) path) black) ≡ in_order (plug (up x s) path)
  in_order-lifted =
      in_order-color (plug (lift x s) path) black
      ∙ in_order-swap (lift x s) (up x s) path (in_order-lift x s)

  pub settle_recolors :
      kids_black (sibling s) ≡ true
      → settle x s path ≡ plug (rb_set_color (up x (redden s)) black) path
  unfolding settle
  settle_recolors e = rw (e, settle) refl

  pub settle_lifts :
      kids_black (sibling s) ≡ false → settle x s path ≡ rb_set_color (plug (lift x s) path) black
  unfolding settle
  settle_lifts e = rw (e, settle) refl

  in_order-settle : in_order (settle x s path) ≡ in_order (plug (up x s) path)
  in_order-settle = elim (Bool-cases (kids_black (sibling s))) [
    | inl e ↦ rw (settle_recolors e) in_order-recolored
    | inr e ↦ rw (settle_lifts e) in_order-lifted
  ]

in_order-red_sibling :
    (x : Tree) (s : Step) (path : List Step)
    → in_order (red_sibling x s path) ≡ in_order (plug (up x s) path)
unfolding red_sibling
in_order-red_sibling x (left c v leaf) path = refl
in_order-red_sibling x (left c v (node d a y b)) path =
    in_order-settle x (left red v a) (left black y b ∷ path)
    ∙ in_order-swap (node black (node red x v a) y b) (node c x v (node d a y b)) path
        (append_assoc (in_order x) (v ∷ in_order a) (y ∷ in_order b))
in_order-red_sibling x (right c leaf v) path = refl
in_order-red_sibling x (right c (node d b y a) v) path =
    in_order-settle x (right red a v) (right black b y ∷ path)
    ∙ in_order-swap (node black b y (node red a v x)) (node c (node d b y a) v x) path
        (sym (append_assoc (in_order b) (y ∷ in_order a) (v ∷ in_order x)))

-- The ways of a round of `rb_erase_fixup`
module _ (x : Tree) (s : Step) (path : List Step) where
  pub erase_ends :
      rb_color x ≡ red → rb_erase_fixup x (s ∷ path) ≡ plug (rb_set_color x black) (s ∷ path)
  unfolding rb_erase_fixup
  erase_ends e = rw (e, rb_erase_fixup) refl

  pub erase_red_sibling :
      rb_color x ≡ black
      → rb_color (sibling s) ≡ red
      → rb_erase_fixup x (s ∷ path) ≡ red_sibling x s path
  unfolding rb_erase_fixup
  erase_red_sibling e f = rw (e, f, rb_erase_fixup) refl

  pub erase_climbs :
      rb_color x ≡ black
      → rb_color (sibling s) ≡ black
      → kids_black (sibling s) ≡ true
      → rb_erase_fixup x (s ∷ path) ≡ rb_erase_fixup (up x (redden s)) path
  unfolding rb_erase_fixup
  erase_climbs e f g = rw (e, f, g, rb_erase_fixup) refl

  pub erase_lifts :
      rb_color x ≡ black
      → rb_color (sibling s) ≡ black
      → kids_black (sibling s) ≡ false
      → rb_erase_fixup x (s ∷ path) ≡ rb_set_color (plug (lift x s) path) black
  unfolding rb_erase_fixup
  erase_lifts e f g = rw (e, f, g, rb_erase_fixup) refl

pub erase_root : (x : Tree) → rb_erase_fixup x [] ≡ rb_set_color x black
unfolding rb_erase_fixup
erase_root x = refl

in_order-erase_fixup :
    (x : Tree) (path : List Step) → in_order (rb_erase_fixup x path) ≡ in_order (plug x path)
in_order-erase_fixup x [] = rw (erase_root x) (in_order-color x black)
in_order-erase_fixup x (s ∷ path) = elim (color_cases (rb_color x)) [
  | inl e ↦
      rw (erase_ends x s path e)
        (in_order-swap (rb_set_color x black) x (s ∷ path) (in_order-color x black))
  | inr e ↦ elim (color_cases (rb_color (sibling s))) [
    | inl f ↦ rw (erase_red_sibling x s path e f) (in_order-red_sibling x s path)
    | inr f ↦ elim (Bool-cases (kids_black (sibling s))) [
      | inl g ↦ rw (erase_climbs x s path e f g) (
          in_order-erase_fixup (up x (redden s)) path
          ∙ in_order-swap (up x (redden s)) (up x s) path (in_order-redden x s))
      | inr g ↦ rw (erase_lifts x s path e f g) (in_order-lifted x s path)
    ]
  ]
]

in_order-after_unlink :
    (c : Color) (x : Tree) (path : List Step)
    → in_order (after_unlink c x path) ≡ in_order (plug x path)
in_order-after_unlink red x path = refl
in_order-after_unlink black x path = in_order-erase_fixup x path

plug-append : (t : Tree) (p q : List Step) → plug t (p ++ q) ≡ plug (plug t p) q
plug-append t [] q = refl
plug-append t (s ∷ p) q = plug-append (up t s) p q

-- The successor is the first area, and the rest stays in its order.
in_order-minimum :
    (c : Color) (l : Tree) (v : VmArea) (r : Tree) (path : List Step)
    → let (y_color, y, x, p) = rb_minimum c l v r path in
      (rest : List VmArea) × (in_order (plug x p) ≡ before path ++ (rest ++ after path))
      × (in_order (node c l v r) ≡ y ∷ rest)
unfolding rb_minimum
in_order-minimum c leaf v r path = (in_order r, in_order-plug r path, refl)
in_order-minimum c (node d a x b) v r path =
    let (rest, e, f) = in_order-minimum d a x b (left c v r ∷ path) in
    (
      rest ++ (v ∷ in_order r),
      e ∙ ap (λ xs. before path ++ xs) (sym (append_assoc rest (v ∷ in_order r) (after path))),
      ap (λ xs. xs ++ (v ∷ in_order r)) f,
    )

pub in_order-erase_node :
    (c : Color) (l : Tree) (v : VmArea) (r : Tree) (path : List Step)
    → in_order (rb_erase_node c l v r path)
      ≡ before path ++ ((in_order l ++ in_order r) ++ after path)
unfolding rb_erase_node
in_order-erase_node c leaf v r path = in_order-after_unlink c r path ∙ in_order-plug r path
in_order-erase_node c (node d a x b) v leaf path =
    in_order-after_unlink c (node d a x b) path
    ∙ in_order-plug (node d a x b) path
    ∙ ap (λ xs. before path ++ (xs ++ after path)) (sym (append_nil (in_order (node d a x b))))
in_order-erase_node c (node d a x b) v (node e f w g) path =
    let l : Tree = node d a x b in
    let (y_color, y, x_new, inner) = rb_minimum e f w g [] in
    let (rest, split, first) = in_order-minimum e f w g [] in
    in_order-after_unlink y_color x_new (inner ++ (right c l y ∷ path))
    ∙ ap in_order (plug-append x_new inner (right c l y ∷ path))
    ∙ in_order-plug (node c l y (plug x_new inner)) path
    ∙ ap (λ xs. before path ++ ((in_order l ++ (y ∷ xs)) ++ after path)) (split ∙ append_nil rest)
    ∙ ap (λ xs. before path ++ ((in_order l ++ xs) ++ after path)) (sym first)
