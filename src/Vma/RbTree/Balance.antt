-- ===== src/Vma/RbTree/Balance.antt =====
-- The colors of the tree: no red area has a red child, and every way down meets as many black ones.
use mathlib.Core.Path.{subst}
use doppio.Prelude.{ℕ, suc, ◌≡◌, refl, ◌⊎◌, inl, inr, ltb, Bool-cases, List, [], ◌∷◌, arith}
use doppio.Vma.{VmArea, red, black, Tree, leaf, node}
use doppio.Vma.RbTree.{
  Step, left, right, rb_color, rb_set_color, parent_color, sibling, up, plug, push_black, turn,
  rb_insert_fixup, descend, vma_insert,
}
use doppio.Vma.RbTree.InOrder.{
  color_cases, fixup_done, fixup_push, fixup_turn, fixup_root, fixup_top,
}
use doppio.Vma.RbTree.Insert.{descend_leaf, descend_left, descend_right}

-- `n` black areas on every way down
abbrev pub Balanced : ℕ → Tree → Type 0
Balanced n leaf = n ≡ 0
Balanced n (node red l v r) = Balanced n l × Balanced n r
Balanced n (node black l v r) = (m : ℕ) × (n ≡ suc m) × Balanced m l × Balanced m r

abbrev pub NoRedRed : Tree → Type 0
NoRedRed leaf = Unit {0}
NoRedRed (node red l v r) = (rb_color l ≡ black) × (rb_color r ≡ black) × NoRedRed l × NoRedRed r
NoRedRed (node black l v r) = NoRedRed l × NoRedRed r

-- A subtree of the tree with `n` black areas on every way down
abbrev pub Good : ℕ → Tree → Type 0
Good n t = Balanced n t × NoRedRed t

abbrev pub IsRedBlack : Tree → Type 0
IsRedBlack t = (rb_color t ≡ black) × ((n : ℕ) × Good n t)

-- The parent of a red parent is there and is black.
abbrev pub BlackAbove : List Step → Type 0
BlackAbove [] = ⊥
BlackAbove (s ∷ path) = parent_color s ≡ black

-- A path from a hole for a subtree with `n` black areas on every way down
abbrev pub Context : ℕ → List Step → Type 0
Context n [] = Unit {0}
Context n (left red v r ∷ path) = Good n r × (rb_color r ≡ black) × BlackAbove path × Context n path
Context n (left black v r ∷ path) = Good n r × Context (suc n) path
Context n (right red l v ∷ path) =
    Good n l × (rb_color l ≡ black) × BlackAbove path × Context n path
Context n (right black l v ∷ path) = Good n l × Context (suc n) path

-- The subtree does not clash with its parent.
abbrev pub Matches : Tree → List Step → Type 0
Matches t [] = Unit {0}
Matches t (s ∷ path) = (rb_color t ≡ black) ⊎ (parent_color s ≡ black)

Good-blacken : (n : ℕ) (t : Tree) → Good n t → (m : ℕ) × Good m (rb_set_color t black)
Good-blacken n leaf g = (n, g)
Good-blacken n (node red l v r) ((bl, br), (_, _, nl, nr)) = (suc n, ((n, refl, bl, br), (nl, nr)))
Good-blacken n (node black l v r) g = (n, g)

pub color-blacken : (t : Tree) → rb_color (rb_set_color t black) ≡ black
color-blacken leaf = refl
color-blacken (node c l v r) = refl

pub blacken-IsRedBlack : (n : ℕ) (t : Tree) → Good n t → IsRedBlack (rb_set_color t black)
blacken-IsRedBlack n t g = (color-blacken t, Good-blacken n t g)

black_node-Matches :
    (l : Tree) (v : VmArea) (r : Tree) (path : List Step) → Matches (node black l v r) path
black_node-Matches l v r [] = tt
black_node-Matches l v r (s ∷ path) = inl refl

pub above-Matches : (t : Tree) (path : List Step) → BlackAbove path → Matches t path
above-Matches t [] a = tt
above-Matches t (s ∷ path) a = inr a

-- A good subtree in its place makes a good tree.
pub Good-plug :
    (n : ℕ) (t : Tree) (path : List Step)
    → Good n t
    → Context n path
    → Matches t path
    → (m : ℕ) × Good m (plug t path)
Good-plug n t [] g c h = (n, g)
Good-plug n t (left red v r ∷ path) (b, k) ((br, nr), cr, above, c) (inl e) =
    Good-plug n (node red t v r) path ((b, br), (e, cr, k, nr)) c
      (above-Matches (node red t v r) path above)
Good-plug n t (left red v r ∷ path) g c (inr e) = cc
Good-plug n t (left black v r ∷ path) (b, k) ((br, nr), c) h =
    Good-plug (suc n) (node black t v r) path ((n, refl, b, br), (k, nr)) c
      (black_node-Matches t v r path)
Good-plug n t (right red l v ∷ path) (b, k) ((bl, nl), cl, above, c) (inl e) =
    Good-plug n (node red l v t) path ((bl, b), (cl, e, nl, k)) c
      (above-Matches (node red l v t) path above)
Good-plug n t (right red l v ∷ path) g c (inr e) = cc
Good-plug n t (right black l v ∷ path) (b, k) ((bl, nl), c) h =
    Good-plug (suc n) (node black l v t) path ((n, refl, bl, b), (nl, k)) c
      (black_node-Matches l v t path)

-- A red parent made black
Good-parent :
    (n : ℕ) (z : Tree) (p : Step) (path : List Step)
    → Good n z
    → Context n (p ∷ path)
    → parent_color p ≡ red
    → Good (suc n) (rb_set_color (up z p) black) × BlackAbove path × Context n path
Good-parent n z (left red v r) path (b, k) ((br, nr), cr, above, c) e =
    (((n, refl, b, br), (k, nr)), above, c)
Good-parent n z (left black v r) path g c e = cc
Good-parent n z (right red l v) path (b, k) ((bl, nl), cl, above, c) e =
    (((n, refl, bl, b), (nl, k)), above, c)
Good-parent n z (right black l v) path g c e = cc

Good-uncle : (n : ℕ) (u : Tree) → Good n u → rb_color u ≡ red → Good (suc n) (rb_set_color u black)
Good-uncle n leaf g e = cc
Good-uncle n (node red l v r) ((bl, br), (_, _, nl, nr)) e = ((n, refl, bl, br), (nl, nr))
Good-uncle n (node black l v r) g e = cc

-- A round at a red uncle: the grandparent is a good red subtree.
Good-push_black :
    (n : ℕ) (z : Tree) (p g : Step) (path : List Step)
    → Good n z
    → Context n (p ∷ g ∷ path)
    → parent_color p ≡ red
    → rb_color (sibling g) ≡ red
    → Good (suc n) (push_black z p g) × (rb_color (push_black z p g) ≡ red) × Context (suc n) path
Good-push_black n z p (left red w u) path good c e f =
    let (_, above, _) = Good-parent n z p (left red w u ∷ path) good c e in cc
Good-push_black n z p (right red u w) path good c e f =
    let (_, above, _) = Good-parent n z p (right red u w ∷ path) good c e in cc
Good-push_black n z p (left black w u) path good c e f =
    let ((b, k), _, (gu, c')) = Good-parent n z p (left black w u ∷ path) good c e in
    let (bu, ku) = Good-uncle n u gu f in
    (((b, bu), (color-blacken (up z p), color-blacken u, k, ku)), refl, c')
Good-push_black n z p (right black u w) path good c e f =
    let ((b, k), _, (gu, c')) = Good-parent n z p (right black u w ∷ path) good c e in
    let (bu, ku) = Good-uncle n u gu f in
    (((bu, b), (color-blacken u, color-blacken (up z p), ku, k)), refl, c')

-- A round at a black uncle: the rotated subtree is good and black.
Good-turn :
    (n : ℕ) (z : Tree) (p g : Step) (path : List Step)
    → Good n z
    → rb_color z ≡ red
    → Context n (p ∷ g ∷ path)
    → parent_color p ≡ red
    → rb_color (sibling g) ≡ black
    → Good (suc n) (turn z p g) × (rb_color (turn z p g) ≡ black) × Context (suc n) path
Good-turn n leaf p g path good zr c e f = cc
Good-turn n (node black a x b) p g path good zr c e f = cc
Good-turn n z (left black v r) g path good zr c e f = cc
Good-turn n z (right black l v) g path good zr c e f = cc
Good-turn n z (left red v r) (left red w u) path good zr (_, _, above, _) e f = cc
Good-turn n z (left red v r) (right red u w) path good zr (_, _, above, _) e f = cc
Good-turn n z (right red l v) (left red w u) path good zr (_, _, above, _) e f = cc
Good-turn n z (right red l v) (right red u w) path good zr (_, _, above, _) e f = cc
Good-turn n (node red a x b) (left red v r) (left black w u) path (bz, kz) zr
      ((br, kr), cr, _, ((bu, ku), c)) e f =
    (((n, refl, bz, (br, bu)), (kz, (cr, f, kr, ku))), refl, c)
Good-turn n (node red a x b) (right red l v) (right black u w) path (bz, kz) zr
      ((bl, kl), cl, _, ((bu, ku), c)) e f =
    (((n, refl, (bu, bl), bz), ((f, cl, ku, kl), kz)), refl, c)
Good-turn n (node red a x b) (right red l v) (left black w u) path ((ba, bb), (ca, cb, ka, kb)) zr
      ((bl, kl), cl, _, ((bu, ku), c)) e f =
    (((n, refl, (bl, ba), (bb, bu)), ((cl, ca, kl, ka), (cb, f, kb, ku))), refl, c)
Good-turn n (node red a x b) (left red v r) (right black u w) path ((ba, bb), (ca, cb, ka, kb)) zr
      ((br, kr), cr, _, ((bu, ku), c)) e f =
    (((n, refl, (bu, ba), (bb, br)), ((f, ca, ku, ka), (cb, cr, kb, kr))), refl, c)

pub black-Matches : (t : Tree) (path : List Step) → rb_color t ≡ black → Matches t path
black-Matches t [] e = tt
black-Matches t (s ∷ path) e = inl e

-- The rebalancing makes a red-black tree of a good red subtree in its place.
fixup-IsRedBlack :
    (n : ℕ) (z : Tree) (path : List Step)
    → Good n z
    → rb_color z ≡ red
    → Context n path
    → IsRedBlack (rb_insert_fixup z path)
fixup-IsRedBlack n z [] good zr c = rw (fixup_root z) (blacken-IsRedBlack n z good)
fixup-IsRedBlack n z (p ∷ []) good zr c = elim (color_cases (parent_color p)) [
  | inr e ↦
      let (m, whole) = Good-plug n z (p ∷ []) good c (inr e) in
      rw (fixup_top z p) (blacken-IsRedBlack m (up z p) whole)
  | inl e ↦ absurd (Good-parent n z p [] good c e).1
]
fixup-IsRedBlack n z (p ∷ g ∷ path) good zr c = elim (color_cases (parent_color p)) [
  | inr e ↦
      let (m, whole) = Good-plug n z (p ∷ g ∷ path) good c (inr e) in
      rw (fixup_done z p g path e) (blacken-IsRedBlack m (plug z (p ∷ g ∷ path)) whole)
  | inl e ↦ elim (color_cases (rb_color (sibling g))) [
    | inl f ↦
        let (good', red', c') = Good-push_black n z p g path good c e f in
        rw (fixup_push z p g path e f)
          (fixup-IsRedBlack (suc n) (push_black z p g) path good' red' c')
    | inr f ↦
        let (good', black', c') = Good-turn n z p g path good zr c e f in
        let (m, whole) =
          Good-plug (suc n) (turn z p g) path good' c' (black-Matches (turn z p g) path black') in
        rw (fixup_turn z p g path e f) (blacken-IsRedBlack m (plug (turn z p g) path) whole)
  ]
]

-- A subtree that is black or hangs under a black area
abbrev pub Hangs : Tree → List Step → Type 0
Hangs t path = (rb_color t ≡ black) ⊎ BlackAbove path

pub red-Hangs :
    (l : Tree) (x : VmArea) (r : Tree) (path : List Step)
    → Hangs (node red l x r) path
    → BlackAbove path
red-Hangs l x r path (inl e) = absurd (ground arith)
red-Hangs l x r path (inr a) = a

descend-Context :
    (vma : VmArea) (n : ℕ) (t : Tree) (path : List Step)
    → Good n t
    → Hangs t path
    → Context n path
    → Context 0 (descend vma t path)
descend-Context vma n leaf path (b, k) h c =
    rw (descend_leaf vma path) (subst (λ m. Context m path) b c)
descend-Context vma n (node red l x r) path ((bl, br), (cl, cr, kl, kr)) h c =
    elim (Bool-cases (ltb vma.start x.start)) [
      | inl e ↦ rw (descend_left vma red l x r path e) (
          descend-Context vma n l (left red x r ∷ path) (bl, kl) (inl cl)
            ((br, kr), cr, red-Hangs l x r path h, c))
      | inr e ↦ rw (descend_right vma red l x r path e) (
          descend-Context vma n r (right red l x ∷ path) (br, kr) (inl cr)
            ((bl, kl), cl, red-Hangs l x r path h, c))
    ]
descend-Context vma n (node black l x r) path ((m, e, bl, br), (kl, kr)) h c =
    let c' : Context (suc m) path = subst (λ k. Context k path) e c in
    elim (Bool-cases (ltb vma.start x.start)) [
      | inl lt ↦
          rw (descend_left vma black l x r path lt)
            (descend-Context vma m l (left black x r ∷ path) (bl, kl) (inr refl) ((br, kr), c'))
      | inr ge ↦
          rw (descend_right vma black l x r path ge)
            (descend-Context vma m r (right black l x ∷ path) (br, kr) (inr refl) ((bl, kl), c'))
    ]

-- `vma_insert` keeps a tree red-black: the root is black, no red area has a red child, and
-- every way down from the root meets the same number of black areas.
pub insert-IsRedBlack : (t : Tree) (v : VmArea) → IsRedBlack t → IsRedBlack (vma_insert t v)
unfolding vma_insert
insert-IsRedBlack t v (b, (n, good)) =
    fixup-IsRedBlack 0 (node red leaf v leaf) (descend v t []) ((refl, refl), (refl, refl, tt, tt))
      refl (descend-Context v n t [] good (inl b) tt)
