-- ===== src/Vma/RbTree/Erase/Recolor.antt =====
-- The tree is red-black again after the removal of a node.
use mathlib.Core.Path.{subst}
use doppio.Prelude.{
  ℕ, suc, ◌≡◌, refl, ◌⊎◌, inl, inr, true, false, List, [], ◌∷◌, ◌++◌, ltb, ◌==◌, Bool-cases, arith,
}
use doppio.Vma.{VmArea, Color, red, black, Tree, leaf, node}
use doppio.Vma.RbTree.{Step, left, right, rb_color, rb_set_color, parent_color, sibling, up, plug}
use doppio.Vma.RbTree.InOrder.{color_cases}
use doppio.Vma.RbTree.Balance.{
  Good, IsRedBlack, BlackAbove, Context, Good-plug, color-blacken, blacken-IsRedBlack, Hangs,
  red-Hangs,
}
use doppio.Vma.RbTree.Erase.{
  kids_black, redden, lift, settle, red_sibling, rb_erase_fixup, after_unlink, rb_minimum,
  rb_erase_node, erase_below, vma_erase,
}
use doppio.Vma.RbTree.Erase.Keep.{
  settle_recolors, settle_lifts, erase_root, erase_ends, erase_red_sibling, erase_climbs,
  erase_lifts,
}
use doppio.Vma.RbTree.Erase.Delete.{below_leaf, below_here, below_left, below_right}
use doppio.Vma.RbTree.Erase.Balanced.{
  Nearly, plugged, Nearly-blacken, Nearly-red, Nearly-black, Good-Nearly, reddened, Above,
  lift-Spliced,
}

-- The last round, from anywhere
lifted-IsRedBlack :
    (n : ℕ) (x : Tree) (s : Step) (path : List Step)
    → Good n x
    → rb_color x ≡ black
    → Context (suc n) (s ∷ path)
    → rb_color (sibling s) ≡ black
    → kids_black (sibling s) ≡ false
    → IsRedBlack (rb_set_color (plug (lift x s) path) black)
lifted-IsRedBlack n x s path gx cx cs e f =
    let (k, g, c, h) = lift-Spliced n x s path gx cx cs e f in
    let (m, whole) = Good-plug k (lift x s) path g c h in
    blacken-IsRedBlack m (plug (lift x s) path) whole

settle-IsRedBlack :
    (n : ℕ) (x : Tree) (s g : Step) (path : List Step)
    → Good n x
    → rb_color x ≡ black
    → parent_color s ≡ red
    → rb_color (sibling s) ≡ black
    → Context (suc n) (s ∷ g ∷ path)
    → IsRedBlack (settle x s (g ∷ path))
settle-IsRedBlack n x s g path gx cx ps e cs = elim (Bool-cases (kids_black (sibling s))) [
  | inl f ↦
      let (good, c) = recolored s ps e f cs in
      rw (settle_recolors x s (g ∷ path) f) (
        plugged (suc n) (rb_set_color (up x (redden s)) black) g path good c
          (inl (color-blacken (up x (redden s)))))
  | inr f ↦ rw (settle_lifts x s (g ∷ path) f) (lifted-IsRedBlack n x s (g ∷ path) gx cx cs e f)
]
  where
    recolored :
        (s : Step)
        → parent_color s ≡ red
        → rb_color (sibling s) ≡ black
        → kids_black (sibling s) ≡ true
        → Context (suc n) (s ∷ g ∷ path)
        → Good (suc n) (rb_set_color (up x (redden s)) black) × Context (suc n) (g ∷ path)
    recolored (left red v w) p e f (gw, _, above, c) =
        let (bw, kw) = reddened n w gw e f in (((n, refl, gx.0, bw), (gx.1, kw)), c)
    recolored (right red w v) p e f (gw, _, above, c) =
        let (bw, kw) = reddened n w gw e f in (((n, refl, bw, gx.0), (kw, gx.1)), c)
    recolored (left black v w) p e f c = ground arith
    recolored (right black w v) p e f c = ground arith

red_sibling-IsRedBlack :
    (n : ℕ) (x : Tree) (s : Step) (path : List Step)
    → Good n x
    → rb_color x ≡ black
    → rb_color (sibling s) ≡ red
    → Context (suc n) (s ∷ path)
    → IsRedBlack (red_sibling x s path)
unfolding red_sibling
red_sibling-IsRedBlack n x (left c v leaf) path gx cx e cs = ground arith
red_sibling-IsRedBlack n x (left c v (node black a y b)) path gx cx e cs = ground arith
red_sibling-IsRedBlack n x (left red v (node red a y b)) path gx cx e (_, f, _, _) = ground arith
red_sibling-IsRedBlack n x (left black v (node red a y b)) path gx cx e
      (((ba, bb), (ca, cb, ka, kb)), c) =
    settle-IsRedBlack n x (left red v a) (left black y b) path gx cx refl ca
      ((ba, ka), ca, refl, ((bb, kb), c))
red_sibling-IsRedBlack n x (right c leaf v) path gx cx e cs = ground arith
red_sibling-IsRedBlack n x (right c (node black b y a) v) path gx cx e cs = ground arith
red_sibling-IsRedBlack n x (right red (node red b y a) v) path gx cx e (_, f, _, _) = ground arith
red_sibling-IsRedBlack n x (right black (node red b y a) v) path gx cx e
      (((bb, ba), (cb, ca, kb, ka)), c) =
    settle-IsRedBlack n x (right red a v) (right black b y) path gx cx refl ca
      ((ba, ka), ca, refl, ((bb, kb), c))

-- A round that climbs: the parent is nearly good, one black area less than its place wants.
climbed :
    (n : ℕ) (x : Tree) (s : Step) (path : List Step)
    → Good n x
    → rb_color (sibling s) ≡ black
    → kids_black (sibling s) ≡ true
    → Context (suc n) (s ∷ path)
    → (k : ℕ) × Nearly k (up x (redden s)) × Context (suc k) path
climbed n x (left red v w) path gx e f (gw, _, _, c) =
    let (bw, kw) = reddened n w gw e f in (n, ((gx.0, bw), (gx.1, kw)), c)
climbed n x (right red w v) path gx e f (gw, _, _, c) =
    let (bw, kw) = reddened n w gw e f in (n, ((bw, gx.0), (kw, gx.1)), c)
climbed n x (left black v w) path gx e f (gw, c) =
    let (bw, kw) = reddened n w gw e f in (suc n, ((n, refl, gx.0, bw), (gx.1, kw)), c)
climbed n x (right black w v) path gx e f (gw, c) =
    let (bw, kw) = reddened n w gw e f in (suc n, ((n, refl, bw, gx.0), (kw, gx.1)), c)

erase_fixup-IsRedBlack :
    (n : ℕ) (x : Tree) (path : List Step)
    → Nearly n x
    → Context (suc n) path
    → IsRedBlack (rb_erase_fixup x path)
erase_fixup-IsRedBlack n x [] g c = rw (erase_root x) (color-blacken x, Nearly-blacken n x g)
erase_fixup-IsRedBlack n x (s ∷ path) g c = elim (color_cases (rb_color x)) [
  | inl e ↦
      rw (erase_ends x s path e) (
        plugged (suc n) (rb_set_color x black) s path (Nearly-red n x g e) c
          (inl (color-blacken x)))
  | inr e ↦
      let good : Good n x = Nearly-black n x g e in
      elim (color_cases (rb_color (sibling s))) [
        | inl f ↦ rw (erase_red_sibling x s path e f) (red_sibling-IsRedBlack n x s path good e f c)
        | inr f ↦ elim (Bool-cases (kids_black (sibling s))) [
          | inl h ↦
              let (k, near, c') = climbed n x s path good f h c in
              rw (erase_climbs x s path e f h)
                (erase_fixup-IsRedBlack k (up x (redden s)) path near c')
          | inr h ↦ rw (erase_lifts x s path e f h) (lifted-IsRedBlack n x s path good e c f h)
        ]
      ]
]

-- A node with one child at most leaves its place to the child.
after_unlink-IsRedBlack :
    (n : ℕ) (c : Color) (x : Tree) (path : List Step)
    → Good n x
    → (rb_color x ≡ black) ⊎ (c ≡ black)
    → Above n c path
    → IsRedBlack (after_unlink c x path)
after_unlink-IsRedBlack n black x path g h c = erase_fixup-IsRedBlack n x path (Good-Nearly n x g) c
after_unlink-IsRedBlack n red x [] g h (above, c) = absurd above
after_unlink-IsRedBlack n red x (s ∷ path) g (inl e) (above, c) = plugged n x s path g c (inl e)
after_unlink-IsRedBlack n red x (s ∷ path) g (inr e) (above, c) = ground arith

-- Below a node in its place: the children, and what hangs above each
abbrev Opened : ℕ → Color → Tree → VmArea → Tree → List Step → Type 0
Opened m c l v r path =
    Good m l
    × Good m r
    × Above m c path
    × ((rb_color l ≡ black) ⊎ (c ≡ black))
    × ((rb_color r ≡ black) ⊎ (c ≡ black))
    × ((y : VmArea) → Context m (left c y r ∷ path) × Context m (right c l y ∷ path))
    × ((y : VmArea) → Hangs l (left c y r ∷ path) × Hangs r (right c l y ∷ path))

open_node :
    (n : ℕ) (c : Color) (l : Tree) (v : VmArea) (r : Tree) (path : List Step)
    → Good n (node c l v r)
    → Hangs (node c l v r) path
    → Context n path
    → (m : ℕ) × Opened m c l v r path
open_node n red l v r path ((bl, br), (cl, cr, kl, kr)) h c =
    let above : BlackAbove path = red-Hangs l v r path h in
    (
      n,
      (
        (bl, kl),
        (br, kr),
        (above, c),
        inl cl,
        inl cr,
        (λ y. (((br, kr), cr, above, c), ((bl, kl), cl, above, c))),
        λ y. (inl cl, inl cr),
      ),
    )
open_node n black l v r path ((m, e, bl, br), (kl, kr)) h c =
    let c' : Context (suc m) path = subst (λ k. Context k path) e c in
    (
      m,
      (
        (bl, kl),
        (br, kr),
        c',
        inr refl,
        inr refl,
        (λ y. (((br, kr), c'), ((bl, kl), c'))),
        λ y. (inr refl, inr refl),
      ),
    )

-- The successor leaves its place to its right child.
minimum_opened :
    (n : ℕ) (c : Color) (l : Tree) (v : VmArea) (r : Tree) (path : List Step)
    → Good n (node c l v r)
    → Hangs (node c l v r) path
    → Context n path
    → let (y_color, y, x, p) = rb_minimum c l v r path in
      (k : ℕ) × Good k x × ((rb_color x ≡ black) ⊎ (y_color ≡ black)) × Above k y_color p
unfolding rb_minimum
minimum_opened n c leaf v r path g h cs =
    let (m, (gl, gr, above, el, er, _, _)) = open_node n c leaf v r path g h cs in
    (m, gr, er, above)
minimum_opened n c (node d a x b) v r path g h cs =
    let (m, (gl, gr, above, el, er, ctx, hangs)) = open_node n c (node d a x b) v r path g h cs in
    minimum_opened m d a x b (left c v r ∷ path) gl (hangs v).0 (ctx v).0

minimum-append :
    (c : Color) (l : Tree) (v : VmArea) (r : Tree) (p q : List Step)
    → let (y_color, y, x, inner) = rb_minimum c l v r p in
      rb_minimum c l v r (p ++ q) ≡ (y_color, y, x, inner ++ q)
unfolding rb_minimum
minimum-append c leaf v r p q = refl
minimum-append c (node d a x b) v r p q = minimum-append d a x b (left c v r ∷ p) q

erase_node-IsRedBlack :
    (n : ℕ) (c : Color) (l : Tree) (v : VmArea) (r : Tree) (path : List Step)
    → Good n (node c l v r)
    → Hangs (node c l v r) path
    → Context n path
    → IsRedBlack (rb_erase_node c l v r path)
unfolding rb_erase_node
erase_node-IsRedBlack n c leaf v r path g h cs =
    let (m, (gl, gr, above, el, er, _, _)) = open_node n c leaf v r path g h cs in
    after_unlink-IsRedBlack m c r path gr er above
erase_node-IsRedBlack n c (node d a x b) v leaf path g h cs =
    let (m, (gl, gr, above, el, er, _, _)) = open_node n c (node d a x b) v leaf path g h cs in
    after_unlink-IsRedBlack m c (node d a x b) path gl el above
erase_node-IsRedBlack n c (node d a x b) v (node e f w z) path g h cs =
    let l : Tree = node d a x b in
    let (m, (gl, gr, above, el, er, ctx, hangs)) = open_node n c l v (node e f w z) path g h cs in
    let (y_color, y, x_new, inner) = rb_minimum e f w z [] in
    let q : List Step = right c l y ∷ path in
    let (k, gx, ex, above') =
      subst
        (λ out.
          (k : ℕ) × Good k out.2
          × ((rb_color out.2 ≡ black) ⊎ (out.0 ≡ black))
          × Above k out.0 out.3)
        (minimum-append e f w z [] q) (minimum_opened m e f w z q gr (hangs y).1 (ctx y).1) in
    after_unlink-IsRedBlack k y_color x_new (inner ++ q) gx ex above'

erase_below-IsRedBlack :
    (start n : ℕ) (t : Tree) (path : List Step)
    → Good n t
    → Hangs t path
    → Context n path
    → IsRedBlack (erase_below start t path)
erase_below-IsRedBlack start n leaf [] g h c = rw (below_leaf start []) (refl, (n, g))
erase_below-IsRedBlack start n leaf (s ∷ path) g h c =
    rw (below_leaf start (s ∷ path)) (plugged n leaf s path g c (inl refl))
erase_below-IsRedBlack start n (node c l v r) path g h cs =
    let (m, (gl, gr, above, el, er, ctx, hangs)) = open_node n c l v r path g h cs in
    elim (Bool-cases (start == v.start)) [
      | inl e ↦ rw (below_here start c l v r path e) (erase_node-IsRedBlack n c l v r path g h cs)
      | inr e ↦ elim (Bool-cases (ltb start v.start)) [
        | inl f ↦
            rw (below_left start c l v r path e f)
              (erase_below-IsRedBlack start m l (left c v r ∷ path) gl (hangs v).0 (ctx v).0)
        | inr f ↦
            rw (below_right start c l v r path e f)
              (erase_below-IsRedBlack start m r (right c l v ∷ path) gr (hangs v).1 (ctx v).1)
      ]
    ]

-- `vma_erase` keeps a tree red-black.
pub erase-IsRedBlack : (t : Tree) (start : ℕ) → IsRedBlack t → IsRedBlack (vma_erase t start)
unfolding vma_erase
erase-IsRedBlack t start (b, (n, g)) = erase_below-IsRedBlack start n t [] g (inl b) tt
