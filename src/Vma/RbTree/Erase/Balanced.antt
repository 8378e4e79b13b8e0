-- ===== src/Vma/RbTree/Erase/Balanced.antt =====
-- The removal of a node and the colors of the tree.
use mathlib.Core.Path.{subst}
use doppio.Prelude.{ℕ, suc, ◌≡◌, refl, true, false, ◌&&◌, List, [], ◌∷◌, arith}
use doppio.Vma.{VmArea, Color, red, black, Tree, leaf, node}
use doppio.Vma.RbTree.{Step, left, right, rb_color, rb_set_color, parent_color, sibling, plug}
use doppio.Vma.RbTree.Balance.{
  Balanced, NoRedRed, Good, IsRedBlack, BlackAbove, Context, Matches, Good-plug, above-Matches,
  black-Matches,
}
use doppio.Vma.RbTree.Erase.{is_black, kids_black, lift}

-- A subtree that is good once its root is made black
abbrev pub Nearly : ℕ → Tree → Type 0
Nearly n x = Balanced n x × NoRedRed (rb_set_color x black)

root_black :
    (n : ℕ) (t : Tree) (s : Step) (path : List Step)
    → Context n (s ∷ path)
    → rb_color (plug t (s ∷ path)) ≡ black
root_black n t (left red v r) [] (g, e, above, c) = absurd above
root_black n t (right red l v) [] (g, e, above, c) = absurd above
root_black n t (left black v r) [] c = refl
root_black n t (right black l v) [] c = refl
root_black n t (left red v r) (s ∷ path) (g, e, above, c) = root_black n (node red t v r) s path c
root_black n t (right red l v) (s ∷ path) (g, e, above, c) = root_black n (node red l v t) s path c
root_black n t (left black v r) (s ∷ path) (g, c) = root_black (suc n) (node black t v r) s path c
root_black n t (right black l v) (s ∷ path) (g, c) = root_black (suc n) (node black l v t) s path c

-- A good subtree in its place below the root
pub plugged :
    (n : ℕ) (t : Tree) (s : Step) (path : List Step)
    → Good n t
    → Context n (s ∷ path)
    → Matches t (s ∷ path)
    → IsRedBlack (plug t (s ∷ path))
plugged n t s path g c h = (root_black n t s path c, Good-plug n t (s ∷ path) g c h)

pub Nearly-blacken : (n : ℕ) (x : Tree) → Nearly n x → (m : ℕ) × Good m (rb_set_color x black)
Nearly-blacken n leaf g = (n, g)
Nearly-blacken n (node red a y b) ((ba, bb), k) = (suc n, ((n, refl, ba, bb), k))
Nearly-blacken n (node black a y b) g = (n, g)

pub Nearly-red :
    (n : ℕ) (x : Tree) → Nearly n x → rb_color x ≡ red → Good (suc n) (rb_set_color x black)
Nearly-red n leaf g e = ground arith
Nearly-red n (node red a y b) ((ba, bb), k) e = ((n, refl, ba, bb), k)
Nearly-red n (node black a y b) g e = ground arith

pub Nearly-black : (n : ℕ) (x : Tree) → Nearly n x → rb_color x ≡ black → Good n x
Nearly-black n leaf g e = g
Nearly-black n (node red a y b) g e = ground arith
Nearly-black n (node black a y b) g e = g

pub Good-Nearly : (n : ℕ) (x : Tree) → Good n x → Nearly n x
Good-Nearly n leaf g = g
Good-Nearly n (node red a y b) (b', (ca, cb, ka, kb)) = (b', (ka, kb))
Good-Nearly n (node black a y b) g = g

-- The children of a black node
kids-Good :
    (n : ℕ) (a : Tree) (y : VmArea) (b : Tree)
    → Good (suc n) (node black a y b)
    → Good n a × Good n b
kids-Good n a y b ((m, e, ba, bb), (ka, kb)) =
    let f : m ≡ n = omega arith in
    ((subst (λ k. Balanced k a) f ba, ka), (subst (λ k. Balanced k b) f bb, kb))

both_black : (a b : Color) → (is_black a && is_black b) ≡ true → (a ≡ black) × (b ≡ black)
both_black red b e = ground arith
both_black black red e = ground arith
both_black black black e = (refl, refl)

pub reddened :
    (n : ℕ) (w : Tree)
    → Good (suc n) w
    → rb_color w ≡ black
    → kids_black w ≡ true
    → Good n (rb_set_color w red)
reddened n leaf (b, k) e f = absurd (omega arith)
reddened n (node red a y b) g e f = ground arith
reddened n (node black a y b) g e f =
    let ((ba, ka), (bb, kb)) = kids-Good n a y b g in
    let (ca, cb) = both_black (rb_color a) (rb_color b) f in ((ba, bb), (ca, cb, ka, kb))

-- What hangs above a node of a color that has `n` black areas on the ways below each child
abbrev pub Above : ℕ → Color → List Step → Type 0
Above n red path = BlackAbove path × Context n path
Above n black path = Context (suc n) path

abbrev pub Spliced : Tree → List Step → Type 0
Spliced t path = (k : ℕ) × Good k t × Context k path × Matches t path

spliced :
    (n : ℕ) (c : Color) (l : Tree) (y : VmArea) (r : Tree) (path : List Step)
    → Good n l
    → Good n r
    → rb_color l ≡ black
    → rb_color r ≡ black
    → Above n c path
    → Spliced (node c l y r) path
spliced n red l y r path (bl, kl) (br, kr) cl cr (above, c) =
    (n, ((bl, br), (cl, cr, kl, kr)), c, above-Matches (node red l y r) path above)
spliced n black l y r path (bl, kl) (br, kr) cl cr c =
    (suc n, ((n, refl, bl, br), (kl, kr)), c, black-Matches (node black l y r) path refl)

-- The sibling and what is above, of a step
pub opened :
    (n : ℕ) (s : Step) (path : List Step)
    → Context n (s ∷ path)
    → Good n (sibling s) × Above n (parent_color s) path
opened n (left red v r) path (g, e, above, c) = (g, (above, c))
opened n (left black v r) path (g, c) = (g, c)
opened n (right red l v) path (g, e, above, c) = (g, (above, c))
opened n (right black l v) path (g, c) = (g, c)

-- Beside a black sibling with a red child, the last round makes the subtree good again.
pub lift-Spliced :
    (n : ℕ) (x : Tree) (s : Step) (path : List Step)
    → Good n x
    → rb_color x ≡ black
    → Context (suc n) (s ∷ path)
    → rb_color (sibling s) ≡ black
    → kids_black (sibling s) ≡ false
    → Spliced (lift x s) path
lift-Spliced n x (left c v leaf) path gx cx cs e f = ground arith
lift-Spliced n x (left c v (node red a y b)) path gx cx cs e f = ground arith
lift-Spliced n x (left c v (node black a y (node red b1 z b2))) path gx cx cs e f =
    let (gw, above) = opened (suc n) (left c v (node black a y (node red b1 z b2))) path cs in
    let (ga, ((bb1, bb2), (_, _, kb1, kb2))) = kids-Good n a y (node red b1 z b2) gw in
    spliced (suc n) c (node black x v a) y (node black b1 z b2) path
      ((n, refl, gx.0, ga.0), (gx.1, ga.1)) ((n, refl, bb1, bb2), (kb1, kb2)) refl refl above
lift-Spliced n x (left c v (node black (node red a1 z a2) y leaf)) path gx cx cs e f =
    let (gw, above) = opened (suc n) (left c v (node black (node red a1 z a2) y leaf)) path cs in
    let (((ba1, ba2), (_, _, ka1, ka2)), gb) = kids-Good n (node red a1 z a2) y leaf gw in
    spliced (suc n) c (node black x v a1) z (node black a2 y leaf) path
      ((n, refl, gx.0, ba1), (gx.1, ka1)) ((n, refl, ba2, gb.0), (ka2, gb.1)) refl refl above
lift-Spliced n x (left c v (node black (node red a1 z a2) y (node black b1 w b2))) path gx cx cs e
      f =
    let (gw, above) =
      opened (suc n) (left c v (node black (node red a1 z a2) y (node black b1 w b2))) path cs in
    let (((ba1, ba2), (_, _, ka1, ka2)), gb) =
      kids-Good n (node red a1 z a2) y (node black b1 w b2) gw in
    spliced (suc n) c (node black x v a1) z (node black a2 y (node black b1 w b2)) path
      ((n, refl, gx.0, ba1), (gx.1, ka1)) ((n, refl, ba2, gb.0), (ka2, gb.1)) refl refl above
lift-Spliced n x (left c v (node black leaf y leaf)) path gx cx cs e f = ground arith
lift-Spliced n x (left c v (node black leaf y (node black b1 w b2))) path gx cx cs e f =
    ground arith
lift-Spliced n x (left c v (node black (node black a1 z a2) y leaf)) path gx cx cs e f =
    ground arith
lift-Spliced n x (left c v (node black (node black a1 z a2) y (node black b1 w b2))) path gx cx cs e
      f =
    ground arith
lift-Spliced n x (right c leaf v) path gx cx cs e f = ground arith
lift-Spliced n x (right c (node red b y a) v) path gx cx cs e f = ground arith
lift-Spliced n x (right c (node black (node red b1 z b2) y a) v) path gx cx cs e f =
    let (gw, above) = opened (suc n) (right c (node black (node red b1 z b2) y a) v) path cs in
    let (((bb1, bb2), (_, _, kb1, kb2)), ga) = kids-Good n (node red b1 z b2) y a gw in
    spliced (suc n) c (node black b1 z b2) y (node black a v x) path
      ((n, refl, bb1, bb2), (kb1, kb2)) ((n, refl, ga.0, gx.0), (ga.1, gx.1)) refl refl above
lift-Spliced n x (right c (node black leaf y (node red a1 z a2)) v) path gx cx cs e f =
    let (gw, above) = opened (suc n) (right c (node black leaf y (node red a1 z a2)) v) path cs in
    let (gb, ((ba1, ba2), (_, _, ka1, ka2))) = kids-Good n leaf y (node red a1 z a2) gw in
    spliced (suc n) c (node black leaf y a1) z (node black a2 v x) path
      ((n, refl, gb.0, ba1), (gb.1, ka1)) ((n, refl, ba2, gx.0), (ka2, gx.1)) refl refl above
lift-Spliced n x (right c (node black (node black b1 w b2) y (node red a1 z a2)) v) path gx cx cs e
      f =
    let (gw, above) =
      opened (suc n) (right c (node black (node black b1 w b2) y (node red a1 z a2)) v) path cs in
    let (gb, ((ba1, ba2), (_, _, ka1, ka2))) =
      kids-Good n (node black b1 w b2) y (node red a1 z a2) gw in
    spliced (suc n) c (node black (node black b1 w b2) y a1) z (node black a2 v x) path
      ((n, refl, gb.0, ba1), (gb.1, ka1)) ((n, refl, ba2, gx.0), (ka2, gx.1)) refl refl above
lift-Spliced n x (right c (node black leaf y leaf) v) path gx cx cs e f = ground arith
lift-Spliced n x (right c (node black leaf y (node black a1 z a2)) v) path gx cx cs e f =
    ground arith
lift-Spliced n x (right c (node black (node black b1 w b2) y leaf) v) path gx cx cs e f =
    ground arith
lift-Spliced n x (right c (node black (node black b1 w b2) y (node black a1 z a2)) v) path gx cx cs
      e f =
    ground arith
