-- ===== src/Vma/RbTree/Height.antt =====
-- The length of the ways down a red-black tree.
use Prim.Native.Nat.{max}
use native.Mathlib.Nat.{pow-suc}
use doppio.Prelude.{ℕ, suc, ◌+◌, ◌*◌, ◌^◌, ◌≤◌, ap, ◌∷◌, length, length-append, arith}
use doppio.Vma.{Color, red, black, Tree, leaf, node}
use doppio.Vma.RbTree.{rb_color}
use doppio.Vma.RbTree.InOrder.{in_order}
use doppio.Vma.RbTree.Balance.{Balanced, Good, IsRedBlack}

-- The longest way down
pub height : Tree → ℕ
height leaf = 0
height (node c l v r) = suc (max (height l) (height r))

black_to : Color → ℕ
black_to red = 1
black_to black = 0

black_to-le : (c : Color) → black_to c ≤ 1
unfolding black_to
black_to-le red = omega arith
black_to-le black = omega arith

height-Good : (n : ℕ) (t : Tree) → Good n t → height t ≤ 2 * n + black_to (rb_color t)
unfolding height black_to
height-Good n leaf g = omega arith
height-Good n (node red l v r) ((bl, br), (cl, cr, kl, kr)) =
    omega
      (arith, height-Good n l (bl, kl), height-Good n r (br, kr), ap black_to cl, ap black_to cr)
height-Good n (node black l v r) ((m, e, bl, br), (kl, kr)) = omega (
  arith,
  height-Good m l (bl, kl),
  height-Good m r (br, kr),
  black_to-le (rb_color l),
  black_to-le (rb_color r),
)

size-Balanced : (n : ℕ) (t : Tree) → Balanced n t → 2 ^ n ≤ length (in_order t) + 1
size-Balanced n leaf b = omega (arith, ap (λ (k : ℕ). 2 ^ k) b)
size-Balanced n (node red l v r) (bl, br) =
    omega (arith, size-Balanced n l bl, length-append (in_order l) (v ∷ in_order r))
size-Balanced n (node black l v r) (m, e, bl, br) = omega (
  arith,
  ap (λ (k : ℕ). 2 ^ k) e,
  pow-suc 2 m,
  size-Balanced m l bl,
  size-Balanced m r br,
  length-append (in_order l) (v ∷ in_order r),
)

-- A way down is at most twice the logarithm of the number of areas long.
pub height-IsRedBlack :
    (t : Tree) → IsRedBlack t → (n : ℕ) × (height t ≤ 2 * n) × (2 ^ n ≤ length (in_order t) + 1)
unfolding black_to
height-IsRedBlack t (b, (n, good)) =
    (n, omega (arith, height-Good n t good, ap black_to b), size-Balanced n t good.0)
