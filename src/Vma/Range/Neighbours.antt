-- ===== src/Vma/Range/Neighbours.antt =====
-- The neighbours of an area in the list of areas.
use doppio.Prelude.{
  ℕ, ◌<◌, ◌≡◌, refl, ap, ◌⊎◌, inl, inr, true, false, none, some, List, [], ◌∷◌, ◌++◌, ◌==◌, All,
  All-of-append, arith,
}
use doppio.Vma.{VmArea}
use doppio.Vma.RbTree.InOrder.{Ascending, Ascending-of-append}
use doppio.Vma.Range.{vma_next, vma_prev}

pub next_last :
    (v : VmArea) (xs : List VmArea)
    → Ascending (xs ++ (v ∷ []))
    → vma_next v.start (xs ++ (v ∷ [])) ≡ none
unfolding vma_next
next_last v [] a = refl
next_last v (x ∷ []) (apart, a) = let e : (x.start == v.start) ≡ false = ground arith in rw e refl
next_last v (x ∷ y ∷ xs) (apart, a) =
    let (lt, _) = (Ascending-of-append (x ∷ y ∷ xs) v [] (apart, a)).0 in
    let e : (x.start == v.start) ≡ false = ground arith in rw (next_last v (y ∷ xs) a, e) refl

pub next-at :
    (v w : VmArea) (xs ys : List VmArea)
    → Ascending (xs ++ (v ∷ w ∷ ys))
    → vma_next v.start (xs ++ (v ∷ w ∷ ys)) ≡ some w
unfolding vma_next
next-at v w [] ys a = let e : (v.start == v.start) ≡ true = ground arith in rw e refl
next-at v w (x ∷ []) ys (apart, a) =
    let e : (x.start == v.start) ≡ false = ground arith in
    let f : (v.start == v.start) ≡ true = ground arith in rw (e, f) refl
next-at v w (x ∷ y ∷ xs) ys (apart, a) =
    let (lt, _) = (Ascending-of-append (x ∷ y ∷ xs) v (w ∷ ys) (apart, a)).0 in
    let e : (x.start == v.start) ≡ false = ground arith in rw (next-at v w (y ∷ xs) ys a, e) refl

pub prev_none :
    (start : ℕ) (x : VmArea) (xs : List VmArea)
    → All (λ (y : VmArea). start < y.start) xs
    → vma_prev start (x ∷ xs) ≡ none
unfolding vma_prev
prev_none start x [] a = refl
prev_none start x (y ∷ xs) (lt, a) =
    let e : (y.start == start) ≡ false = ground arith in rw (prev_none start y xs a, e) refl

pub prev-at :
    (p v : VmArea) (xs ys : List VmArea)
    → Ascending (xs ++ (p ∷ v ∷ ys))
    → vma_prev v.start (xs ++ (p ∷ v ∷ ys)) ≡ some p
unfolding vma_prev
prev-at p v [] ys a = let e : (v.start == v.start) ≡ true = ground arith in rw e refl
prev-at p v (x ∷ []) ys (apart, (lt, a)) =
    let e : (p.start == v.start) ≡ false = ground arith in
    let f : (v.start == v.start) ≡ true = ground arith in rw (e, f) refl
prev-at p v (x ∷ y ∷ xs) ys (apart, (near, a)) =
    let e : (y.start == v.start) ≡ false =
      ground (arith, All-of-append (λ (z : VmArea). y.start < z.start) xs (p ∷ v ∷ ys) near) in
    rw (prev-at p v (y ∷ xs) ys (near, a), e) refl

pub last-cases :
    (xs : List VmArea) → (xs ≡ []) ⊎ ((ps : List VmArea) × (p : VmArea) × (xs ≡ ps ++ (p ∷ [])))
last-cases [] = inl refl
last-cases (x ∷ xs) = elim (last-cases xs) [
  | inl e ↦ inr ([], x, ap (λ ys. x ∷ ys) e)
  | inr (ps, p, e) ↦ inr (x ∷ ps, p, ap (λ ys. x ∷ ys) e)
]
