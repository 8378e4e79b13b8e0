-- ===== src/Vma/RbTree/Insert.antt =====
-- Where an insertion puts an area, in the tree and in the list.
use mathlib.Core.Path.{subst}
use doppio.Prelude.{
  ◌<◌, ◌≤◌, ◌≡◌, refl, ap, ◌∙◌, sym, ◌≢◌, ◌⊎◌, inl, inr, true, false, List, [], ◌∷◌, ◌++◌, ltb,
  ◌==◌, if◌then◌else◌, append_assoc, append_nil, All, All-map, All-append, Bool-cases, arith,
}
use doppio.Vma.{VmArea, Color, red, Tree, leaf, node}
use doppio.Vma.RbTree.{
  Step, left, right, plug, descend, vma_insert, add_before, add_after, list_insert,
}
use doppio.Vma.RbTree.InOrder.{
  in_order-fixup, in_order, before, after, in_order-plug, Disjoint, Disjoint-of-append,
}

-- Where `vma_insert` puts an area: behind the areas that start no later.
pub insert_sorted : VmArea → List VmArea → List VmArea
insert_sorted v [] = v ∷ []
insert_sorted v (x ∷ xs) =
    let rest = insert_sorted v xs in if ltb v.start x.start then v ∷ x ∷ xs else x ∷ rest

pub insert_sorted-append :
    (v : VmArea) (xs ys : List VmArea)
    → All (λ (x : VmArea). x.start ≤ v.start) xs
    → insert_sorted v (xs ++ ys) ≡ xs ++ insert_sorted v ys
unfolding insert_sorted
insert_sorted-append v [] ys a = refl
insert_sorted-append v (x ∷ xs) ys (le, a) =
    let e : ltb v.start x.start ≡ false = ground arith in
    rw e (ap (λ zs. x ∷ zs) (insert_sorted-append v xs ys a))

insert_sorted-front :
    (v : VmArea) (xs ys : List VmArea) (y : VmArea)
    → v.start < y.start
    → insert_sorted v (xs ++ (y ∷ ys)) ≡ insert_sorted v xs ++ (y ∷ ys)
unfolding insert_sorted
insert_sorted-front v [] ys y lt = let e : ltb v.start y.start ≡ true = ground arith in rw e refl
insert_sorted-front v (x ∷ xs) ys y lt = elim (Bool-cases (ltb v.start x.start)) [
  | inl e ↦ rw e refl
  | inr e ↦ rw e (ap (λ zs. x ∷ zs) (insert_sorted-front v xs ys y lt))
]

pub descend_leaf : (vma : VmArea) (path : List Step) → descend vma leaf path ≡ path
unfolding descend
descend_leaf vma path = refl

insert_sorted-nil : (vma : VmArea) → insert_sorted vma [] ≡ vma ∷ []
unfolding insert_sorted
insert_sorted-nil vma = refl

pub descend_right :
    (vma : VmArea) (c : Color) (l : Tree) (x : VmArea) (r : Tree) (path : List Step)
    → ltb vma.start x.start ≡ false
    → descend vma (node c l x r) path ≡ descend vma r (right c l x ∷ path)
unfolding descend
descend_right vma c l x r path e = rw e refl

pub descend_left :
    (vma : VmArea) (c : Color) (l : Tree) (x : VmArea) (r : Tree) (path : List Step)
    → ltb vma.start x.start ≡ true
    → descend vma (node c l x r) path ≡ descend vma l (left c x r ∷ path)
unfolding descend
descend_left vma c l x r path e = rw e refl

-- The place that the descent finds in a subtree
in_order-descend :
    (vma : VmArea) (t : Tree) (path : List Step)
    → Disjoint (in_order t)
    → before (descend vma t path) ++ (vma ∷ after (descend vma t path))
      ≡ before path ++ (insert_sorted vma (in_order t) ++ after path)
in_order-descend vma leaf path d = rw (descend_leaf vma path, insert_sorted-nil vma) refl
in_order-descend vma (node c l x r) path d =
    let (low, dl, dr) = Disjoint-of-append (in_order l) x (in_order r) d in
    let lx : List VmArea = in_order l ++ (x ∷ []) in
    let low_all : x.start ≤ vma.start → All (λ (y : VmArea). y.start ≤ vma.start) lx = λ le.
      All-append (λ (y : VmArea). y.start ≤ vma.start) (in_order l) (x ∷ [])
        (All-map (λ (y : VmArea). (y.start < y.end) × (y.end ≤ x.start))
          (λ (y : VmArea). y.start ≤ vma.start) (λ y h. omega arith) (in_order l) low)
        (le, tt) in
    elim (Bool-cases (ltb vma.start x.start)) [
      | inl e ↦ rw (descend_left vma c l x r path e) (
          in_order-descend vma l (left c x r ∷ path) dl
          ∙ ap (λ xs. before path ++ xs)
              (sym (append_assoc (insert_sorted vma (in_order l)) (x ∷ in_order r) (after path))
                ∙ ap (λ xs. xs ++ after path)
                    (sym (insert_sorted-front vma (in_order l) (in_order r) x (ground arith)))))
      | inr e ↦ rw (descend_right vma c l x r path e) (
          in_order-descend vma r (right c l x ∷ path) dr.2
          ∙ append_assoc (before path) lx (insert_sorted vma (in_order r) ++ after path)
          ∙ ap (λ xs. before path ++ xs)
              (sym (append_assoc lx (insert_sorted vma (in_order r)) (after path))
                ∙ ap (λ xs. xs ++ after path)
                    (sym (insert_sorted-append vma lx (in_order r) (low_all (ground arith)))
                      ∙ ap (insert_sorted vma) (append_assoc (in_order l) (x ∷ []) (in_order r)))))
    ]

plug-descend :
    (vma : VmArea) (t : Tree) (path : List Step) → plug leaf (descend vma t path) ≡ plug t path
plug-descend vma leaf path = ap (plug leaf) (descend_leaf vma path)
plug-descend vma (node c l x r) path = elim (Bool-cases (ltb vma.start x.start)) [
  | inl e ↦ rw (descend_left vma c l x r path e) (plug-descend vma l (left c x r ∷ path))
  | inr e ↦ rw (descend_right vma c l x r path e) (plug-descend vma r (right c l x ∷ path))
]

add_before-append :
    (y v : VmArea) (xs ys : List VmArea)
    → All (λ (x : VmArea). x.start ≢ y.start) xs
    → add_before y.start v (xs ++ (y ∷ ys)) ≡ xs ++ (v ∷ y ∷ ys)
unfolding add_before
add_before-append y v [] ys a = let e : (y.start == y.start) ≡ true = ground arith in rw e refl
add_before-append y v (x ∷ xs) ys (ne, a) =
    let e : (x.start == y.start) ≡ false = ground arith in
    rw e (ap (λ zs. x ∷ zs) (add_before-append y v xs ys a))

add_after-append :
    (y v : VmArea) (xs ys : List VmArea)
    → All (λ (x : VmArea). x.start ≢ y.start) xs
    → add_after y.start v (xs ++ (y ∷ ys)) ≡ xs ++ (y ∷ v ∷ ys)
unfolding add_after
add_after-append y v [] ys a = let e : (y.start == y.start) ≡ true = ground arith in rw e refl
add_after-append y v (x ∷ xs) ys (ne, a) =
    let e : (x.start == y.start) ≡ false = ground arith in
    rw e (ap (λ zs. x ∷ zs) (add_after-append y v xs ys a))

-- Areas in front of another start elsewhere.
pub apart :
    (xs : List VmArea) (y : VmArea) (ys : List VmArea)
    → Disjoint (xs ++ (y ∷ ys))
    → All (λ (x : VmArea). x.start ≢ y.start) xs
apart xs y ys d =
    All-map (λ (x : VmArea). (x.start < x.end) × (x.end ≤ y.start))
      (λ (x : VmArea). x.start ≢ y.start) (λ x h e. omega arith) xs (Disjoint-of-append xs y ys d).0

module _ (v : VmArea) where
  -- The list beside the tree, by the last step of the descent
  beside : (path : List Step) → List VmArea → List VmArea
  beside [] areas = v ∷ areas
  beside (left c y r ∷ path) areas = add_before y.start v areas
  beside (right c l y ∷ path) areas = add_after y.start v areas

  beside_path :
      (path : List Step)
      → Disjoint (before path ++ after path)
      → beside path (before path ++ after path) ≡ before path ++ (v ∷ after path)
  unfolding beside
  beside_path [] d = refl
  beside_path (left c y r ∷ path) d =
      add_before-append y v (before path) (in_order r ++ after path)
        (apart (before path) y (in_order r ++ after path) d)
  beside_path (right c l y ∷ path) d =
      let xs : List VmArea = before path ++ in_order l in
      let e : before path ++ (in_order l ++ (y ∷ [])) ≡ xs ++ (y ∷ []) =
        sym (append_assoc (before path) (in_order l) (y ∷ [])) in
      let split : (zs : List VmArea)
          → (before path ++ (in_order l ++ (y ∷ []))) ++ zs ≡ xs ++ (y ∷ zs) =
        λ zs. ap (λ ws. ws ++ zs) e ∙ append_assoc xs (y ∷ []) zs in
      ap (add_after y.start v) (split (after path))
      ∙ add_after-append y v xs (after path)
          (apart xs y (after path) (subst Disjoint (split (after path)) d))
      ∙ sym (split (v ∷ after path))

  list_insert-beside :
      (t : Tree) (areas : List VmArea) → list_insert t v areas ≡ beside (descend v t []) areas
  unfolding list_insert beside
  list_insert-beside t areas =
      elim (descend v t [])
        as (λ path.
          (elim path [
            | [] ↦ v ∷ areas
            | left c y r ∷ rest ↦ add_before y.start v areas
            | right c l y ∷ rest ↦ add_after y.start v areas
          ])
          ≡ beside path areas) [ [] ↦ refl | left c y r ∷ rest ↦ refl | right c l y ∷ rest ↦ refl ]

insert_sorted_first :
    (v : VmArea) (ys : List VmArea)
    → All (λ (y : VmArea). v.start < y.start) ys
    → insert_sorted v ys ≡ v ∷ ys
unfolding insert_sorted
insert_sorted_first v [] a = refl
insert_sorted_first v (y ∷ ys) (lt, a) =
    let e : ltb v.start y.start ≡ true = ground arith in rw e refl

pub insert_sorted_next :
    (v w : VmArea) (ys : List VmArea)
    → w.start ≤ v.start
    → All (λ (y : VmArea). v.start < y.start) ys
    → insert_sorted v (w ∷ ys) ≡ w ∷ v ∷ ys
unfolding insert_sorted
insert_sorted_next v w ys le a =
    let e : ltb v.start w.start ≡ false = ground arith in rw (e, insert_sorted_first v ys a) refl

-- `vma_insert` puts the area at its place in the order of addresses, in the tree and in the
-- list of areas alike, and the rebalancing moves none.
pub in_order-insert :
    (t : Tree) (v : VmArea)
    → Disjoint (in_order t)
    → (in_order (vma_insert t v) ≡ insert_sorted v (in_order t))
      × (list_insert t v (in_order t) ≡ in_order (vma_insert t v))
unfolding vma_insert
in_order-insert t v d =
    let path : List Step = descend v t [] in
    let place : before path ++ (v ∷ after path) ≡ insert_sorted v (in_order t) =
      in_order-descend v t [] d ∙ append_nil (insert_sorted v (in_order t)) in
    let inserted : in_order (vma_insert t v) ≡ before path ++ (v ∷ after path) =
      in_order-fixup (node red leaf v leaf) path ∙ in_order-plug (node red leaf v leaf) path in
    let whole : before path ++ after path ≡ in_order t =
      sym (in_order-plug leaf path) ∙ ap in_order (plug-descend v t []) in
    (
      inserted ∙ place,
      list_insert-beside v t (in_order t)
          ∙ ap (beside v path) (sym whole)
          ∙ beside_path v path (subst Disjoint (sym whole) d)
          ∙ sym inserted,
    )

-- Where an area is put among areas that are apart from it
pub insert_sorted-place :
    (v : VmArea) (xs : List VmArea)
    → Disjoint xs
    → All (λ (x : VmArea). (x.end ≤ v.start) ⊎ (v.end ≤ x.start)) xs
    → v.start < v.end
    → (front : List VmArea) × (back : List VmArea) × (xs ≡ front ++ back)
      × (insert_sorted v xs ≡ front ++ (v ∷ back))
      × All (λ (x : VmArea). x.end ≤ v.start) front
      × All (λ (x : VmArea). v.end ≤ x.start) back
unfolding insert_sorted
insert_sorted-place v [] d h size = ([], [], refl, refl, tt, tt)
insert_sorted-place v (x ∷ xs) (xsize, later, d) (h, hs) size =
    elim (Bool-cases (ltb v.start x.start)) [
      | inl e ↦
          let lt : v.start < x.start = ground (arith, e) in
          let above : v.end ≤ x.start = elim h [ inl le ↦ absurd (omega arith) | inr le ↦ le ] in
          (
            [],
            x ∷ xs,
            refl,
            rw e refl,
            tt,
            (
              above,
              All-map (λ (y : VmArea). x.end ≤ y.start) (λ (y : VmArea). v.end ≤ y.start)
                  (λ y le. omega arith) xs later,
            ),
          )
      | inr e ↦
          let le : x.start ≤ v.start = ground (arith, e) in
          let below : x.end ≤ v.start = elim h [ inl k ↦ k | inr k ↦ absurd (omega arith) ] in
          let (front, back, at, put, low, high) = insert_sorted-place v xs d hs size in
          (x ∷ front, back, ap (λ ys. x ∷ ys) at, rw e (ap (λ ys. x ∷ ys) put), (below, low), high)
    ]
