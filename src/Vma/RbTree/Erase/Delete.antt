-- ===== src/Vma/RbTree/Erase/Delete.antt =====
-- The removal of an area from the tree and from the list.
use doppio.Prelude.{
  ℕ, ◌<◌, ◌≤◌, ◌≡◌, refl, ap, ◌∙◌, sym, ◌≢◌, inl, inr, true, false, List, [], ◌∷◌, ◌++◌, ltb, ◌==◌,
  if◌then◌else◌, append_assoc, append_nil, All, All-map, All-append, Bool-cases, arith,
}
use doppio.Vma.{VmArea, Color, Tree, leaf, node}
use doppio.Vma.RbTree.{Step, left, right, plug}
use doppio.Vma.RbTree.InOrder.{
  in_order, before, after, in_order-plug, Disjoint, Ascending, Ascending-of-append,
  Disjoint-Ascending,
}
use doppio.Vma.RbTree.Erase.{rb_erase_node, erase_below, vma_erase}
use doppio.Vma.RbTree.Erase.Keep.{in_order-erase_node}

-- `list_del` of the entry of the area that starts at `start`
pub list_del : ℕ → List VmArea → List VmArea
list_del start [] = []
list_del start (x ∷ xs) = let rest = list_del start xs in if x.start == start then xs else x ∷ rest

abbrev Elsewhere : ℕ → VmArea → Type 0
Elsewhere start x = x.start ≢ start

pub list_del-append :
    (start : ℕ) (xs ys : List VmArea)
    → All (Elsewhere start) xs
    → list_del start (xs ++ ys) ≡ xs ++ list_del start ys
unfolding list_del
list_del-append start [] ys a = refl
list_del-append start (x ∷ xs) ys (ne, a) =
    let e : (x.start == start) ≡ false = ground arith in
    rw e (ap (λ zs. x ∷ zs) (list_del-append start xs ys a))

list_del_none : (start : ℕ) (xs : List VmArea) → All (Elsewhere start) xs → list_del start xs ≡ xs
unfolding list_del
list_del_none start [] a = refl
list_del_none start (x ∷ xs) (ne, a) =
    let e : (x.start == start) ≡ false = ground arith in
    rw e (ap (λ zs. x ∷ zs) (list_del_none start xs a))

list_del-front :
    (start : ℕ) (xs ys : List VmArea)
    → All (Elsewhere start) ys
    → list_del start (xs ++ ys) ≡ list_del start xs ++ ys
unfolding list_del
list_del-front start [] ys a = list_del_none start ys a
list_del-front start (x ∷ xs) ys a = elim (Bool-cases (x.start == start)) [
  | inl e ↦ rw e refl
  | inr e ↦ rw e (ap (λ zs. x ∷ zs) (list_del-front start xs ys a))
]

-- One step of the search for the node
module _ (start : ℕ) (c : Color) (l : Tree) (v : VmArea) (r : Tree) (path : List Step) where
  pub below_here :
      (start == v.start) ≡ true → erase_below start (node c l v r) path ≡ rb_erase_node c l v r path
  unfolding erase_below
  below_here e = rw e refl

  pub below_left :
      (start == v.start) ≡ false
      → ltb start v.start ≡ true
      → erase_below start (node c l v r) path ≡ erase_below start l (left c v r ∷ path)
  unfolding erase_below
  below_left e f = rw (e, f) refl

  pub below_right :
      (start == v.start) ≡ false
      → ltb start v.start ≡ false
      → erase_below start (node c l v r) path ≡ erase_below start r (right c l v ∷ path)
  unfolding erase_below
  below_right e f = rw (e, f) refl

pub below_leaf : (start : ℕ) (path : List Step) → erase_below start leaf path ≡ plug leaf path
unfolding erase_below
below_leaf start path = refl

list_del-nil : (start : ℕ) → list_del start [] ≡ []
unfolding list_del
list_del-nil start = refl

pub list_del-here :
    (start : ℕ) (x : VmArea) (xs : List VmArea) → x.start ≡ start → list_del start (x ∷ xs) ≡ xs
unfolding list_del
list_del-here start x xs h = let e : (x.start == start) ≡ true = ground arith in rw e refl

in_order-erase_below :
    (start : ℕ) (t : Tree) (path : List Step)
    → Ascending (in_order t)
    → in_order (erase_below start t path)
      ≡ before path ++ (list_del start (in_order t) ++ after path)
in_order-erase_below start leaf path d =
    rw (below_leaf start path, list_del-nil start) (in_order-plug leaf path)
in_order-erase_below start (node c l v r) path d =
    let (low, dl, (high, dr)) = Ascending-of-append (in_order l) v (in_order r) d in
    let in_front : v.start ≤ start → All (Elsewhere start) (in_order l) = λ h.
      All-map (λ (x : VmArea). x.start < v.start) (Elsewhere start) (λ x p e. omega arith)
        (in_order l) low in
    let behind : start ≤ v.start → All (Elsewhere start) (in_order r) = λ h.
      All-map (λ (x : VmArea). v.start < x.start) (Elsewhere start) (λ x p e. omega arith)
        (in_order r) high in
    elim (Bool-cases (start == v.start)) [
      | inl e ↦ rw (below_here start c l v r path e) (
          in_order-erase_node c l v r path
          ∙ ap (λ xs. before path ++ (xs ++ after path))
              (sym (
                list_del-append start (in_order l) (v ∷ in_order r) (in_front (ground arith))
                ∙ ap (λ xs. in_order l ++ xs) (list_del-here start v (in_order r) (ground arith)))))
      | inr e ↦ elim (Bool-cases (ltb start v.start)) [
        | inl f ↦ rw (below_left start c l v r path e f) (
            in_order-erase_below start l (left c v r ∷ path) dl
            ∙ ap (λ xs. before path ++ xs)
                (sym (append_assoc (list_del start (in_order l)) (v ∷ in_order r) (after path))
                  ∙ ap (λ xs. xs ++ after path)
                      (sym (
                        list_del-front start (in_order l) (v ∷ in_order r)
                          ((λ h. ground arith), behind (ground arith))))))
        | inr f ↦
            let lv : List VmArea = in_order l ++ (v ∷ []) in
            rw (below_right start c l v r path e f) (
              in_order-erase_below start r (right c l v ∷ path) dr
              ∙ append_assoc (before path) lv (list_del start (in_order r) ++ after path)
              ∙ ap (λ xs. before path ++ xs)
                  (sym (append_assoc lv (list_del start (in_order r)) (after path))
                    ∙ ap (λ xs. xs ++ after path)
                        (sym (
                            list_del-append start lv (in_order r) (
                              All-append (Elsewhere start) (in_order l) (v ∷ [])
                                (in_front (ground arith)) ((λ h. ground arith), tt)))
                          ∙ ap (list_del start) (append_assoc (in_order l) (v ∷ []) (in_order r)))))
      ]
    ]

-- `vma_erase` needs no more of the areas than the order of their starts.
pub in_order-erase_sorted :
    (t : Tree) (start : ℕ)
    → Ascending (in_order t)
    → in_order (vma_erase t start) ≡ list_del start (in_order t)
unfolding vma_erase
in_order-erase_sorted t start d =
    in_order-erase_below start t [] d ∙ append_nil (list_del start (in_order t))

-- `vma_erase` takes the area out of the tree, and the rebalancing moves no other.
pub in_order-erase :
    (t : Tree) (start : ℕ)
    → Disjoint (in_order t)
    → in_order (vma_erase t start) ≡ list_del start (in_order t)
in_order-erase t start d = in_order-erase_sorted t start (Disjoint-Ascending (in_order t) d)
