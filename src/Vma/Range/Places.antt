-- ===== src/Vma/Range/Places.antt =====
-- What the operations do to the list of areas at a known place, and that tree and list keep
-- holding the same areas.
use mathlib.Core.Path.{subst}
use doppio.Prelude.{
  ℕ, ◌<◌, ◌≤◌, ◌≡◌, refl, ap, ◌∙◌, sym, ◌≢◌, true, false, some, List, [], ◌∷◌, ◌++◌, leb, ◌==◌, All,
  All-map, All-append, arith,
}
use doppio.Vma.{VmArea, Tree, leaf, node}
use doppio.Vma.RbTree.{vma_insert, list_insert}
use doppio.Vma.RbTree.InOrder.{
  Ascending, Ascending-of-append, Disjoint-Ascending, in_order, Disjoint, Disjoint-of-append,
}
use doppio.Vma.RbTree.Insert.{
  insert_sorted, insert_sorted-append, insert_sorted_next, in_order-insert,
}
use doppio.Vma.RbTree.Erase.Delete.{list_del, list_del-append, list_del-here, in_order-erase_sorted}
use doppio.Vma.Range.{
  Areas, insert, erase, with_end, tree_set_end, list_set_end, set_end, tail_from, vma_split,
}

-- The tree and the list hold these areas in this order.
abbrev pub Holds : Areas → List VmArea → Type 0
Holds s xs = (in_order s.root ≡ xs) × (s.areas ≡ xs)

abbrev pub EndsBefore : ℕ → VmArea → Type 0
EndsBefore a x = (x.start < x.end) × (x.end ≤ a)

abbrev pub StartsAt : ℕ → VmArea → Type 0
StartsAt a x = a ≤ x.start

Disjoint-append :
    (b : ℕ) (xs ys : List VmArea)
    → Disjoint xs
    → All (EndsBefore b) xs
    → Disjoint ys
    → All (StartsAt b) ys
    → Disjoint (xs ++ ys)
Disjoint-append b [] ys dx ax dy ay = dy
Disjoint-append b (x ∷ xs) ys (size, apart, dx) ((_, le), ax) dy ay = (
  size,
  All-append (StartsAt x.end) xs ys apart
      (All-map (StartsAt b) (StartsAt x.end) (λ y p. omega arith) ys ay),
  Disjoint-append b xs ys dx ax dy ay,
)

-- Other areas in the place of one
pub Disjoint-replace :
    (xs ys : List VmArea) (v : VmArea) (zs : List VmArea)
    → Disjoint (xs ++ (v ∷ ys))
    → Disjoint zs
    → All (StartsAt v.start) zs
    → Disjoint (xs ++ zs)
Disjoint-replace xs ys v zs d dz az =
    let (low, dx, _) = Disjoint-of-append xs v ys d in Disjoint-append v.start xs zs dx low dz az

-- An area at a known place
module _ (xs ys : List VmArea) (v : VmArea) (d : Disjoint (xs ++ (v ∷ ys))) where
  pub size_of : v.start < v.end
  size_of = (Disjoint-of-append xs v ys d).2.0

  pub low_of : All (EndsBefore v.start) xs
  low_of = (Disjoint-of-append xs v ys d).0

  pub high_of : All (StartsAt v.end) ys
  high_of = (Disjoint-of-append xs v ys d).2.1

  pub high_Disjoint : Disjoint ys
  high_Disjoint = (Disjoint-of-append xs v ys d).2.2

  pub removed_Disjoint : Disjoint (xs ++ ys)
  removed_Disjoint =
      Disjoint-replace xs ys v ys d high_Disjoint
        (All-map (StartsAt v.end) (StartsAt v.start) (λ y p. omega (arith, size_of)) ys high_of)

list_set_end-append :
    (start end : ℕ) (xs ys : List VmArea)
    → list_set_end start end (xs ++ ys) ≡ list_set_end start end xs ++ list_set_end start end ys
list_set_end-append start end [] ys = refl
list_set_end-append start end (x ∷ xs) ys =
    ap (λ zs. with_end start end x ∷ zs) (list_set_end-append start end xs ys)

list_set_end-none :
    (start end : ℕ) (xs : List VmArea)
    → All (λ (x : VmArea). x.start ≢ start) xs
    → list_set_end start end xs ≡ xs
list_set_end-none start end [] a = refl
list_set_end-none start end (x ∷ xs) (ne, a) =
    let e : (x.start == start) ≡ false = ground arith in
    rw e (ap (λ zs. x ∷ zs) (list_set_end-none start end xs a))

in_order-set_end :
    (start end : ℕ) (t : Tree)
    → in_order (tree_set_end start end t) ≡ list_set_end start end (in_order t)
in_order-set_end start end leaf = refl
in_order-set_end start end (node c l v r) =
    rw (in_order-set_end start end l, in_order-set_end start end r)
      (sym (list_set_end-append start end (in_order l) (v ∷ in_order r)))

with_end_self : (v : VmArea) (end : ℕ) → with_end v.start end v ≡ record v { end = end }
with_end_self v end = let e : (v.start == v.start) ≡ true = ground arith in rw e refl

list_set_end-at :
    (xs ys : List VmArea) (v : VmArea) (end : ℕ)
    → Disjoint (xs ++ (v ∷ ys))
    → list_set_end v.start end (xs ++ (v ∷ ys)) ≡ xs ++ (record v { end = end } ∷ ys)
list_set_end-at xs ys v end d =
    let size : v.start < v.end = size_of xs ys v d in
    list_set_end-append v.start end xs (v ∷ ys)
    ∙ rw
        (
          list_set_end-none v.start end xs (
              All-map (EndsBefore v.start) (λ (x : VmArea). x.start ≢ v.start)
                (λ x p e. omega arith) xs (low_of xs ys v d)),
          list_set_end-none v.start end ys (
              All-map (StartsAt v.end) (λ (x : VmArea). x.start ≢ v.start) (λ x p e. omega arith) ys
                (high_of xs ys v d)),
          with_end_self v end,
        )
        refl

-- The operations on the tree and the list together
pub Holds-set_end :
    (s : Areas) (xs ys : List VmArea) (v : VmArea) (end : ℕ)
    → Disjoint (xs ++ (v ∷ ys))
    → Holds s (xs ++ (v ∷ ys))
    → Holds (set_end v.start end s) (xs ++ (record v { end = end } ∷ ys))
Holds-set_end s xs ys v end d (e, f) =
    let at = list_set_end-at xs ys v end d in
    (
      in_order-set_end v.start end s.root ∙ ap (list_set_end v.start end) e ∙ at,
      ap (list_set_end v.start end) f ∙ at,
    )

pub Holds-erase_sorted :
    (s : Areas) (xs ys : List VmArea) (v : VmArea)
    → Ascending (xs ++ (v ∷ ys))
    → Holds s (xs ++ (v ∷ ys))
    → Holds (erase v.start s) (xs ++ ys)
Holds-erase_sorted s xs ys v d (e, f) =
    let at : list_del v.start (xs ++ (v ∷ ys)) ≡ xs ++ ys =
      list_del-append v.start xs (v ∷ ys) (
        All-map (λ (x : VmArea). x.start < v.start) (λ (x : VmArea). x.start ≢ v.start)
          (λ x p e. omega arith) xs (Ascending-of-append xs v ys d).0)
      ∙ ap (λ zs. xs ++ zs) (list_del-here v.start v ys refl) in
    (
      in_order-erase_sorted s.root v.start (subst Ascending (sym e) d)
          ∙ ap (list_del v.start) e
          ∙ at,
      ap (list_del v.start) f ∙ at,
    )

pub Holds-erase :
    (s : Areas) (xs ys : List VmArea) (v : VmArea)
    → Disjoint (xs ++ (v ∷ ys))
    → Holds s (xs ++ (v ∷ ys))
    → Holds (erase v.start s) (xs ++ ys)
Holds-erase s xs ys v d h = Holds-erase_sorted s xs ys v (Disjoint-Ascending (xs ++ (v ∷ ys)) d) h

pub Holds-insert :
    (s : Areas) (xs : List VmArea) (v : VmArea)
    → Disjoint xs
    → Holds s xs
    → Holds (insert v s) (insert_sorted v xs)
Holds-insert s xs v d (e, f) =
    let (tree, list) = in_order-insert s.root v (subst Disjoint (sym e) d) in
    let placed : in_order (vma_insert s.root v) ≡ insert_sorted v xs =
      tree ∙ ap (insert_sorted v) e in
    (placed, ap (list_insert s.root v) (f ∙ sym e) ∙ list ∙ placed)

split_granted :
    (v : VmArea) (addr : ℕ) (s : Areas)
    → v.start < addr
    → addr < v.end
    → vma_split true v addr s
      ≡ (some (tail_from addr v), insert (tail_from addr v) (set_end v.start addr s))
unfolding vma_split
split_granted v addr s lt gt =
    let e : leb addr v.start ≡ false = ground arith in
    let f : leb v.end addr ≡ false = ground arith in rw (e, f) refl

-- An area cut in two at an address inside of it
abbrev pub halves : VmArea → ℕ → List VmArea → List VmArea
halves v addr ys = record v { end = addr } ∷ tail_from addr v ∷ ys

pub halves-Disjoint :
    (xs ys : List VmArea) (v : VmArea) (addr : ℕ)
    → v.start < addr
    → addr < v.end
    → Disjoint (xs ++ (v ∷ ys))
    → Disjoint (xs ++ halves v addr ys)
halves-Disjoint xs ys v addr lt gt d =
    let high : All (StartsAt v.end) ys = high_of xs ys v d in
    let later : (a : ℕ) → a ≤ v.end → All (StartsAt a) ys =
      λ a h. All-map (StartsAt v.end) (StartsAt a) (λ y p. omega arith) ys high in
    Disjoint-replace xs ys v (halves v addr ys) d
      (lt, (omega arith, later addr (omega arith)), (gt, high, high_Disjoint xs ys v d))
      (omega arith, (omega arith, later v.start (omega arith)))

-- `vma_split` with memory at hand
pub Holds-split :
    (s : Areas) (xs ys : List VmArea) (v : VmArea) (addr : ℕ)
    → v.start < addr
    → addr < v.end
    → Disjoint (xs ++ (v ∷ ys))
    → Holds s (xs ++ (v ∷ ys))
    → (s' : Areas) × (vma_split true v addr s ≡ (some (tail_from addr v), s'))
      × Holds s' (xs ++ halves v addr ys)
Holds-split s xs ys v addr lt gt d h =
    let head : VmArea = record v { end = addr } in
    let tail : VmArea = tail_from addr v in
    let size : v.start < v.end = omega arith in
    let cut : Holds (set_end v.start addr s) (xs ++ (head ∷ ys)) =
      Holds-set_end s xs ys v addr d h in
    let cut_Disjoint : Disjoint (xs ++ (head ∷ ys)) =
      Disjoint-replace xs ys v (head ∷ ys) d
        (
          lt,
          All-map (StartsAt v.end) (StartsAt addr) (λ y p. omega arith) ys (high_of xs ys v d),
          high_Disjoint xs ys v d,
        )
        (
          omega arith,
          All-map (StartsAt v.end) (StartsAt v.start) (λ y p. omega arith) ys (high_of xs ys v d),
        ) in
    let place : insert_sorted tail (xs ++ (head ∷ ys)) ≡ xs ++ halves v addr ys =
      insert_sorted-append tail xs (head ∷ ys) (
        All-map (EndsBefore v.start) (λ (x : VmArea). x.start ≤ addr) (λ x p. omega arith) xs
          (low_of xs ys v d))
      ∙ ap (λ zs. xs ++ zs)
          (insert_sorted_next tail head ys (omega arith) (
            All-map (StartsAt v.end) (λ (y : VmArea). addr < y.start) (λ y p. omega arith) ys
              (high_of xs ys v d))) in
    let (tree, list) =
      Holds-insert (set_end v.start addr s) (xs ++ (head ∷ ys)) tail cut_Disjoint cut in
    (
      insert tail (set_end v.start addr s),
      split_granted v addr s lt gt,
      (tree ∙ place, list ∙ place),
    )
