-- ===== src/Vma/Range/Merge.antt =====
-- Cutting an area in two and merging areas that go on: what an address is mapped to stays the same.
use mathlib.Core.Path.{subst}
use doppio.Prelude.{
  ℕ, ◌+◌, ◌-◌, ◌%◌, ◌^◌, ◌<◌, ◌≤◌, ◌≡◌, refl, ap, ◌∙◌, sym, inl, inr, Bool, true, false, ◌||◌,
  Option, none, some, List, [], ◌∷◌, ◌++◌, append_assoc, leb, All, All-map, Bool-cases, arith,
}
use doppio.Vma.{VmArea}
use doppio.Vma.RbTree.InOrder.{Disjoint, Ascending, Disjoint-Ascending}
use doppio.Vma.Range.{
  Areas, erase, set_end, vma_split, vma_next, vma_prev, same_vn, continues, merge_next, merge_prev,
  vma_merge_adjacent,
}
use doppio.Vma.Range.Places.{
  Holds, StartsAt, Disjoint-replace, size_of, high_Disjoint, Holds-set_end, Holds-erase_sorted,
  halves, halves-Disjoint, Holds-split,
}
use doppio.Vma.Range.Neighbours.{next_last, next-at, prev_none, prev-at, last-cases}
use doppio.Vma.Range.View.{mapping, view, view-cons, view-append, view-halves}

-- Tree and list agree on areas that do not overlap and map every address as `xs` do.
abbrev pub SameView : Areas → List VmArea → Type 0
SameView s xs = (zs : List VmArea) × Holds s zs × Disjoint zs × ((a : ℕ) → view zs a ≡ view xs a)

-- `vma_split` with or without memory, at any address
split-SameView :
    (granted : Bool) (s : Areas) (xs ys : List VmArea) (v : VmArea) (addr : ℕ)
    → Disjoint (xs ++ (v ∷ ys))
    → Holds s (xs ++ (v ∷ ys))
    → SameView (vma_split granted v addr s).1 (xs ++ (v ∷ ys))
unfolding vma_split
split-SameView granted s xs ys v addr d h = elim (Bool-cases (leb addr v.start || leb v.end addr)) [
  | inl e ↦ rw e (xs ++ (v ∷ ys), h, d, λ a. refl)
  | inr e ↦ elim granted as (λ (g : Bool). SameView (vma_split g v addr s).1 (xs ++ (v ∷ ys))) [
    | false ↦ rw e (xs ++ (v ∷ ys), h, d, λ a. refl)
    | true ↦
        let lt : v.start < addr = ground arith in
        let gt : addr < v.end = ground arith in
        let (s', f, h') = Holds-split s xs ys v addr lt gt d h in
        subst (λ out. SameView out.1 (xs ++ (v ∷ ys))) (sym f)
          (
            xs ++ halves v addr ys,
            h',
            halves-Disjoint xs ys v addr lt gt d,
            λ a. view-append xs (halves v addr ys) (v ∷ ys) a (view-halves v addr ys a lt gt),
          )
  ]
]

same_vn→≡ : (m n : Option ℕ) → same_vn m n ≡ true → m ≡ n
same_vn→≡ none none e = refl
same_vn→≡ none (some b) e = absurd (ground arith)
same_vn→≡ (some a) none e = absurd (ground arith)
same_vn→≡ (some a) (some b) e = ground arith

abbrev Continues : VmArea → VmArea → Type 0
Continues v w =
    (v.end ≡ w.start)
    × (v.flags ≡ w.flags)
    × (v.vn ≡ w.vn)
    × ((v.file_offset + (v.end - v.start)) % 2 ^ 64 ≡ w.file_offset)

continues→Continues : (v w : VmArea) → continues v w ≡ true → Continues v w
continues→Continues v w e =
    let vn : same_vn v.vn w.vn ≡ true = ground arith in
    (ground arith, ground arith, same_vn→≡ v.vn w.vn vn, ground arith)

mapping-goes_on :
    (v w : VmArea) (a : ℕ)
    → Continues v w
    → v.start < v.end
    → w.start ≤ a
    → mapping w a ≡ mapping v a
mapping-goes_on v w a (e, f, g, h) size le =
    let off : (w.file_offset + (a - w.start)) % 2 ^ 64 ≡ (v.file_offset + (a - v.start)) % 2 ^ 64 =
      omega (arith, e, h) in
    rw (off, sym f, sym g) refl

-- Two areas made one
view-joined :
    (v w : VmArea) (ys : List VmArea) (a : ℕ)
    → Continues v w
    → v.start < v.end
    → w.start < w.end
    → view (record v { end = w.end } ∷ ys) a ≡ view (v ∷ w ∷ ys) a
view-joined v w ys a c size size' = ground (
  arith,
  c.0,
  view-cons (record v { end = w.end }) ys a,
  view-cons v (w ∷ ys) a,
  view-cons w ys a,
  mapping-goes_on v w a c size,
)

-- The end of an area has no part in the order of the starts.
Ascending-end :
    (e : ℕ) (xs : List VmArea) (v : VmArea) (ys : List VmArea)
    → Ascending (xs ++ (v ∷ ys))
    → Ascending (xs ++ (record v { end = e } ∷ ys))
Ascending-end e [] v ys a = a
Ascending-end e (x ∷ xs) v ys (apart, a) = (behind xs apart, Ascending-end e xs v ys a)
  where
    behind :
        (xs : List VmArea)
        → All (λ (y : VmArea). x.start < y.start) (xs ++ (v ∷ ys))
        → All (λ (y : VmArea). x.start < y.start) (xs ++ (record v { end = e } ∷ ys))
    behind [] a = a
    behind (y ∷ xs) (lt, a) = (lt, behind xs a)

-- The first of two areas takes the end of the second, which is erased.
joined :
    (s : Areas) (xs ys : List VmArea) (v w : VmArea)
    → Disjoint (xs ++ (v ∷ w ∷ ys))
    → Holds s (xs ++ (v ∷ w ∷ ys))
    → Continues v w
    → let v' : VmArea = record v { end = w.end } in
      Holds (erase w.start (set_end v.start w.end s)) (xs ++ (v' ∷ ys))
      × Disjoint (xs ++ (v' ∷ ys))
      × ((a : ℕ) → view (xs ++ (v' ∷ ys)) a ≡ view (xs ++ (v ∷ w ∷ ys)) a)
joined s xs ys v w d h c =
    let v' : VmArea = record v { end = w.end } in
    let size : v.start < v.end = size_of xs (w ∷ ys) v d in
    let (size', later, dys) = high_Disjoint xs (w ∷ ys) v d in
    let shift : (zs : List VmArea) → xs ++ (v' ∷ zs) ≡ (xs ++ (v' ∷ [])) ++ zs =
      λ zs. sym (append_assoc xs (v' ∷ []) zs) in
    let ordered : Ascending (xs ++ (v' ∷ w ∷ ys)) =
      Ascending-end w.end xs v (w ∷ ys) (Disjoint-Ascending (xs ++ (v ∷ w ∷ ys)) d) in
    let wide : Holds (set_end v.start w.end s) (xs ++ (v' ∷ w ∷ ys)) =
      Holds-set_end s xs (w ∷ ys) v w.end d h in
    (
      subst (Holds (erase w.start (set_end v.start w.end s))) (sym (shift ys)) (
          Holds-erase_sorted (set_end v.start w.end s) (xs ++ (v' ∷ [])) ys w
            (subst Ascending (shift (w ∷ ys)) ordered)
            (subst (Holds (set_end v.start w.end s)) (shift (w ∷ ys)) wide)),
      Disjoint-replace xs (w ∷ ys) v (v' ∷ ys) d (omega (arith, size, size', c.0), later, dys)
          (
            omega arith,
            All-map (StartsAt w.end) (StartsAt v.start) (λ y p. omega (arith, size, size', c.0)) ys
                later,
          ),
      λ a. view-append xs (v' ∷ ys) (v ∷ w ∷ ys) a (view-joined v w ys a c size size'),
    )

abbrev SameAt : List VmArea → List VmArea → VmArea × Areas → Type 0
SameAt xs whole out =
    (ys : List VmArea) × Holds out.1 (xs ++ (out.0 ∷ ys))
    × Disjoint (xs ++ (out.0 ∷ ys))
    × ((a : ℕ) → view (xs ++ (out.0 ∷ ys)) a ≡ view whole a)

merge_next-SameAt :
    (s : Areas) (xs ys : List VmArea) (v : VmArea)
    → Disjoint (xs ++ (v ∷ ys))
    → Holds s (xs ++ (v ∷ ys))
    → SameAt xs (xs ++ (v ∷ ys)) (merge_next v s)
unfolding merge_next
merge_next-SameAt s xs [] v d h =
    let e : vma_next v.start s.areas ≡ none =
      ap (vma_next v.start) h.1 ∙ next_last v xs (Disjoint-Ascending (xs ++ (v ∷ [])) d) in
    rw (e, merge_next) ([], h, d, λ a. refl)
merge_next-SameAt s xs (w ∷ ys) v d h =
    let e : vma_next v.start s.areas ≡ some w =
      ap (vma_next v.start) h.1 ∙ next-at v w xs ys (Disjoint-Ascending (xs ++ (v ∷ w ∷ ys)) d) in
    elim (Bool-cases (continues v w)) [
      | inl c ↦
          let (h', d', same) = joined s xs ys v w d h (continues→Continues v w c) in
          rw (e, c, merge_next) (ys, h', d', same)
      | inr c ↦ rw (e, c, merge_next) (w ∷ ys, h, d, λ a. refl)
    ]

merge_prev-SameView :
    (s : Areas) (xs ys : List VmArea) (v : VmArea)
    → Disjoint (xs ++ (v ∷ ys))
    → Holds s (xs ++ (v ∷ ys))
    → SameView (merge_prev v s) (xs ++ (v ∷ ys))
unfolding merge_prev
merge_prev-SameView s xs ys v d h = elim (last-cases xs) [
  | inl empty ↦
      let front : Holds s (v ∷ ys) = subst (λ zs. Holds s (zs ++ (v ∷ ys))) empty h in
      let ordered : Ascending (v ∷ ys) =
        Disjoint-Ascending (v ∷ ys) (subst (λ zs. Disjoint (zs ++ (v ∷ ys))) empty d) in
      let e : vma_prev v.start s.areas ≡ none =
        ap (vma_prev v.start) front.1 ∙ prev_none v.start v ys ordered.0 in
      rw (e, merge_prev) (xs ++ (v ∷ ys), h, d, λ a. refl)
  | inr (ps, p, at) ↦
      let split : xs ++ (v ∷ ys) ≡ ps ++ (p ∷ v ∷ ys) =
        ap (λ zs. zs ++ (v ∷ ys)) at ∙ append_assoc ps (p ∷ []) (v ∷ ys) in
      let d' : Disjoint (ps ++ (p ∷ v ∷ ys)) = subst Disjoint split d in
      let h' : Holds s (ps ++ (p ∷ v ∷ ys)) = subst (Holds s) split h in
      let e : vma_prev v.start s.areas ≡ some p =
        ap (vma_prev v.start) h'.1
        ∙ prev-at p v ps ys (Disjoint-Ascending (ps ++ (p ∷ v ∷ ys)) d') in
      elim (Bool-cases (continues p v)) [
        | inl c ↦
            let (h'', d'', same) = joined s ps ys p v d' h' (continues→Continues p v c) in
            rw (e, c, merge_prev)
              (
                ps ++ (record p { end = v.end } ∷ ys),
                h'',
                d'',
                λ a. same a ∙ ap (λ zs. view zs a) (sym split),
              )
        | inr c ↦ rw (e, c, merge_prev) (xs ++ (v ∷ ys), h, d, λ a. refl)
      ]
]

-- On a tree and a list that hold the same areas, which do not overlap, `vma_split` of one of them
-- at any address, with or without memory, and `vma_merge_adjacent` of one of them, leave every
-- address mapped to what it was (its flags, its file and the offset in it), and tree and list hold
-- the same areas again, which do not overlap.
pub split_merge-SameView :
    (granted : Bool) (s : Areas) (xs ys : List VmArea) (v : VmArea) (addr : ℕ)
    → Disjoint (xs ++ (v ∷ ys))
    → Holds s (xs ++ (v ∷ ys))
    → SameView (vma_split granted v addr s).1 (xs ++ (v ∷ ys))
      × SameView (vma_merge_adjacent v s) (xs ++ (v ∷ ys))
unfolding vma_merge_adjacent
split_merge-SameView granted s xs ys v addr d h =
    let (v', s') = merge_next v s in
    let (ys', h', d', same) = merge_next-SameAt s xs ys v d h in
    let (zs, h'', d'', same') = merge_prev-SameView s' xs ys' v' d' h' in
    (split-SameView granted s xs ys v addr d h, (zs, h'', d'', λ a. same' a ∙ same a))
