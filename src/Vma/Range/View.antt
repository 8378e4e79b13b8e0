-- ===== src/Vma/Range/View.antt =====
-- The areas as a map from addresses to what is mapped there, and what the operations do to it.
use doppio.Prelude.{
  ℕ, ◌+◌, ◌-◌, ◌*◌, ◌%◌, ◌^◌, ◌<◌, ◌≤◌, ◌≡◌, refl, ap, inl, inr, Bool, true, false, ◌&&◌, ◌||◌,
  Option, none, some, List, [], ◌∷◌, ◌++◌, ltb, leb, if◌then◌else◌, All, length, replicate,
  Bool-cases, arith,
}
use doppio.Vma.{VmArea}
use doppio.Vma.RbTree.InOrder.{Disjoint}
use doppio.Vma.Range.{Areas, tail_from, remove_range}
use doppio.Vma.Range.Places.{Holds, StartsAt, halves}
use doppio.Vma.Range.Remove.{
  removed, removed-nil, removed_in_front, removed_past, removed_cut, removed_tail, removed_inside,
  remove_range-Holds,
}

-- What an address is mapped to: the flags, the file, and the 64 bits of the offset in it
pub record Mapping : Type 0 where
  pub flags : ℕ
  pub vn : Option ℕ
  pub offset : ℕ

abbrev pub mapping : VmArea → ℕ → Mapping
mapping v a = record {
  flags = v.flags;
  vn = v.vn;
  offset = (v.file_offset + (a - v.start)) % 2 ^ 64;
}

pub view : List VmArea → ℕ → Option Mapping
view [] a = none
view (v ∷ vs) a =
    let rest = view vs a in if leb v.start a && ltb a v.end then some (mapping v a) else rest

-- The address lies behind the range in an area that reaches over both ends of it.
pub cut_off : ℕ → ℕ → List VmArea → ℕ → Bool
cut_off start end [] a = false
cut_off start end (v ∷ vs) a =
    (ltb v.start start && ltb end v.end && leb end a && ltb a v.end) || cut_off start end vs a

view_later : (b a : ℕ) (xs : List VmArea) → All (StartsAt b) xs → a < b → view xs a ≡ none
unfolding view
view_later b a [] h lt = refl
view_later b a (x ∷ xs) (le, h) lt =
    let e : leb x.start a ≡ false = ground arith in rw e (view_later b a xs h lt)

cut_off_later :
    (start end b a : ℕ) (xs : List VmArea)
    → start < end
    → All (StartsAt b) xs
    → a < b
    → cut_off start end xs a ≡ false
unfolding cut_off
cut_off_later start end b a [] r h lt = refl
cut_off_later start end b a (x ∷ xs) r (le, h) lt =
    ground (arith, cut_off_later start end b a xs r h lt)

mapping-tail :
    (v : VmArea) (addr a : ℕ)
    → v.start ≤ addr
    → addr ≤ a
    → mapping (tail_from addr v) a ≡ mapping v a
mapping-tail v addr a le ge =
    let e : ((v.file_offset + (addr - v.start)) % 2 ^ 64 + (a - addr)) % 2 ^ 64
        ≡ (v.file_offset + (a - v.start)) % 2 ^ 64 =
      omega arith in
    ap (λ o. record { flags = v.flags; vn = v.vn; offset = o }) e

abbrev pub left_of : ℕ → ℕ → List VmArea → ℕ → Option Mapping
left_of start end xs a =
    if (leb start a && ltb a end) || cut_off start end xs a then none else view xs a

left_of-nil : (start end a : ℕ) → view [] a ≡ left_of start end [] a
unfolding view cut_off
left_of-nil start end a = ground arith

-- What is left of an area and what follows it, by the place of the area
module _ (start end : ℕ) (v : VmArea) (vs rest : List VmArea) (a : ℕ) (r : start < end)
    (size : v.start < v.end) (later : All (StartsAt v.end) vs)
    (ih : view rest a ≡ left_of start end vs a) where
  left_in_front : v.end ≤ start → view (v ∷ rest) a ≡ left_of start end (v ∷ vs) a
  unfolding view cut_off
  left_in_front h = ground (arith, cut_off_later start end v.end a vs r later)

  left_past : end ≤ v.start → view (v ∷ rest) a ≡ left_of start end (v ∷ vs) a
  unfolding view cut_off
  left_past h = ground (arith, cut_off_later start end v.end a vs r later)

  left_inside : start ≤ v.start → v.end ≤ end → view rest a ≡ left_of start end (v ∷ vs) a
  unfolding view cut_off
  left_inside h k = ground arith

  left_cut :
      v.start < start
      → start < v.end
      → view (record v { end = start } ∷ rest) a ≡ left_of start end (v ∷ vs) a
  unfolding view cut_off
  left_cut h k =
      ground (arith, view_later v.end a vs later, cut_off_later start end v.end a vs r later)

  left_tail :
      start ≤ v.start
      → v.start < end
      → end < v.end
      → view (tail_from end v ∷ rest) a ≡ left_of start end (v ∷ vs) a
  unfolding view cut_off
  left_tail h k l = ground (arith, mapping-tail v end a, cut_off_later start end v.end a vs r later)

left_of-removed :
    (start end : ℕ) (xs : List VmArea) (a : ℕ)
    → start < end
    → Disjoint xs
    → view (removed start end xs) a ≡ left_of start end xs a
left_of-removed start end [] a r d = rw (removed-nil start end) (left_of-nil start end a)
left_of-removed start end (v ∷ vs) a r (size, later, d) =
    let ih : view (removed start end vs) a ≡ left_of start end vs a =
      left_of-removed start end vs a r d in
    let rest : List VmArea = removed start end vs in
    elim (Bool-cases (leb v.end start)) [
      | inl e ↦
          rw (removed_in_front start end v vs (ground arith))
            (left_in_front start end v vs rest a r size later ih (ground arith))
      | inr e ↦ elim (Bool-cases (leb end v.start)) [
        | inl f ↦
            rw (removed_past start end v vs (ground arith))
              (left_past start end v vs rest a r size later ih (ground arith))
        | inr f ↦ elim (Bool-cases (ltb v.start start)) [
          | inl g ↦
              rw (removed_cut start end v vs (ground arith) (ground arith) (ground arith))
                (left_cut start end v vs rest a r size later ih (ground arith) (ground arith))
          | inr g ↦ elim (Bool-cases (ltb end v.end)) [
            | inl h ↦
                rw
                  (removed_tail start end v vs (ground arith) (ground arith) (ground arith)
                    (ground arith))
                  (left_tail start end v vs rest a r size later ih (ground arith) (ground arith)
                    (ground arith))
            | inr h ↦
                rw
                  (removed_inside start end v vs (ground arith) (ground arith) (ground arith)
                    (ground arith))
                  (left_inside start end v vs rest a r size later ih (ground arith) (ground arith))
          ]
        ]
      ]
    ]

-- `vma_remove_range` of a range that is not empty, on a tree and a list that hold the same areas,
-- which do not overlap, with memory for every call of `kmalloc`: the loop ends within two rounds
-- for each area and one more; then tree and list hold the same areas again, which do not overlap;
-- no address of the range is mapped; an address outside of it is mapped to what it was, unless
-- it lies behind the range in an area that reaches over both ends of it: that one is not mapped.
pub remove_range-view :
    (start end n : ℕ) (s : Areas) (xs : List VmArea)
    → start < end
    → 2 * length xs + 1 ≤ n
    → Disjoint xs
    → Holds s xs
    → (s' : Areas) × (ys : List VmArea) × (remove_range (replicate n (true, true)) start end s
        ≡ some s')
      × Holds s' ys
      × Disjoint ys
      × ((a : ℕ) → view ys a ≡ left_of start end xs a)
remove_range-view start end n s xs r enough d h =
    let (s', e, h', d') = remove_range-Holds start end n s xs r enough d h in
    (s', removed start end xs, e, h', d', λ a. left_of-removed start end xs a r d)

pub view-cons :
    (v : VmArea) (vs : List VmArea) (a : ℕ)
    → view (v ∷ vs) a ≡ (if leb v.start a && ltb a v.end then some (mapping v a) else view vs a)
unfolding view
view-cons v vs a = refl

pub view-append :
    (xs ys zs : List VmArea) (a : ℕ) → view ys a ≡ view zs a → view (xs ++ ys) a ≡ view (xs ++ zs) a
unfolding view
view-append [] ys zs a e = e
view-append (x ∷ xs) ys zs a e =
    ap (λ o. if leb x.start a && ltb a x.end then some (mapping x a) else o)
      (view-append xs ys zs a e)

pub view-halves :
    (v : VmArea) (addr : ℕ) (ys : List VmArea) (a : ℕ)
    → v.start < addr
    → addr < v.end
    → view (halves v addr ys) a ≡ view (v ∷ ys) a
unfolding view
view-halves v addr ys a lt gt = ground (arith, mapping-tail v addr a)
