-- ===== src/Vma/Range/Steps.antt =====
-- The rounds of `vma_remove_range`, by the place of the first area that is touched.
use mathlib.Core.Path.{subst}
use doppio.Prelude.{
  ℕ, suc, ◌<◌, ◌≤◌, ◌≡◌, refl, ap, ◌∙◌, sym, true, some, List, [], ◌∷◌, ◌++◌, All, append_assoc,
  replicate, arith,
}
use doppio.Vma.{VmArea}
use doppio.Vma.RbTree.{vma_find_first}
use doppio.Vma.RbTree.InOrder.{Disjoint}
use doppio.Vma.RbTree.Search.{ending_after-first}
use doppio.Vma.Range.{
  Areas, erase, tail_from, vma_split, stop, again, cut_left, cut_front, remove_round, remove_range,
}
use doppio.Vma.Range.Places.{Holds, removed_Disjoint, Holds-erase, halves-Disjoint, Holds-split}
use doppio.Vma.Range.Rounds.{
  find_at, round_behind, round_left, round_right, round_inside, cut_left_short, cut_left_long,
  cut_front-erase,
}

-- The list that the loop ends with, given `n` rounds
abbrev pub Ends : ℕ → ℕ → ℕ → Areas → List VmArea → Type 0
Ends n start end s zs =
    (s' : Areas) × (remove_range (replicate n (true, true)) start end s ≡ some s')
    × Holds s' zs
    × Disjoint zs

abbrev pub Passed : ℕ → List VmArea → Type 0
Passed start xs = All (λ (x : VmArea). x.end ≤ start) xs

module _ (start end : ℕ) (n : ℕ) (s : Areas) (zs : List VmArea) where
  pub step_stop :
      remove_round (true, true) start end s ≡ stop s
      → Holds s zs
      → Disjoint zs
      → Ends (suc n) start end s zs
  unfolding remove_range
  step_stop e h d = (s, rw (e, remove_range) refl, h, d)

  step_again :
      (s' : Areas)
      → remove_round (true, true) start end s ≡ again s'
      → Ends n start end s' zs
      → Ends (suc n) start end s zs
  unfolding remove_range
  step_again s' e (s'', f, h, d) = (s'', rw (e, remove_range) f, h, d)

-- An area moves over to those that the loop has passed.
pub shift :
    (xs : List VmArea) (x : VmArea) (ys : List VmArea) → xs ++ (x ∷ ys) ≡ (xs ++ (x ∷ [])) ++ ys
shift xs x ys = sym (append_assoc xs (x ∷ []) ys)

-- One round, by the place of the first area that ends behind the start
module _ (start end : ℕ) (some_range : start < end) (n : ℕ) (s : Areas) (xs ys zs : List VmArea)
    (v : VmArea) (d : Disjoint (xs ++ (v ∷ ys))) (h : Holds s (xs ++ (v ∷ ys)))
    (passed : Passed start xs) (reaches : start < v.end) where
  found_at : vma_find_first s.root start ≡ some v
  found_at = find_at s xs (v ∷ ys) start d h passed ∙ ending_after-first v ys start reaches

  pub behind_step : end ≤ v.start → Ends (suc n) start end s (xs ++ (v ∷ ys))
  behind_step le =
      step_stop start end n s (xs ++ (v ∷ ys)) (round_behind start end s v found_at le) h d

  pub inside_step :
      v.start < end
      → start ≤ v.start
      → v.end ≤ end
      → ((s' : Areas) → Holds s' (xs ++ ys) → Disjoint (xs ++ ys) → Ends n start end s' zs)
      → Ends (suc n) start end s zs
  inside_step lt ge le go =
      step_again start end n s zs (erase v.start s) (round_inside start end s v found_at lt ge le)
        (go (erase v.start s) (Holds-erase s xs ys v d h) (removed_Disjoint xs ys v d))

  pub right_step :
      v.start < end
      → start ≤ v.start
      → end < v.end
      → ((s' : Areas)
          → Holds s' (xs ++ (tail_from end v ∷ ys))
          → Disjoint (xs ++ (tail_from end v ∷ ys))
          → Ends n start end s' zs)
      → Ends (suc n) start end s zs
  right_step lt ge gt go =
      let (s1, split, h1) = Holds-split s xs ys v end lt gt d h in
      let front : VmArea = record v { end = end } in
      let tail : VmArea = tail_from end v in
      let d1 : Disjoint (xs ++ (front ∷ tail ∷ ys)) = halves-Disjoint xs ys v end lt gt d in
      step_again start end n s zs (erase v.start s1)
        (round_right start end s v found_at lt ge gt
          ∙ ap (cut_front v.start) split
          ∙ cut_front-erase v.start tail s1)
        (go (erase v.start s1) (Holds-erase s1 xs (tail ∷ ys) front d1 h1)
          (removed_Disjoint xs (tail ∷ ys) front d1))

  -- An area cut at the start of the range: its left part is passed.
  module _ (starts_left : v.start < start) where
    abbrev pub kept : List VmArea
    kept = xs ++ (record v { end = start } ∷ [])

    cut_at :
        (s1 : Areas) × (vma_split true v start s ≡ (some (tail_from start v), s1))
        × Holds s1 (kept ++ (tail_from start v ∷ ys))
    cut_at =
        let (s1, split, h1) = Holds-split s xs ys v start starts_left reaches d h in
        (
          s1,
          split,
          subst (Holds s1) (shift xs (record v { end = start }) (tail_from start v ∷ ys)) h1,
        )

    cut_Disjoint : Disjoint (kept ++ (tail_from start v ∷ ys))
    cut_Disjoint =
        subst Disjoint (shift xs (record v { end = start }) (tail_from start v ∷ ys))
          (halves-Disjoint xs ys v start starts_left reaches d)

    pub left_step :
        v.end ≤ end
        → ((s' : Areas) → Holds s' (kept ++ ys) → Disjoint (kept ++ ys) → Ends n start end s' zs)
        → Ends (suc n) start end s zs
    left_step le go =
        let (s1, split, h1) = cut_at in
        let right : VmArea = tail_from start v in
        step_again start end n s zs (erase start s1)
          (round_left start end s v found_at (omega arith) starts_left
            ∙ ap (cut_left true end) split
            ∙ cut_left_short end right s1 le)
          (go (erase start s1) (Holds-erase s1 kept ys right cut_Disjoint h1)
            (removed_Disjoint kept ys right cut_Disjoint))

    -- The range lies inside the area: the part behind it is taken out.
    pub hole_step :
        end < v.end
        → let middle : VmArea = record (tail_from start v) { end = end } in
          ((s' : Areas)
            → Holds s' (kept ++ (middle ∷ ys))
            → Disjoint (kept ++ (middle ∷ ys))
            → Ends n start end s' zs)
          → Ends (suc n) start end s zs
    hole_step gt go =
        let (s1, split, h1) = cut_at in
        let right : VmArea = tail_from start v in
        let middle : VmArea = record right { end = end } in
        let tail : VmArea = tail_from end right in
        let (s2, split2, h2) = Holds-split s1 kept ys right end some_range gt cut_Disjoint h1 in
        let e : kept ++ (middle ∷ tail ∷ ys) ≡ (kept ++ (middle ∷ [])) ++ (tail ∷ ys) =
          shift kept middle (tail ∷ ys) in
        let d2 : Disjoint ((kept ++ (middle ∷ [])) ++ (tail ∷ ys)) =
          subst Disjoint e (halves-Disjoint kept ys right end some_range gt cut_Disjoint) in
        let back : (kept ++ (middle ∷ [])) ++ ys ≡ kept ++ (middle ∷ ys) =
          sym (shift kept middle ys) in
        step_again start end n s zs (erase end s2)
          (round_left start end s v found_at (omega arith) starts_left
            ∙ ap (cut_left true end) split
            ∙ cut_left_long end right tail s1 s2 gt split2)
          (go (erase end s2)
            (subst (Holds (erase end s2)) back
              (Holds-erase s2 (kept ++ (middle ∷ [])) ys tail d2 (subst (Holds s2) e h2)))
            (subst Disjoint back (removed_Disjoint (kept ++ (middle ∷ [])) ys tail d2)))
