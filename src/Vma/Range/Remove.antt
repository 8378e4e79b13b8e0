-- ===== src/Vma/Range/Remove.antt =====
-- What `vma_remove_range` leaves of the areas.
use mathlib.Core.Path.{subst}
use doppio.Prelude.{
  zero, ℕ, suc, ◌+◌, ◌*◌, ◌<◌, ◌≤◌, ◌≡◌, refl, ◌∙◌, sym, inl, inr, true, ◌||◌, List, [], ◌∷◌, ◌++◌,
  ltb, leb, if◌then◌else◌, All, All-map, All-append, length, Bool-cases, arith,
}
use doppio.Vma.{VmArea}
use doppio.Vma.RbTree.InOrder.{Disjoint}
use doppio.Vma.RbTree.Search.{ending_after-nil}
use doppio.Vma.Range.{Areas, tail_from}
use doppio.Vma.Range.Places.{Holds, StartsAt, size_of, high_of}
use doppio.Vma.Range.Rounds.{find_at, round_none}
use doppio.Vma.Range.Steps.{
  Ends, Passed, step_stop, shift, behind_step, inside_step, right_step, left_step, hole_step,
}

-- What the range leaves of the areas, one by one: an area that starts in front of it loses all
-- from the start of the range on, one that starts in it all up to its end.
pub removed : ℕ → ℕ → List VmArea → List VmArea
removed start end [] = []
removed start end (v ∷ vs) =
    let rest = removed start end vs in
    if leb v.end start || leb end v.start
    then v ∷ rest
    else if ltb v.start start
    then record v { end = start } ∷ rest
    else if ltb end v.end
    then tail_from end v ∷ rest
    else rest

removed_behind :
    (start end : ℕ) (xs : List VmArea) → All (StartsAt end) xs → removed start end xs ≡ xs
unfolding removed
removed_behind start end [] a = refl
removed_behind start end (x ∷ xs) (le, a) =
    let e : leb end x.start ≡ true = ground arith in
    rw (removed_behind start end xs a) (ground arith)

-- An area by its place
module _ (start end : ℕ) (v : VmArea) (vs : List VmArea) where
  pub removed_in_front : v.end ≤ start → removed start end (v ∷ vs) ≡ v ∷ removed start end vs
  unfolding removed
  removed_in_front h = ground arith

  pub removed_past : end ≤ v.start → removed start end (v ∷ vs) ≡ v ∷ removed start end vs
  unfolding removed
  removed_past h = ground arith

  pub removed_cut :
      start < v.end
      → v.start < end
      → v.start < start
      → removed start end (v ∷ vs) ≡ record v { end = start } ∷ removed start end vs
  unfolding removed
  removed_cut f g h = ground arith

  pub removed_tail :
      start < v.end
      → v.start < end
      → start ≤ v.start
      → end < v.end
      → removed start end (v ∷ vs) ≡ tail_from end v ∷ removed start end vs
  unfolding removed
  removed_tail f g h k = ground arith

  pub removed_inside :
      start < v.end
      → v.start < end
      → start ≤ v.start
      → v.end ≤ end
      → removed start end (v ∷ vs) ≡ removed start end vs
  unfolding removed
  removed_inside f g h k = ground arith

pub removed-nil : (start end : ℕ) → removed start end [] ≡ []
unfolding removed
removed-nil start end = refl

module _ (start end : ℕ) (some_range : start < end) where
  -- The middle of an area around the range goes in the next round.
  middle_step :
      (n : ℕ) (s : Areas) (xs ys zs : List VmArea) (m : VmArea)
      → 1 ≤ n
      → m.start ≡ start
      → m.end ≡ end
      → Disjoint (xs ++ (m ∷ ys))
      → Holds s (xs ++ (m ∷ ys))
      → Passed start xs
      → ((m : ℕ)
          → n ≡ suc m
          → (s' : Areas) → Holds s' (xs ++ ys)
          → Disjoint (xs ++ ys)
          → Ends m start end s' zs)
      → Ends n start end s zs
  middle_step zero s xs ys zs m le es ee d h p go = absurd (omega arith)
  middle_step (suc n) s xs ys zs m le es ee d h p go =
      inside_step start end some_range n s xs ys zs m d h p (omega arith) (omega arith)
        (omega arith) (omega arith) (go n refl)

  behind_end :
      (n : ℕ) (s : Areas) (xs ys : List VmArea) (v : VmArea)
      → 1 ≤ n
      → end < v.end
      → end ≤ v.start
      → Disjoint (xs ++ (v ∷ ys))
      → Holds s (xs ++ (v ∷ ys))
      → Passed start xs
      → Ends n start end s (xs ++ (v ∷ ys))
  behind_end zero s xs ys v le lt ge d h p = absurd (omega arith)
  behind_end (suc n) s xs ys v le lt ge d h p =
      behind_step start end some_range n s xs ys [] v d h p (omega arith) ge

  remove_loop :
      (n : ℕ) (s : Areas) (xs ys : List VmArea)
      → 2 * length ys + 1 ≤ n
      → Disjoint (xs ++ ys)
      → Holds s (xs ++ ys)
      → Passed start xs
      → Ends n start end s (xs ++ removed start end ys)
  remove_loop zero s xs ys le d h p = absurd (omega arith)
  remove_loop (suc n) s xs [] le d h p = rw (removed-nil start end) (
      step_stop start end n s (xs ++ [])
        (round_none start end s (find_at s xs [] start d h p ∙ ending_after-nil start)) h d)
  remove_loop (suc n) s xs (v ∷ ys) le d h p =
      let size : v.start < v.end = size_of xs ys v d in
      let high : All (StartsAt v.end) ys = high_of xs ys v d in
      let go : (m : ℕ)
          → 2 * length ys + 1 ≤ m
          → (kept : VmArea) → kept.end ≤ start
          → (s' : Areas) → Holds s' ((xs ++ (kept ∷ [])) ++ ys)
          → Disjoint ((xs ++ (kept ∷ [])) ++ ys)
          → Ends m start end s' (xs ++ (kept ∷ removed start end ys)) =
        λ m enough kept e s' h' d'.
          subst (Ends m start end s') (sym (shift xs kept (removed start end ys))) (
            remove_loop m s' (xs ++ (kept ∷ [])) ys enough d' h'
              (All-append (λ (x : VmArea). x.end ≤ start) xs (kept ∷ []) p (e, tt))) in
      let low : VmArea = record v { end = start } in
      elim (Bool-cases (leb v.end start)) [
        | inl f ↦ rw (removed_in_front start end v ys (ground arith)) (
            go (suc n) (omega arith) v (ground arith) s (subst (Holds s) (shift xs v ys) h)
              (subst Disjoint (shift xs v ys) d))
        | inr f ↦
            let reaches : start < v.end = ground arith in
            elim (Bool-cases (leb end v.start)) [
              | inl g ↦
                  let e : removed start end (v ∷ ys) ≡ v ∷ ys = removed_behind start end (v ∷ ys) (
                    ground arith,
                    All-map (StartsAt v.end) (StartsAt end) (λ y q. ground arith) ys high,
                  ) in
                  rw e
                    (behind_step start end some_range n s xs ys [] v d h p reaches (ground arith))
              | inr g ↦
                  let inside : v.start < end = ground arith in
                  elim (Bool-cases (ltb v.start start)) [
                    | inl k ↦
                        let cut : v.start < start = ground arith in
                        rw (removed_cut start end v ys reaches inside cut)
                          (elim (Bool-cases (leb v.end end)) [
                            | inl m ↦
                                left_step start end some_range n s xs ys
                                  (xs ++ (low ∷ removed start end ys)) v d h p reaches cut
                                  (ground arith) (go n (omega arith) low (omega arith))
                            | inr m ↦
                                hole_step start end some_range n s xs ys
                                  (xs ++ (low ∷ removed start end ys)) v d h p reaches cut
                                  (ground arith)
                                  (λ s' h' d'.
                                    middle_step n s' (xs ++ (low ∷ [])) ys
                                      (xs ++ (low ∷ removed start end ys))
                                      (record (tail_from start v) { end = end }) (omega arith) refl
                                      refl d' h'
                                      (All-append (λ (x : VmArea). x.end ≤ start) xs (low ∷ []) p
                                        (omega arith, tt))
                                      (λ k e'. go k (omega arith) low (omega arith)))
                          ])
                    | inr k ↦
                        let within : start ≤ v.start = ground arith in
                        elim (Bool-cases (leb v.end end)) [
                          | inl m ↦
                              rw
                                (removed_inside start end v ys reaches inside within (ground arith))
                                (inside_step start end some_range n s xs ys
                                  (xs ++ removed start end ys) v d h p reaches inside within
                                  (ground arith)
                                  (λ s' h' d'. remove_loop n s' xs ys (omega arith) d' h' p))
                          | inr m ↦
                              let over : end < v.end = ground arith in
                              let later : All (StartsAt end) ys =
                                All-map (StartsAt v.end) (StartsAt end) (λ y q. omega arith) ys
                                  high in
                              rw
                                (
                                  removed_tail start end v ys reaches inside within over,
                                  removed_behind start end ys later,
                                )
                                (right_step start end some_range n s xs ys
                                  (xs ++ (tail_from end v ∷ ys)) v d h p reaches inside within over
                                  (λ s' h' d'.
                                    behind_end n s' xs ys (tail_from end v) (omega arith) over
                                      (omega arith) d' h' p))
                        ]
                  ]
            ]
      ]

-- `vma_remove_range`, given two rounds for each area and one more
pub remove_range-Holds :
    (start end n : ℕ) (s : Areas) (xs : List VmArea)
    → start < end
    → 2 * length xs + 1 ≤ n
    → Disjoint xs
    → Holds s xs
    → Ends n start end s (removed start end xs)
remove_range-Holds start end n s xs r enough d h = remove_loop start end r n s [] xs enough d h tt
