-- ===== src/Vma/Range/Rounds.antt =====
-- What a round of the loop of `vma_remove_range` does, branch by branch.
use mathlib.Core.Path.{subst}
use doppio.Prelude.{
  ℕ, ◌<◌, ◌≤◌, ◌≡◌, refl, ap, ◌∙◌, sym, true, false, none, some, List, ◌++◌, ltb, leb, All, arith,
}
use doppio.Vma.{VmArea}
use doppio.Vma.RbTree.{vma_find_first}
use doppio.Vma.RbTree.InOrder.{Disjoint}
use doppio.Vma.RbTree.Search.{
  ending_after, ending_after-append, ending_after_behind, or_else, search_list,
}
use doppio.Vma.Range.{
  Areas, erase, vma_split, stop, again, cut_right, cut_left, cut_front, remove_round,
}
use doppio.Vma.Range.Places.{Holds}

-- The search of a round finds the first area that ends behind the start.
pub find_at :
    (s : Areas) (xs ys : List VmArea) (start : ℕ)
    → Disjoint (xs ++ ys)
    → Holds s (xs ++ ys)
    → All (λ (x : VmArea). x.end ≤ start) xs
    → vma_find_first s.root start ≡ ending_after ys start
find_at s xs ys start d (e, f) h =
    (search_list s.root start (subst Disjoint (sym e) d)).2
    ∙ ap (λ zs. ending_after zs start) e
    ∙ ending_after-append xs ys start
    ∙ ap (λ o. or_else o (ending_after ys start)) (ending_after_behind xs start h)

-- A round by what the search finds
module _ (start end : ℕ) (s : Areas) where
  pub round_none :
      vma_find_first s.root start ≡ none → remove_round (true, true) start end s ≡ stop s
  unfolding remove_round
  round_none e = rw (e, remove_round) refl

  module _ (v : VmArea) (found : vma_find_first s.root start ≡ some v) where
    pub round_behind : end ≤ v.start → remove_round (true, true) start end s ≡ stop s
    unfolding remove_round
    round_behind le =
        let e : leb end v.start ≡ true = ground arith in rw (found, e, remove_round) refl

    pub round_left :
        v.start < end
        → v.start < start
        → remove_round (true, true) start end s ≡ cut_left true end (vma_split true v start s)
    unfolding remove_round
    round_left lt left =
        let e : leb end v.start ≡ false = ground arith in
        let f : ltb v.start start ≡ true = ground arith in rw (found, e, f, remove_round) refl

    pub round_right :
        v.start < end
        → start ≤ v.start
        → end < v.end
        → remove_round (true, true) start end s ≡ cut_front v.start (vma_split true v end s)
    unfolding remove_round
    round_right lt ge right =
        let e : leb end v.start ≡ false = ground arith in
        let f : ltb v.start start ≡ false = ground arith in
        let g : ltb end v.end ≡ true = ground arith in rw (found, e, f, g, remove_round) refl

    pub round_inside :
        v.start < end
        → start ≤ v.start
        → v.end ≤ end
        → remove_round (true, true) start end s ≡ again (erase v.start s)
    unfolding remove_round
    round_inside lt ge le =
        let e : leb end v.start ≡ false = ground arith in
        let f : ltb v.start start ≡ false = ground arith in
        let g : ltb end v.end ≡ false = ground arith in rw (found, e, f, g, remove_round) refl

pub cut_left_short :
    (end : ℕ) (right : VmArea) (s : Areas)
    → right.end ≤ end
    → cut_left true end (some right, s) ≡ again (erase right.start s)
unfolding cut_left
cut_left_short end right s le = let e : ltb end right.end ≡ false = ground arith in rw e refl

pub cut_left_long :
    (end : ℕ) (right tail : VmArea) (s s' : Areas)
    → end < right.end
    → vma_split true right end s ≡ (some tail, s')
    → cut_left true end (some right, s) ≡ again (erase tail.start s')
unfolding cut_left cut_right
cut_left_long end right tail s s' lt split =
    let e : ltb end right.end ≡ true = ground arith in rw (e, split) refl

pub cut_front-erase :
    (start : ℕ) (right : VmArea) (s : Areas)
    → cut_front start (some right, s) ≡ again (erase start s)
unfolding cut_front
cut_front-erase start right s = refl
