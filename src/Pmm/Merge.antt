-- ===== src/Pmm/Merge.antt =====
-- The loop that merges a free block with its buddies.
use mathlib.Core.Path.{subst}
use doppio.Prelude.{
  ℕ, zero, suc, ◌+◌, ◌-◌, ◌^◌, ◌<◌, ◌≤◌, ◌≡◌, ◌≢◌, refl, sym, ap, ◌∙◌, ◌⊎◌, inl, inr, true, false,
  none, some, List, ◌∷◌, ltb, ◌==◌, if◌then◌else◌, Bool-cases, Option-cases, arith,
}
use doppio.Pmm.{
  max_order, Page, Pmm, set_page, add_to_list, remove_from_list, get_buddy, mergeable, merge_block,
}
use doppio.Pmm.Blocks.{block_of, block_of-suc, Aligned, other_half, get_buddy_lem}
use doppio.Pmm.Cover.{
  Block, OnList, hit, live_cover, cover, same_cover, less_cover, Halves, hit_halves, hit_halves_le,
  hit_self, hit_above, hit_in,
}
use doppio.Pmm.Valid.{
  ListsSound, Apart, Accounted, Accurate, block, Floating, set_at-here, set_at-there, cover-remove,
  cover-add, set_page-ListsSound, remove-ListsSound, add-ListsSound, OnList-remove, OnList-add,
  added-OnList,
}
use doppio.Pmm.Buddies.{BuddyOf, buddy_of}

-- A page that is accounted for stays so.
pub Accounted-kept :
    (s s' : Pmm) (live live' : List Block) (x : ℕ)
    → s'.pages x ≡ s.pages x
    → ((k : ℕ) → OnList x (s.free_lists k) → OnList x (s'.free_lists k))
    → ((k : ℕ) → cover k x s live ≤ cover k x s' live')
    → Accounted s live x
    → Accounted s' live' x
Accounted-kept s s' live live' x e on more (lt, a, c) =
    subst
      (λ (v : Page).
        (v.order < max_order)
        × Aligned v.order x
        × (OnList x (s'.free_lists v.order) ⊎ (1 ≤ cover (suc v.order) x s' live')))
      (sym e) (lt, a, still c)
  where
    still :
        OnList x (s.free_lists (s.pages x).order) ⊎ (1 ≤ cover (suc (s.pages x).order) x s live)
        → OnList x (s'.free_lists (s.pages x).order)
          ⊎ (1 ≤ cover (suc (s.pages x).order) x s' live')
    still (inl h) = inl (on (s.pages x).order h)
    still (inr h) = inr (omega (arith, h, more (suc (s.pages x).order)))

-- The first page says that the block is free.
abbrev pub Marked : Pmm → ℕ → ℕ → Type 0
Marked s order head = ((s.pages head).is_free ≡ true) × ((s.pages head).order ≡ order)

-- What a call leaves: no page is in more or fewer blocks than before
abbrev pub Left : Pmm → List Block → Pmm → List Block → Type 0
Left s live s' live' =
    ListsSound s'
    × Apart s' live'
    × Accurate s' live'
    × (s'.total_pages ≡ s.total_pages)
    × ((p : ℕ) → cover 0 p s' live' ≡ cover 0 p s live)

pub Floating-Left :
    (s : Pmm) (h o : ℕ) (live : List Block)
    → Floating s h o live
    → Marked s o h
    → Left s (block h o ∷ live) (add_to_list o h s) live
Floating-Left s h o live (fits, sound, apart, accurate) (f, g) = (
  add-ListsSound s o h f g fits sound,
  (λ p. omega (arith, apart p, cover-add 0 p o h s live fits.0)),
  (λ x free. elim (Bool-cases (x == h)) [
    | inl e ↦
        let same : x ≡ h = ground arith in
        subst (Accounted (add_to_list o h s) live) (sym same) (
          subst
            (λ (k : ℕ).
              (k < max_order)
              × Aligned k h
              × (OnList h ((add_to_list o h s).free_lists k)
                  ⊎ (1 ≤ cover (suc k) h (add_to_list o h s) live)))
            (sym g) (fits.0, fits.1, inl (added-OnList s o h)))
    | inr e ↦
        Accounted-kept s (add_to_list o h s) (block h o ∷ live) live x refl
          (λ k. OnList-add s o h k x) (λ k. omega (arith, cover-add k x o h s live fits.0))
          (accurate x (λ same. ground arith) free)
  ]),
  refl,
  λ p. cover-add 0 p o h s live fits.0,
)

-- The buddy taken off its list, and the first page of the two marked
abbrev merge_with : Pmm → ℕ → ℕ → ℕ → Pmm
merge_with s o q m =
    let s' : Pmm = remove_from_list o q s in set_page s' m (record (s'.pages m) { order = suc o })

-- The merge with a buddy that is free
module _ (s : Pmm) (h o q m : ℕ) (live : List Block) (floating : Floating s h o live)
    (marked : Marked s o h) (buddy_marked : Marked s o q) (halves : Halves o h q m)
    (buddy_aligned : Aligned o q) (aligned : Aligned (suc o) m) (which : (m ≡ q) ⊎ (m ≡ h))
    (next : suc o < max_order)
    (join : (total : ℕ) → h + 2 ^ o ≤ total → q + 2 ^ o ≤ total → m + 2 ^ suc o ≤ total)
    (other : q ≢ h) where
  abbrev taken : Pmm
  taken = remove_from_list o q s

  abbrev merged : Pmm
  merged = merge_with s o q m

  both : block_of (suc o) q ≡ block_of (suc o) h
  both = elim halves.1 [
    | inl (e, f) ↦ omega (arith, block_of-suc o q, block_of-suc o h, e, f)
    | inr (e, f) ↦ omega (arith, block_of-suc o q, block_of-suc o h, e, f)
  ]

  with_m : block_of (suc o) h ≡ block_of (suc o) m
  with_m = omega (arith, block_of-suc o h, halves.0)

  none_around : 1 ≤ cover (suc o) q s (block h o ∷ live) → ⊥
  none_around c =
      let c' : 1 ≤ cover (suc o) h s (block h o ∷ live) =
        subst (λ (n : ℕ). 1 ≤ n) (same_cover (suc o) q h both s (block h o ∷ live)) c in
      let low : hit (suc o) h o h ≡ 0 = hit_above (suc o) h o h (omega arith) in
      omega
        (arith, c', low, floating.2 h, hit_self 0 o h (omega arith), less_cover (suc o) h s live)

  -- The buddy is on the list: a block of a higher order around it would have the other half, too.
  buddy_on : OnList q (s.free_lists o)
  buddy_on =
      let (lt, a, c) =
        subst
          (λ (k : ℕ).
            (k < max_order)
            × Aligned k q
            × (OnList q (s.free_lists k) ⊎ (1 ≤ cover (suc k) q s (block h o ∷ live))))
          buddy_marked.1 (floating.3 q other buddy_marked.0) in
      elim c [ inl on ↦ on | inr around ↦ absurd (none_around around) ]

  merged_more :
      (k p : ℕ) → cover k p s (block h o ∷ live) ≤ cover k p merged (block m (suc o) ∷ live)
  merged_more k p = omega (
    arith,
    cover-remove k p o q s (block h o ∷ live) floating.0.0 buddy_on,
    hit_halves_le k p o h q m halves,
  )

  merged_same : (p : ℕ) → cover 0 p merged (block m (suc o) ∷ live) ≡ cover 0 p s (block h o ∷ live)
  merged_same p = omega (
    arith,
    cover-remove 0 p o q s (block h o ∷ live) floating.0.0 buddy_on,
    hit_halves 0 p o h q m halves (omega arith),
  )

  -- The halves keep what they say, and lie in the new block.
  half_Accounted :
      (x : ℕ)
      → x ≢ m
      → (s.pages x).order ≡ o
      → Aligned o x
      → block_of (suc o) x ≡ block_of (suc o) m
      → Accounted merged (block m (suc o) ∷ live) x
  half_Accounted x ne e a in_m =
      let same : (merged.pages x).order ≡ o =
        ap (λ (v : Page). v.order)
          (set_at-there taken.pages m (record (taken.pages m) { order = suc o }) x ne)
        ∙ e in
      let in_new : hit (suc o) x (suc o) m ≡ 1 = hit_in (suc o) x (suc o) m (omega arith) in_m in
      subst
        (λ (k : ℕ).
          (k < max_order)
          × Aligned k x
          × (OnList x (merged.free_lists k)
              ⊎ (1 ≤ cover (suc k) x merged (block m (suc o) ∷ live))))
        (sym same) (floating.0.0, a, inr (omega (arith, in_new)))

  pub merged-Floating : Floating merged m (suc o) live × Marked merged (suc o) m
  merged-Floating =
      let held : 1 ≤ live_cover 0 m (block q o ∷ block h o ∷ live) = elim which [
        | inl e ↦ omega (arith, hit_in 0 m o q (omega arith) (ap (block_of o) e))
        | inr e ↦ omega (arith, hit_in 0 m o h (omega arith) (ap (block_of o) e))
      ] in
      let v : Page = record (taken.pages m) { order = suc o } in
      let here : merged.pages m ≡ v = set_at-here taken.pages m v m refl in
      let free_m : (s.pages m).is_free ≡ true = elim which [
        | inl e ↦ ap (λ (x : ℕ). (s.pages x).is_free) e ∙ buddy_marked.0
        | inr e ↦ ap (λ (x : ℕ). (s.pages x).is_free) e ∙ marked.0
      ] in
      let apart : Apart taken (block q o ∷ block h o ∷ live) = λ p.
        omega
          (arith, floating.2 p, cover-remove 0 p o q s (block h o ∷ live) floating.0.0 buddy_on) in
      (
        (
          (
            next,
            aligned,
            join s.total_pages floating.0.2 (floating.1 o q floating.0.0 buddy_on).2.2,
          ),
          set_page-ListsSound taken (block q o ∷ block h o ∷ live) m
              (record (taken.pages m) { order = suc o }) apart held
              (remove-ListsSound s o q floating.1),
          (λ p. omega (arith, floating.2 p, merged_same p)),
          λ x ne free. accounts x ne free,
        ),
        (ap (λ (w : Page). w.is_free) here ∙ free_m, ap (λ (w : Page). w.order) here),
      )
    where
      accounts :
          (x : ℕ)
          → x ≢ m
          → (merged.pages x).is_free ≡ true
          → Accounted merged (block m (suc o) ∷ live) x
      accounts x ne free =
          let v : Page = record (taken.pages m) { order = suc o } in
          let same : merged.pages x ≡ s.pages x = set_at-there taken.pages m v x ne in
          elim (Bool-cases (x == h)) [
            | inl e ↦
                let at : x ≡ h = ground arith in
                subst (λ (y : ℕ). y ≢ m → Accounted merged (block m (suc o) ∷ live) y) (sym at)
                  (λ ne'. half_Accounted h ne' marked.1 floating.0.1 with_m) ne
            | inr e ↦ elim (Bool-cases (x == q)) [
              | inl f ↦
                  let at : x ≡ q = ground arith in
                  subst (λ (y : ℕ). y ≢ m → Accounted merged (block m (suc o) ∷ live) y) (sym at)
                    (λ ne'. half_Accounted q ne' buddy_marked.1 buddy_aligned (both ∙ with_m)) ne
              | inr f ↦
                  Accounted-kept s merged (block h o ∷ live) (block m (suc o) ∷ live) x same
                    (λ k. OnList-remove s o q k x (λ at. ground arith)) (λ k. merged_more k x)
                    (floating.3 x (λ at. ground arith)
                      (sym (ap (λ (w : Page). w.is_free) same) ∙ free))
            ]
          ]

-- A round of the loop, by what the buddy says
module _ (n h o : ℕ) (s : Pmm) where
  merge_none : get_buddy s.total_pages h o ≡ none → merge_block (suc n) h o s ≡ add_to_list o h s
  unfolding merge_block
  merge_none e = rw (e, merge_block) refl

  module _ (q : ℕ) (e : get_buddy s.total_pages h o ≡ some q) where
    merge_stop : mergeable s q o ≡ false → merge_block (suc n) h o s ≡ add_to_list o h s
    unfolding merge_block
    merge_stop f = rw (e, f, merge_block) refl

    merge_on :
        mergeable s q o ≡ true
        → merge_block (suc n) h o s
          ≡ merge_block n
              (if ltb q h then q else h)
              (suc o)
              (merge_with s o q (if ltb q h then q else h))
    unfolding merge_block
    merge_on f = rw (e, f, merge_block) refl

merge_last : (h o : ℕ) (s : Pmm) → merge_block zero h o s ≡ add_to_list o h s
unfolding merge_block
merge_last h o s = refl

buddy_is_other : (total h o q : ℕ) → get_buddy total h o ≡ some q → other_half o h ≡ q
buddy_is_other total h o q e = ground (arith, get_buddy_lem total h o, e)

pub Left-trans :
    (s s' s'' : Pmm) (live live' live'' : List Block)
    → s'.total_pages ≡ s.total_pages
    → ((p : ℕ) → cover 0 p s' live' ≡ cover 0 p s live)
    → Left s' live' s'' live''
    → Left s live s'' live''
Left-trans s s' s'' live live' live'' e c (sound, apart, accurate, e', c') =
    (sound, apart, accurate, e' ∙ e, λ p. c' p ∙ c p)

pub merge-Left :
    (n h o : ℕ) (s : Pmm) (live : List Block)
    → o + n ≡ max_order - 1
    → Floating s h o live
    → Marked s o h
    → Left s (block h o ∷ live) (merge_block n h o s) live
merge-Left zero h o s live last fl mk = rw (merge_last h o s) (Floating-Left s h o live fl mk)
merge-Left (suc n) h o s live last fl mk = elim (Option-cases (get_buddy s.total_pages h o)) [
  | inl e ↦ rw (merge_none n h o s e) (Floating-Left s h o live fl mk)
  | inr (q, e) ↦ elim (Bool-cases (mergeable s q o)) [
    | inl f ↦
        let m : ℕ = if ltb q h then q else h in
        let is_other : other_half o h ≡ q = buddy_is_other s.total_pages h o q e in
        let (halves, qa, ma, other, which, join) : BuddyOf o h q =
          subst (BuddyOf o h) is_other (buddy_of o h fl.0.1) in
        let says : Marked s o q = ground (arith, f) in
        let next : suc o < max_order = omega (arith, last) in
        let last' : suc o + n ≡ max_order - 1 = omega (arith, last) in
        let (fl', mk') =
          merged-Floating s h o q m live fl mk says halves qa ma which next join other in
        let same : (p : ℕ)
            → cover 0 p (merge_with s o q m) (block m (suc o) ∷ live)
              ≡ cover 0 p s (block h o ∷ live) =
          merged_same s h o q m live fl mk says halves qa ma which next join other in
        rw (merge_on n h o s q e f) (
          Left-trans s (merge_with s o q m) (merge_block n m (suc o) (merge_with s o q m))
            (block h o ∷ live) (block m (suc o) ∷ live) live refl same
            (merge-Left n m (suc o) (merge_with s o q m) live last' fl' mk'))
    | inr f ↦ rw (merge_stop n h o s q e f) (Floating-Left s h o live fl mk)
  ]
]
