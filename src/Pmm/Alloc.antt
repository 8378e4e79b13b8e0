-- ===== src/Pmm/Alloc.antt =====
-- Allocating a block: the search, and the block that is handed out.
use mathlib.Core.Path.{subst}
use doppio.Prelude.{
  ℕ, zero, suc, ◌+◌, ◌-◌, ◌^◌, ◌<◌, ◌≤◌, ◌≡◌, ◌≢◌, refl, sym, ap, ◌∙◌, ◌⊎◌, inl, inr, true, false,
  Option, none, some, List, [], ◌∷◌, ◌==◌, All, All-map, Bool-cases, arith,
}
use doppio.Pmm.{
  max_order, Page, Pmm, set_at, set_page, remove_from_list, find_block, split_block,
  pmm_alloc_pages,
}
use doppio.Pmm.Cover.{Block, OnList, hit, live_cover, hit_self}
use doppio.Pmm.Valid.{
  Fits, IsValid, block, Floating, set_at-here, set_at-there, cover-remove, set_page-ListsSound,
  remove-ListsSound, OnList-remove,
}
use doppio.Pmm.Cut.{split-CutTo}
use doppio.Pmm.Merge.{Accounted-kept}
use doppio.Pmm.Free.{free_blocks}

list-cases : (xs : List ℕ) → (xs ≡ []) ⊎ ((x : ℕ) × (rest : List ℕ) × (xs ≡ x ∷ rest))
list-cases [] = inl refl
list-cases (x ∷ rest) = inr (x, rest, refl)

-- No free block of the next `n` orders
abbrev pub NoneFree : (ℕ → List ℕ) → ℕ → ℕ → Type 0
NoneFree lists order zero = Unit {0}
NoneFree lists order (suc n) = (lists order ≡ []) × NoneFree lists (order + 1) n

-- The first free block from an order on
find_block-cases :
    (lists : ℕ → List ℕ) (order n : ℕ)
    → ((find_block lists order n ≡ none) × NoneFree lists order n)
      ⊎ ((d : ℕ) × (head : ℕ) × (find_block lists order n ≡ some (order + d, head))
          × (d < n)
          × OnList head (lists (order + d)))
unfolding find_block
find_block-cases lists order zero = inl (refl, tt)
find_block-cases lists order (suc n) = elim (list-cases (lists order)) [
  | inl e ↦ elim (find_block-cases lists (order + 1) n) [
    | inl (f, all) ↦ inl (rw (e, find_block) f, (e, all))
    | inr (d, head, f, lt, on) ↦
        let at : order + 1 + d ≡ order + suc d = omega arith in
        inr (
          suc d,
          head,
          rw (e, find_block) (f ∙ ap (λ (o : ℕ). some (o, head)) at),
          omega arith,
          subst (λ (o : ℕ). OnList head (lists o)) at on,
        )
  ]
  | inr (head, rest, e) ↦
      let at : order ≡ order + 0 = omega arith in
      inr (
        0,
        head,
        rw (e, find_block) (ap (λ (o : ℕ). some (o, head)) at),
        omega arith,
        subst (λ (o : ℕ). OnList head (lists o)) at
            (subst (λ xs. OnList head xs) (sym e) (inl refl)),
      )
]

-- A block off its list
popped-Floating :
    (s : Pmm) (h c : ℕ) (live : List Block)
    → c < max_order
    → OnList h (s.free_lists c)
    → IsValid s live
    → Floating (remove_from_list c h s) h c live
popped-Floating s h c live lt on (sound, apart, accurate, fits) = (
  (sound c h lt on).2,
  remove-ListsSound s c h sound,
  (λ p. omega (arith, apart p, cover-remove 0 p c h s live lt on)),
  λ x ne free.
      Accounted-kept s (remove_from_list c h s) live (block h c ∷ live) x refl
        (λ k. OnList-remove s c h k x ne) (λ k. omega (arith, cover-remove k x c h s live lt on))
        (accurate x free),
)

-- The block as it is handed out
handed_out-IsValid :
    (s : Pmm) (h o : ℕ) (live : List Block)
    → Floating s h o live
    → All (λ (b : Block). Fits s b.order b.head) live
    → IsValid
        (set_page s h (record { is_free = false; order = o; ref_count = 0 }))
        (block h o ∷ live)
handed_out-IsValid s h o live (fits, sound, apart, accurate) others =
    let v : Page = record { is_free = false; order = o; ref_count = 0 } in
    let here : set_at s.pages h v h ≡ v = set_at-here s.pages h v h refl in
    let held : 1 ≤ live_cover 0 h (block h o ∷ live) =
      omega (arith, hit_self 0 o h (omega arith)) in
    (
      set_page-ListsSound s (block h o ∷ live) h v apart held sound,
      apart,
      (λ x free. elim (Bool-cases (x == h)) [
        | inl e ↦
            let at : x ≡ h = ground arith in
            absurd (
              marked_used
                (sym (ap (λ (w : Page). w.is_free) (set_at-here s.pages h v x at)) ∙ free))
        | inr e ↦
            let other : x ≢ h = λ f. ground arith in
            let same : set_at s.pages h v x ≡ s.pages x = set_at-there s.pages h v x other in
            Accounted-kept s (set_page s h v) (block h o ∷ live) (block h o ∷ live) x same
              (λ k on. on) (λ k. omega arith)
              (accurate x other (ap (λ (w : Page). w.is_free) (sym same) ∙ free))
      ]),
      (fits, others),
    )
  where
    marked_used : false ≡ true → ⊥
    marked_used e = ground arith

alloc_none :
    (order : ℕ) (s : Pmm)
    → find_block s.free_lists order (max_order - order) ≡ none
    → pmm_alloc_pages order s ≡ (none, s)
unfolding pmm_alloc_pages
alloc_none order s e = rw (e, pmm_alloc_pages) refl

alloc_some :
    (order c h : ℕ) (s : Pmm)
    → find_block s.free_lists order (max_order - order) ≡ some (c, h)
    → pmm_alloc_pages order s ≡ (
      some h,
      set_page
          (split_block order h (c - order) (remove_from_list c h s))
          h
          (record { is_free = false; order = order; ref_count = 0 }),
    )
unfolding pmm_alloc_pages
alloc_some order c h s e = rw (e, pmm_alloc_pages) refl

-- What a call of `pmm_alloc_pages` leaves
abbrev pub Allocated : ℕ → Pmm → List Block → Option ℕ × Pmm → Type 0
Allocated order s live out =
    ((out ≡ (none, s)) × NoneFree s.free_lists order (max_order - order))
    ⊎ ((h : ℕ) × (out.0 ≡ some h)
        × IsValid out.1 (block h order ∷ live)
        × ((p : ℕ) → free_blocks p s ≡ free_blocks p out.1 + hit 0 p order h))

-- `pmm_alloc_pages` on a valid allocator: it hands out a block of the order, whose pages were free and are not free any more, every other page being as it was, and
-- the allocator is valid with the block; or nothing, and then no block of the order or a higher
-- one is free.
pub pmm_alloc_pages-Allocated :
    (order : ℕ) (s : Pmm) (live : List Block)
    → IsValid s live
    → Allocated order s live (pmm_alloc_pages order s)
pmm_alloc_pages-Allocated order s live valid =
    elim (find_block-cases s.free_lists order (max_order - order)) [
      | inl (e, all) ↦ inl (alloc_none order s e, all)
      | inr (d, h, e, lt, on) ↦
          let s1 : Pmm = remove_from_list (order + d) h s in
          let fl : Floating s1 h (order + d) live =
            popped-Floating s h (order + d) live (omega arith) on valid in
          let (fl', total, same) = split-CutTo order d h s1 live fl in
          let more : order + d - order ≡ d = omega arith in
          let still : (b : Block)
              → Fits s b.order b.head
              → Fits (split_block order h d s1) b.order b.head =
            λ b f. (f.0, f.1, subst (λ (t : ℕ). b.head + 2 ^ b.order ≤ t) (sym total) f.2) in
          let s2 : Pmm =
            set_page (split_block order h d s1) h
              (record { is_free = false; order = order; ref_count = 0 }) in
          let call : pmm_alloc_pages order s ≡ (some h, s2) =
            alloc_some order (order + d) h s e
            ∙ ap
                (λ (n : ℕ). (
                  some h,
                  set_page (split_block order h n s1) h
                      (record { is_free = false; order = order; ref_count = 0 }),
                ))
                more in
          let out : IsValid s2 (block h order ∷ live) =
            handed_out-IsValid (split_block order h d s1) h order live fl' (
              All-map (λ (b : Block). Fits s b.order b.head)
                (λ (b : Block). Fits (split_block order h d s1) b.order b.head) still live
                valid.3) in
          subst (λ r. Allocated order s live r) (sym call)
            (inr (
              h,
              refl,
              out,
              λ p. omega (arith, same p, cover-remove 0 p (order + d) h s live (omega arith) on),
            ))
    ]
