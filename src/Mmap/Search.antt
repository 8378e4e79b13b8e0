-- ===== src/Mmap/Search.antt =====
-- The search for a free range of addresses.
use mathlib.Core.Path.{subst}
use doppio.Prelude.{
  ℕ, zero, suc, ◌+◌, ◌*◌, ◌/◌, ◌%◌, ◌^◌, ◌<◌, ◌≤◌, ◌≡◌, refl, sym, ap, ◌∙◌, ◌⊎◌, inl, inr, Bool,
  true, false, Option, none, some, List, ◌∷◌, ltb, All, All-map, All-of-append, Bool-cases, arith,
}
use doppio.Vma.{VmArea, Tree}
use doppio.Vma.RbTree.{vma_find_first}
use doppio.Vma.RbTree.InOrder.{in_order, Disjoint}
use doppio.Vma.RbTree.Search.{ending_after, ending_after-cases, search_list}
use doppio.Pmm.{page_size}
use doppio.Pmm.Init.{word, align_up}
use doppio.Mmap.{first_mapped, find_gap}
use doppio.Mmap.Gap.{
  Unmapped, ApartFrom, IsGap, first_mapped-cases, apart_around, passed_page, passed_area,
}

-- A round of the search, by what it sees
module _ (n : ℕ) (mapped : ℕ → Bool) (root : Tree) (len base start : ℕ) where
  round_end : ltb start base ≡ false → find_gap (suc n) mapped root len base start ≡ some none
  unfolding find_gap
  round_end e = rw (e, find_gap) refl

  module _ (more : ltb start base ≡ true) where
    round_mapped :
        (at : ℕ)
        → first_mapped mapped (len / page_size) start ≡ some at
        → find_gap (suc n) mapped root len base start
          ≡ find_gap n mapped root len base (align_up (word (at + page_size)) page_size)
    unfolding find_gap
    round_mapped at e = rw (more, e, find_gap) refl

    module _ (free : first_mapped mapped (len / page_size) start ≡ none) where
      round_last :
          vma_find_first root start ≡ none
          → find_gap (suc n) mapped root len base start ≡ some (some start)
      unfolding find_gap
      round_last e = rw (more, free, e, find_gap) refl

      round_found :
          (v : VmArea)
          → vma_find_first root start ≡ some v
          → ltb v.start (word (start + len)) ≡ false
          → find_gap (suc n) mapped root len base start ≡ some (some start)
      unfolding find_gap
      round_found v e f = rw (more, free, e, f, find_gap) refl

      round_area :
          (v : VmArea)
          → vma_find_first root start ≡ some v
          → ltb v.start (word (start + len)) ≡ true
          → find_gap (suc n) mapped root len base start
            ≡ find_gap n mapped root len base (align_up v.end page_size)
      unfolding find_gap
      round_area v e f = rw (more, free, e, f, find_gap) refl

-- No page-aligned address from `from` on and before `to` is a gap.
abbrev pub NoGap : (ℕ → Bool) → List VmArea → ℕ → ℕ → ℕ → Type 0
NoGap mapped xs len from to =
    (addr : ℕ) → from ≤ addr → addr < to → addr % page_size ≡ 0 → IsGap mapped xs len addr → ⊥

-- The first gap from an address on and below `base`, if there is one
abbrev pub FirstGap : (ℕ → Bool) → List VmArea → ℕ → ℕ → ℕ → Option (Option ℕ) → Type 0
FirstGap mapped xs len base start out =
    ((out ≡ some none) × NoGap mapped xs len start base)
    ⊎ ((found : ℕ) × (out ≡ some (some found))
        × (start ≤ found)
        × (found < base)
        × (found % page_size ≡ 0)
        × IsGap mapped xs len found
        × NoGap mapped xs len start found)

module _ (mapped : ℕ → Bool) (xs : List VmArea) (len base : ℕ) where
  NoGap-join :
      (a b c : ℕ) → NoGap mapped xs len a b → NoGap mapped xs len b c → NoGap mapped xs len a c
  NoGap-join a b c low high addr le lt al gap = elim (Bool-cases (ltb addr b)) [
    | inl e ↦ low addr le (ground (arith, e)) al gap
    | inr e ↦ high addr (ground (arith, e)) lt al gap
  ]

  FirstGap-later :
      (start next : ℕ) (out : Option (Option ℕ))
      → start ≤ next
      → NoGap mapped xs len start next
      → FirstGap mapped xs len base next out
      → FirstGap mapped xs len base start out
  FirstGap-later start next out le passed (inl (e, none_left)) =
      inl (e, NoGap-join start next base passed none_left)
  FirstGap-later start next out le passed (inr (found, e, from, below, al, gap, first)) =
      inr (found, e, omega arith, below, al, gap, NoGap-join start next found passed first)

  FirstGap-here :
      (start : ℕ)
      → start < base
      → start % page_size ≡ 0
      → IsGap mapped xs len start
      → FirstGap mapped xs len base start (some (some start))
  FirstGap-here start lt al gap =
      inr (start, refl, omega arith, lt, al, gap, λ addr le below al' gap'. omega arith)

-- An area that ends where its end can be rounded up to whole pages
abbrev pub EndsLow : VmArea → Type 0
EndsLow v = v.end + page_size ≤ 2 ^ 64

rounded :
    (x : ℕ)
    → x + page_size ≤ 2 ^ 64
    → (x ≤ align_up x page_size)
      × (align_up x page_size < x + page_size)
      × (align_up x page_size % page_size ≡ 0)
rounded x h = (omega arith, omega arith, omega arith)

whole_page :
    (x : ℕ)
    → x + page_size + page_size ≤ 2 ^ 64
    → x % page_size ≡ 0
    → align_up (word (x + page_size)) page_size ≡ x + page_size
whole_page x h al = omega arith

module _ (mapped : ℕ → Bool) (root : Tree) (xs : List VmArea) (len base : ℕ)
    (holds : in_order root ≡ xs) (disjoint : Disjoint xs) (low : All EndsLow xs)
    (room : base + len + page_size ≤ 2 ^ 64) where
  first_after : (a : ℕ) → vma_find_first root a ≡ ending_after xs a
  first_after a =
      (search_list root a (subst Disjoint (sym holds) disjoint)).2
      ∙ ap (λ ys. ending_after ys a) holds

  -- A round with no mapped page in the range
  search_areas :
      (n start : ℕ)
      → start < base
      → start % page_size ≡ 0
      → first_mapped mapped (len / page_size) start ≡ none
      → Unmapped mapped (len / page_size) start
      → ((next : ℕ)
          → start + page_size ≤ next
          → next % page_size ≡ 0
          → FirstGap mapped xs len base next (find_gap n mapped root len base next))
      → FirstGap mapped xs len base start (find_gap (suc n) mapped root len base start)
  search_areas n start lt al free clear go =
      let more : ltb start base ≡ true = ground (arith, lt) in
      elim (ending_after-cases xs start) [
        | inl (e, before) ↦
            let gap : IsGap mapped xs len start = (
              clear,
              All-map (λ (x : VmArea). x.end ≤ start) (ApartFrom start (start + len)) (λ x h. inl h)
                  xs before,
            ) in
            subst (FirstGap mapped xs len base start)
              (sym (round_last n mapped root len base start more free (first_after start ∙ e)))
              (FirstGap-here mapped xs len base start lt al gap)
        | inr (front, v, back, at, e, before, behind) ↦
            let find : vma_find_first root start ≡ some v = first_after start ∙ e in
            let sum : word (start + len) ≡ start + len = omega (arith, lt, room) in
            elim (Bool-cases (ltb v.start (word (start + len)))) [
              | inr f ↦
                  let after : start + len ≤ v.start = ground (arith, f, sum) in
                  let gap : IsGap mapped xs len start = (
                    clear,
                    subst (All (ApartFrom start (start + len))) (sym at) (
                        apart_around start (start + len) front back v (subst Disjoint at disjoint)
                          before after),
                  ) in
                  subst (FirstGap mapped xs len base start)
                    (sym (round_found n mapped root len base start more free v find f))
                    (FirstGap-here mapped xs len base start lt al gap)
              | inl f ↦
                  let inside : v.start < start + len = ground (arith, f, sum) in
                  let ends : EndsLow v =
                    (All-of-append EndsLow front (v ∷ back) (subst (All EndsLow) at low)).1.0 in
                  let next : ℕ = align_up v.end page_size in
                  let (up, near, whole) = rounded v.end ends in
                  let passed : NoGap mapped xs len start next = λ addr le below al' gap.
                    passed_area mapped len start addr front back v inside le
                      (omega (arith, below, near, whole, al'))
                      (subst (λ ys. IsGap mapped ys len addr) at gap) in
                  subst (FirstGap mapped xs len base start)
                    (sym (round_area n mapped root len base start more free v find f))
                    (FirstGap-later mapped xs len base start next
                      (find_gap n mapped root len base next) (omega (arith, up, behind)) passed
                      (go next (omega (arith, up, behind, whole, al)) whole))
            ]
      ]

  -- The search ends within a round for each page, and one more.
  pub find_gap-FirstGap :
      (n start : ℕ)
      → base + page_size ≤ n * page_size + start
      → 1 ≤ n
      → start % page_size ≡ 0
      → FirstGap mapped xs len base start (find_gap n mapped root len base start)
  find_gap-FirstGap zero start enough one al = absurd (omega arith)
  find_gap-FirstGap (suc n) start enough one al = elim (Bool-cases (ltb start base)) [
    | inr e ↦
        subst (FirstGap mapped xs len base start) (sym (round_end n mapped root len base start e))
          (inl (refl, λ addr le lt al' gap. ground (arith, e, le, lt)))
    | inl e ↦
        let lt : start < base = ground (arith, e) in
        let go : (next : ℕ)
            → start + page_size ≤ next
            → next % page_size ≡ 0
            → FirstGap mapped xs len base next (find_gap n mapped root len base next) =
          λ next le whole.
            find_gap-FirstGap n next (omega (arith, enough)) (omega (arith, enough, lt)) whole in
        elim (first_mapped-cases mapped (len / page_size) start (omega (arith, lt, room))) [
          | inl (free, clear) ↦ search_areas n start lt al free clear go
          | inr (k, small, f, there) ↦
              let at : ℕ = start + k * page_size in
              let whole : at % page_size ≡ 0 = omega (arith, al) in
              let next : align_up (word (at + page_size)) page_size ≡ at + page_size =
                whole_page at (omega (arith, lt, room, small)) whole in
              let passed : NoGap mapped xs len start (at + page_size) = λ addr le below al' gap.
                passed_page mapped len start k addr xs small there al al' le below gap in
              subst (FirstGap mapped xs len base start)
                (sym (
                  round_mapped n mapped root len base start e at f
                  ∙ ap (λ (x : ℕ). find_gap n mapped root len base x) next))
                (FirstGap-later mapped xs len base start (at + page_size)
                  (find_gap n mapped root len base (at + page_size)) (omega arith) passed
                  (go (at + page_size) (omega arith) (omega (arith, whole))))
        ]
  ]
