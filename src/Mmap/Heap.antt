-- ===== src/Mmap/Heap.antt =====
-- `sys_brk` upwards: what the address space maps after it.
use mathlib.Core.Path.{subst}
use doppio.Prelude.{
  ℕ, ◌+◌, ◌-◌, ◌%◌, ◌^◌, ◌<◌, ◌≤◌, ◌≡◌, refl, sym, ap, ◌∙◌, inl, inr, Bool, true, false, ◌&&◌,
  Option, none, some, List, ◌∷◌, ◌++◌, ltb, leb, ◌==◌, if◌then◌else◌, All, All-map, All-of-append,
  Bool-cases, arith,
}
use doppio.Vma.{VmArea}
use doppio.Vma.RbTree.{vma_find}
use doppio.Vma.RbTree.InOrder.{Disjoint, Disjoint-of-append}
use doppio.Vma.RbTree.Search.{holding, holding-cases, search_list}
use doppio.Vma.Range.{insert, set_end}
use doppio.Vma.Range.Places.{Holds, StartsAt, Disjoint-replace, Holds-set_end}
use doppio.Vma.Range.View.{mapping, view}
use doppio.Pmm.{page_size}
use doppio.Pmm.Init.{word, align_up}
use doppio.Mmap.{Space, heap_area, in_the_way, no_file, extends, start_of, grow_brk, sys_brk}
use doppio.Mmap.Gap.{ApartFrom}
use doppio.Mmap.Place.{insert-Added}
use doppio.Mmap.Longer.{HeapOr, behind_apart, longer-view}

-- What `sys_brk` to a higher address answers
abbrev pub Grown : ℕ → Space → List VmArea → Option (ℕ × Space) → Type 0
Grown brk s xs out =
    (s' : Space) × (out ≡ some (brk, s'))
    × (s'.brk ≡ brk)
    × (ys : List VmArea) × Holds s'.areas ys
    × Disjoint ys
    × ((a : ℕ)
        → HeapOr (leb (align_up s.brk page_size) a && ltb a (align_up brk page_size)) (view ys a)
            (view xs a))

-- The branches of `grow_brk` that move the break
module _ (brk : ℕ) (s : Space) (low : ltb s.stack_top (align_up brk page_size) ≡ false)
    (clear : in_the_way
        (vma_find s.areas.root (align_up s.brk page_size))
        (align_up brk page_size)
        s.brk
      ≡ false) where
  abbrev below : Option VmArea
  below = vma_find s.areas.root (word (s.brk + (2 ^ 64 - 1)))

  grow_longer :
      extends below s.brk ≡ true
      → grow_brk true brk s ≡ (
        brk,
        record s { areas = set_end (start_of below) (align_up brk page_size) s.areas; brk = brk },
      )
  unfolding grow_brk
  grow_longer e = rw (low, clear, e, grow_brk) refl

  grow_new :
      extends below s.brk ≡ false
      → grow_brk true brk s ≡ (
        brk,
        record s {
          areas = insert (heap_area (align_up s.brk page_size) (align_up brk page_size)) s.areas;
          brk = brk;
        },
      )
  unfolding grow_brk
  grow_new e = rw (low, clear, e, grow_brk) refl

sys_brk_up :
    (grants : List (Bool × Bool)) (brk : ℕ) (s : Space)
    → s.brk < brk
    → sys_brk true grants brk s ≡ some (grow_brk true brk s)
unfolding sys_brk
sys_brk_up grants brk s lt =
    let e : (brk == 0) ≡ false = ground (arith, lt) in
    let f : ltb s.brk brk ≡ true = ground (arith, lt) in rw (e, f, sys_brk) refl

no_file-none : (vn : Option ℕ) → no_file vn ≡ true → vn ≡ none
no_file-none none e = refl
no_file-none (some vn) e = absurd (ground (arith, e))

abbrev pub WholePages : VmArea → Type 0
WholePages v = v.end % page_size ≡ 0

module _ (grants : List (Bool × Bool)) (brk : ℕ) (s : Space) (xs : List VmArea)
    (holds : Holds s.areas xs) (disjoint : Disjoint xs) (up : s.brk < brk) where
  abbrev start : ℕ
  start = align_up s.brk page_size

  abbrev end : ℕ
  end = align_up brk page_size

  find : (a : ℕ) → vma_find s.areas.root a ≡ holding xs a
  find a =
      (search_list s.areas.root a (subst Disjoint (sym holds.0) disjoint)).0
      ∙ ap (λ ys. holding ys a) holds.0

  not_in_the_way :
      start < end
      → All (ApartFrom start end) xs
      → in_the_way (vma_find s.areas.root start) end s.brk ≡ false
  not_in_the_way size apart =
      ap (λ o. in_the_way o end s.brk) (find start) ∙ (elim (holding-cases xs start) [
        | inl e ↦ ap (λ o. in_the_way o end s.brk) e
        | inr (front, v, back, at, e, le, lt) ↦
            let (_, (clear, _)) =
              All-of-append (ApartFrom start end) front (v ∷ back)
                (subst (All (ApartFrom start end)) at apart) in
            absurd (elim clear [ inl h ↦ omega arith | inr h ↦ omega arith ])
      ])

  -- The area in front of the break ends there and is made longer.
  longer-Grown :
      (front back : List VmArea) (v : VmArea)
      → xs ≡ front ++ (v ∷ back)
      → v.end ≡ start
      → v.vn ≡ none
      → start < end
      → All (ApartFrom start end) xs
      → sys_brk true grants brk s
        ≡ some (brk, record s { areas = set_end v.start end s.areas; brk = brk })
      → Grown brk s xs (sys_brk true grants brk s)
  longer-Grown front back v at ends anonymous size apart call =
      let d : Disjoint (front ++ (v ∷ back)) = subst Disjoint at disjoint in
      let (low, _, (vsize, later, d')) = Disjoint-of-append front v back d in
      let (_, (_, clear)) =
        All-of-append (ApartFrom start end) front (v ∷ back)
          (subst (All (ApartFrom start end)) at apart) in
      let clear' : All (ApartFrom v.end end) back =
        subst (λ (x : ℕ). All (ApartFrom x end) back) (sym ends) clear in
      let far : All (StartsAt end) back = behind_apart v end back back d' later clear' in
      let v' : VmArea = record v { end = end } in
      let bigger : v.start < end = omega (arith, ends, vsize, size) in
      let d'' : Disjoint (front ++ (v' ∷ back)) =
        Disjoint-replace front back v (v' ∷ back) d (bigger, far, d')
          (
            omega arith,
            All-map (StartsAt v.end) (StartsAt v.start) (λ y h. omega arith) back later,
          ) in
      (
        record s { areas = set_end v.start end s.areas; brk = brk },
        call,
        refl,
        front ++ (v' ∷ back),
        Holds-set_end s.areas front back v end d (subst (Holds s.areas) at holds),
        d'',
        λ a.
            subst
              (λ (x : ℕ). HeapOr (leb x a && ltb a end) (view (front ++ (v' ∷ back)) a) (view xs a))
              ends
              (subst
                (λ ys.
                  HeapOr (leb v.end a && ltb a end) (view (front ++ (v' ∷ back)) a) (view ys a))
                (sym at)
                (longer-view v end back front a low vsize (omega (arith, ends, size)) anonymous)),
      )

  -- A new area
  new-Grown :
      start < end
      → All (ApartFrom start end) xs
      → sys_brk true grants brk s
        ≡ some (brk, record s { areas = insert (heap_area start end) s.areas; brk = brk })
      → Grown brk s xs (sys_brk true grants brk s)
  new-Grown size apart call =
      let v : VmArea = heap_area start end in
      let (ys, holds', d', same) = insert-Added v xs s holds disjoint size apart in
      (
        record s { areas = insert v s.areas; brk = brk },
        call,
        refl,
        ys,
        holds',
        d',
        λ a. elim (Bool-cases (leb start a && ltb a end)) [
          | inl e ↦
              subst (λ b. HeapOr b (view ys a) (view xs a)) (sym e)
                (
                  mapping v a,
                  same a ∙ ap (λ b. if b then some (mapping v a) else view xs a) e,
                  refl,
                )
          | inr e ↦
              subst (λ b. HeapOr b (view ys a) (view xs a)) (sym e)
                (same a ∙ ap (λ b. if b then some (mapping v a) else view xs a) e)
        ],
      )

-- `sys_brk` to a higher address, with memory for an area, on areas that do not overlap and end at
-- whole pages, none of which has an address of the new range, which is not empty and does not reach
-- over the top of the stack: the break is the one wanted, the range is mapped to memory without a
-- file, every other address to what it was, and the areas do not overlap.
pub sys_brk-Grown :
    (grants : List (Bool × Bool)) (brk : ℕ) (s : Space) (xs : List VmArea)
    → Holds s.areas xs
    → Disjoint xs
    → All WholePages xs
    → 0 < s.brk
    → s.brk < brk
    → brk + page_size ≤ 2 ^ 64
    → align_up s.brk page_size < align_up brk page_size
    → align_up brk page_size ≤ s.stack_top
    → All (ApartFrom (align_up s.brk page_size) (align_up brk page_size)) xs
    → Grown brk s xs (sys_brk true grants brk s)
sys_brk-Grown grants brk s xs holds disjoint whole pos up room size top apart =
    let low : ltb s.stack_top (align_up brk page_size) ≡ false = ground (arith, top) in
    let clear = not_in_the_way grants brk s xs holds disjoint up size apart in
    let a : ℕ = word (s.brk + (2 ^ 64 - 1)) in
    let found : vma_find s.areas.root a ≡ holding xs a = find grants brk s xs holds disjoint up a in
    let call : sys_brk true grants brk s ≡ some (grow_brk true brk s) =
      sys_brk_up grants brk s up in
    let fresh : extends (vma_find s.areas.root a) s.brk ≡ false
        → Grown brk s xs (sys_brk true grants brk s) =
      λ e.
        new-Grown grants brk s xs holds disjoint up size apart
          (call ∙ ap (λ r. some r) (grow_new brk s low clear e)) in
    elim (holding-cases xs a) [
      | inl e ↦ fresh (ap (λ o. extends o s.brk) (found ∙ e))
      | inr (front, v, back, at, e, le, lt) ↦ elim (Bool-cases (v.end == s.brk && no_file v.vn)) [
        | inr f ↦ fresh (ap (λ o. extends o s.brk) (found ∙ e) ∙ f)
        | inl f ↦
            let ends : v.end ≡ s.brk = ground (arith, f) in
            let anonymous : v.vn ≡ none = no_file-none v.vn (ground (arith, f)) in
            let aligned : WholePages v =
              (All-of-append WholePages front (v ∷ back) (subst (All WholePages) at whole)).1.0 in
            let starts : v.end ≡ align_up s.brk page_size =
              omega (arith, ends, aligned, up, room) in
            longer-Grown grants brk s xs holds disjoint up front back v at starts anonymous size
              apart
              (call
                ∙ ap (λ r. some r)
                    (grow_longer brk s low clear (ap (λ o. extends o s.brk) (found ∙ e) ∙ f))
                ∙ ap
                    (λ o. some (
                      brk,
                      record s {
                        areas = set_end (start_of o) (align_up brk page_size) s.areas;
                        brk = brk;
                      },
                    ))
                    (found ∙ e))
      ]
    ]
