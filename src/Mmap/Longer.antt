-- ===== src/Mmap/Longer.antt =====
-- An area that is made longer, and what the address space maps then.
use mathlib.Core.Path.{subst}
use doppio.Prelude.{
  ℕ, ◌<◌, ◌≤◌, ◌≡◌, sym, ap, ◌∙◌, inl, inr, Bool, true, false, ◌&&◌, Option, none, some, List, [],
  ◌∷◌, ◌++◌, ltb, leb, if◌then◌else◌, All, Bool-cases, arith,
}
use doppio.Vma.{VmArea}
use doppio.Vma.RbTree.InOrder.{Disjoint}
use doppio.Vma.Range.Places.{StartsAt}
use doppio.Vma.Range.View.{Mapping, mapping, view, view-cons}
use doppio.Mmap.Gap.{ApartFrom}

-- An address that is mapped to memory without a file
abbrev pub HeapPage : Option Mapping → Type 0
HeapPage o = (m : Mapping) × (o ≡ some m) × (m.vn ≡ none)

-- In the new range such memory, elsewhere what it was
abbrev pub HeapOr : Bool → Option Mapping → Option Mapping → Type 0
HeapOr true new old = HeapPage new
HeapOr false new old = new ≡ old

-- An area that is made longer, over addresses that no area has
module _ (v : VmArea) (end : ℕ) (back : List VmArea) where
  abbrev longer : VmArea
  longer = record v { end = end }

  pub behind_apart :
      (ys : List VmArea)
      → Disjoint ys
      → All (StartsAt v.end) ys
      → All (ApartFrom v.end end) ys
      → All (StartsAt end) ys
  behind_apart [] d h apart = tt
  behind_apart (y ∷ ys) (size, _, d) (le, h) (p, apart) =
      ((elim p [ inl e ↦ absurd (omega arith) | inr e ↦ e ]), behind_apart ys d h apart)

  pub longer-view :
      (front : List VmArea) (a : ℕ)
      → All (λ (x : VmArea). (x.start < x.end) × (x.end ≤ v.start)) front
      → v.start < v.end
      → v.end < end
      → v.vn ≡ none
      → HeapOr
          (leb v.end a && ltb a end)
          (view (front ++ (longer ∷ back)) a)
          (view (front ++ (v ∷ back)) a)
  longer-view [] a low size grows anonymous = elim (Bool-cases (leb v.end a && ltb a end)) [
    | inl e ↦
        let inside : (leb v.start a && ltb a end) ≡ true = ground (arith, e, size) in
        subst (λ b. HeapOr b (view (longer ∷ back) a) (view (v ∷ back) a)) (sym e)
          (
            mapping longer a,
            view-cons longer back a
                ∙ ap (λ b. if b then some (mapping longer a) else view back a) inside,
            anonymous,
          )
    | inr e ↦
        let same : (leb v.start a && ltb a end) ≡ (leb v.start a && ltb a v.end) =
          ground (arith, e, size, grows) in
        subst (λ b. HeapOr b (view (longer ∷ back) a) (view (v ∷ back) a)) (sym e)
          (view-cons longer back a
            ∙ ap (λ b. if b then some (mapping v a) else view back a) same
            ∙ sym (view-cons v back a))
  ]
  longer-view (x ∷ front) a ((xsize, le), low) size grows anonymous =
      let ih = longer-view front a low size grows anonymous in
      elim (Bool-cases (leb v.end a && ltb a end)) [
        | inl e ↦
            let past : (leb x.start a && ltb a x.end) ≡ false = ground (arith, e, le, size) in
            let (m, f, g) =
              subst
                (λ b. HeapOr b (view (front ++ (longer ∷ back)) a) (view (front ++ (v ∷ back)) a)) e
                ih in
            subst
              (λ b.
                HeapOr b (view (x ∷ (front ++ (longer ∷ back))) a)
                  (view (x ∷ (front ++ (v ∷ back))) a))
              (sym e)
              (
                m,
                view-cons x (front ++ (longer ∷ back)) a
                    ∙ ap (λ b. if b then some (mapping x a) else view (front ++ (longer ∷ back)) a)
                        past
                    ∙ f,
                g,
              )
        | inr e ↦
            let f : view (front ++ (longer ∷ back)) a ≡ view (front ++ (v ∷ back)) a =
              subst
                (λ b. HeapOr b (view (front ++ (longer ∷ back)) a) (view (front ++ (v ∷ back)) a)) e
                ih in
            subst
              (λ b.
                HeapOr b (view (x ∷ (front ++ (longer ∷ back))) a)
                  (view (x ∷ (front ++ (v ∷ back))) a))
              (sym e)
              (view-cons x (front ++ (longer ∷ back)) a
                ∙ ap (λ o. if leb x.start a && ltb a x.end then some (mapping x a) else o) f
                ∙ sym (view-cons x (front ++ (v ∷ back)) a))
      ]
