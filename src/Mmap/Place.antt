-- ===== src/Mmap/Place.antt =====
-- What a mapping without a wanted address does to the address space.
use mathlib.Core.Path.{subst}
use doppio.Prelude.{
  ℕ, ◌+◌, ◌%◌, ◌<◌, ◌≤◌, ◌≡◌, refl, sym, ap, ◌∙◌, ◌⊎◌, Bool, true, false, ◌&&◌, Option, some, List,
  [], ◌∷◌, ◌++◌, ltb, leb, if◌then◌else◌, All, All-append, All-of-append, arith,
}
use doppio.Errno.{Result, ok, err, enomem}
use doppio.Vma.{VmArea}
use doppio.Vma.RbTree.InOrder.{Disjoint}
use doppio.Vma.RbTree.Insert.{insert_sorted-place}
use doppio.Vma.Range.{insert}
use doppio.Vma.Range.Places.{Holds, Holds-insert}
use doppio.Vma.Range.View.{Mapping, mapping, view, view-cons}
use doppio.Pmm.{page_size}
use doppio.Pmm.Init.{word, align_up}
use doppio.Mmap.{Space, mmap_floor, new_area, settle}
use doppio.Mmap.Gap.{ApartFrom, IsGap}
use doppio.Mmap.Search.{NoGap}

abbrev in_area : VmArea → ℕ → Bool
in_area v a = leb v.start a && ltb a v.end

-- An area among areas that it is apart from
inserted_Disjoint :
    (front back : List VmArea) (v : VmArea)
    → Disjoint (front ++ back)
    → All (λ (x : VmArea). x.end ≤ v.start) front
    → All (λ (x : VmArea). v.end ≤ x.start) back
    → v.start < v.end
    → Disjoint (front ++ (v ∷ back))
inserted_Disjoint [] back v d low high size = (size, high, d)
inserted_Disjoint (x ∷ front) back v (xsize, later, d) (le, low) high size =
    let (near, far) = All-of-append (λ (y : VmArea). x.end ≤ y.start) front back later in
    (
      xsize,
      All-append (λ (y : VmArea). x.end ≤ y.start) front (v ∷ back) near (le, far),
      inserted_Disjoint front back v d low high size,
    )

inserted_view :
    (front back : List VmArea) (v : VmArea) (a : ℕ)
    → All (λ (x : VmArea). x.end ≤ v.start) front
    → view (front ++ (v ∷ back)) a
      ≡ (if in_area v a then some (mapping v a) else view (front ++ back) a)
inserted_view [] back v a low = view-cons v back a
inserted_view (x ∷ front) back v a (le, low) =
    view-cons x (front ++ (v ∷ back)) a
    ∙ ap (λ o. if in_area x a then some (mapping x a) else o) (inserted_view front back v a low)
    ∙ swap (in_area x a) (in_area v a) (some (mapping x a)) (some (mapping v a))
        (view (front ++ back) a) (λ e. ground (arith, e, le))
    ∙ ap (λ o. if in_area v a then some (mapping v a) else o) (sym (view-cons x (front ++ back) a))
  where
    swap :
        (b c : Bool) (p q r : Option Mapping)
        → (b ≡ true → c ≡ false)
        → (if b then p else if c then q else r) ≡ (if c then q else if b then p else r)
    swap false c p q r h = refl
    swap true c p q r h = rw (h refl) refl

-- What the address space maps after an area is added
abbrev pub Added : VmArea → List VmArea → Space → Type 0
Added v xs s =
    (ys : List VmArea) × Holds s.areas ys
    × Disjoint ys
    × ((a : ℕ)
        → view ys a ≡ (if leb v.start a && ltb a v.end then some (mapping v a) else view xs a))

pub insert-Added :
    (v : VmArea) (xs : List VmArea) (s : Space)
    → Holds s.areas xs
    → Disjoint xs
    → v.start < v.end
    → All (ApartFrom v.start v.end) xs
    → Added v xs (record s { areas = insert v s.areas })
insert-Added v xs s h d size apart =
    let (front, back, at, put, low, high) = insert_sorted-place v xs d apart size in
    (
      front ++ (v ∷ back),
      subst (Holds (insert v s.areas)) put (Holds-insert s.areas xs v d h),
      inserted_Disjoint front back v (subst Disjoint at d) low high size,
      λ a.
          inserted_view front back v a low
          ∙ ap (λ zs. if in_area v a then some (mapping v a) else view zs a) (sym at),
    )

-- What `mmap_anywhere` answers, by whether there is memory for the area
abbrev pub Answered : Bool → ℕ → VmArea → Space → List VmArea → Result ℕ × Space → Type 0
Answered false addr v s xs out = out ≡ (err enomem, s)
Answered true addr v s xs (r, s') = (r ≡ ok addr) × (s'.mmap_base ≡ s.mmap_base) × Added v xs s'

-- The address is the lowest gap from `mmap_floor` on and below `p_mmap_base`, or there is none.
abbrev pub Placed :
    Bool
    → (ℕ → Bool)
    → ℕ
    → ℕ
    → Option ℕ
    → ℕ
    → Space
    → List VmArea
    → Option (Result ℕ × Space)
    → Type 0
Placed granted mapped length flags vn offset s xs out =
    let len : ℕ = align_up length page_size in
    ((addr : ℕ) × (r : Result ℕ × Space) × (out ≡ some r)
      × (addr % page_size ≡ 0)
      × (mmap_floor ≤ addr)
      × (addr < s.mmap_base)
      × IsGap mapped xs len addr
      × NoGap mapped xs len mmap_floor addr
      × Answered granted addr (new_area addr length flags vn offset) s xs r)
    ⊎ (NoGap mapped xs len mmap_floor s.mmap_base
        × (out
            ≡ some (
                settle granted s.mmap_base length flags vn offset
                  (record s { mmap_base = word (s.mmap_base + len) }))))

module _ (granted : Bool) (rounds : ℕ) (mapped : ℕ → Bool) (length flags : ℕ) (vn : Option ℕ)
    (offset : ℕ) (s : Space) where
  abbrev pages : ℕ
  pages = align_up length page_size
