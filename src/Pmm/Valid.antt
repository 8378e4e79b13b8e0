-- ===== src/Pmm/Valid.antt =====
-- What holds of the allocator between two calls, and inside of one.
use mathlib.Core.Path.{subst}
use doppio.Prelude.{
  ℕ, suc, ◌+◌, ◌^◌, ◌<◌, ◌≤◌, ◌≡◌, ◌≢◌, refl, sym, ◌∙◌, ◌⊎◌, inl, inr, true, false, List, [], ◌∷◌,
  ◌==◌, All, Bool-cases, arith,
}
use doppio.Pmm.{max_order, Page, Pmm, set_at, set_page, add_to_list, without, remove_from_list}
use doppio.Pmm.Blocks.{Aligned}
use doppio.Pmm.Cover.{
  Block, OnList, hits-without, free_cover-on, free_cover, free_cover-set, live_cover, cover,
}

-- A block lies in the memory, at a page whose number is a multiple of its size.
abbrev pub Fits : Pmm → ℕ → ℕ → Type 0
Fits s order head = (order < max_order) × Aligned order head × (head + 2 ^ order ≤ s.total_pages)

-- Every block on a free list fits, and its first page says what it is.
abbrev pub ListsSound : Pmm → Type 0
ListsSound s =
    (order head : ℕ)
    → order < max_order
    → OnList head (s.free_lists order)
    → ((s.pages head).is_free ≡ true) × ((s.pages head).order ≡ order) × Fits s order head

-- No page is in two blocks, free or handed out.
abbrev pub Apart : Pmm → List Block → Type 0
Apart s live = (page : ℕ) → cover 0 page s live ≤ 1

-- A page that says it begins a free block does, or lies in a block of a higher order.
abbrev pub Accounted : Pmm → List Block → ℕ → Type 0
Accounted s live page =
    let order : ℕ = (s.pages page).order in
    (order < max_order)
    × Aligned order page
    × (OnList page (s.free_lists order) ⊎ (1 ≤ cover (suc order) page s live))

abbrev pub Accurate : Pmm → List Block → Type 0
Accurate s live = (page : ℕ) → (s.pages page).is_free ≡ true → Accounted s live page

abbrev pub IsValid : Pmm → List Block → Type 0
IsValid s live =
    ListsSound s × Apart s live × Accurate s live × All (λ (b : Block). Fits s b.order b.head) live

-- Inside of a call one block is in the hands of the allocator; its first page need not be right.
abbrev pub AccurateBut : ℕ → Pmm → List Block → Type 0
AccurateBut x s live = (page : ℕ) → page ≢ x → (s.pages page).is_free ≡ true → Accounted s live page

abbrev pub block : ℕ → ℕ → Block
block head order = record { head = head; order = order }

abbrev pub Floating : Pmm → ℕ → ℕ → List Block → Type 0
Floating s head order live =
    Fits s order head
    × ListsSound s
    × Apart s (block head order ∷ live)
    × AccurateBut head s (block head order ∷ live)

pub without-OnList : (x y : ℕ) (xs : List ℕ) → OnList x (without y xs) → OnList x xs
without-OnList x y [] h = h
without-OnList x y (z ∷ zs) h = elim (Bool-cases (z == y)) [
  | inl e ↦ inr (subst (λ ys. OnList x ys) (the_rest e) h)
  | inr e ↦ keep (without-OnList x y zs) (subst (λ ys. OnList x ys) (the_same e) h)
]
  where
    the_rest : (z == y) ≡ true → without y (z ∷ zs) ≡ zs
    the_rest e = rw e refl

    the_same : (z == y) ≡ false → without y (z ∷ zs) ≡ z ∷ without y zs
    the_same e = rw e refl

    keep :
        (OnList x (without y zs) → OnList x zs)
        → (x ≡ z) ⊎ OnList x (without y zs)
        → (x ≡ z) ⊎ OnList x zs
    keep rest (inl e) = inl e
    keep rest (inr on) = inr (rest on)

pub OnList-without : (x y : ℕ) (xs : List ℕ) → x ≢ y → OnList x xs → OnList x (without y xs)
OnList-without x y [] ne h = h
OnList-without x y (z ∷ zs) ne h = elim (Bool-cases (z == y)) [
  | inl e ↦ rw e (other h (ground arith))
  | inr e ↦ rw e (keep (OnList-without x y zs ne) h)
]
  where
    other : (x ≡ z) ⊎ OnList x zs → z ≡ y → OnList x zs
    other (inl f) g = absurd (ne (f ∙ g))
    other (inr on) g = on

    keep :
        (OnList x zs → OnList x (without y zs))
        → (x ≡ z) ⊎ OnList x zs
        → (x ≡ z) ⊎ OnList x (without y zs)
    keep rest (inl f) = inl f
    keep rest (inr on) = inr (rest on)

-- An index of an array that is written, and the others
module _ {ℓ} {A : Type ℓ} (f : ℕ → A) (i : ℕ) (v : A) where
  pub set_at-here : (j : ℕ) → j ≡ i → set_at f i v j ≡ v
  set_at-here j e = let h : (j == i) ≡ true = ground arith in rw h refl

  pub set_at-there : (j : ℕ) → j ≢ i → set_at f i v j ≡ f j
  set_at-there j ne = let h : (j == i) ≡ false = ground arith in rw h refl

-- A block that is taken from its list, and one that is put on it
pub cover-remove :
    (k p i x : ℕ) (s : Pmm) (live : List Block)
    → i < max_order
    → OnList x (s.free_lists i)
    → cover k p (remove_from_list i x s) (block x i ∷ live) ≡ cover k p s live
cover-remove k p i x s live h on = omega (
  arith,
  free_cover-set k p i s.free_lists (without x (s.free_lists i)) max_order h,
  hits-without k p i x (s.free_lists i) on,
)

pub cover-add :
    (k p i x : ℕ) (s : Pmm) (live : List Block)
    → i < max_order
    → cover k p (add_to_list i x s) live ≡ cover k p s (block x i ∷ live)
cover-add k p i x s live h =
    omega (arith, free_cover-set k p i s.free_lists (x ∷ s.free_lists i) max_order h)

-- A page that is in a block handed out is on no free list.
pub not_on :
    (s : Pmm) (live : List Block) (x o : ℕ)
    → Apart s live
    → 1 ≤ live_cover 0 x live
    → o < max_order
    → OnList x (s.free_lists o)
    → ⊥
not_on s live x o apart held lt on =
    let free : 1 ≤ free_cover 0 x s.free_lists max_order =
      free_cover-on 0 o x s.free_lists max_order (omega arith) lt on in
    omega (arith, apart x, held, free)

pub set_page-ListsSound :
    (s : Pmm) (live : List Block) (x : ℕ) (v : Page)
    → Apart s live
    → 1 ≤ live_cover 0 x live
    → ListsSound s
    → ListsSound (set_page s x v)
set_page-ListsSound s live x v apart held sound o h lt on = elim (Bool-cases (h == x)) [
  | inl e ↦
      let same : h ≡ x = ground arith in
      absurd
        (not_on s live x o apart held lt (subst (λ (y : ℕ). OnList y (s.free_lists o)) same on))
  | inr e ↦ rw e (sound o h lt on)
]

pub remove-ListsSound : (s : Pmm) (i x : ℕ) → ListsSound s → ListsSound (remove_from_list i x s)
remove-ListsSound s i x sound o h lt on = elim (Bool-cases (o == i)) [
  | inl e ↦
      let same : o ≡ i = ground arith in
      let on_i : OnList h (without x (s.free_lists i)) =
        subst (λ ys. OnList h ys) (set_at-here s.free_lists i (without x (s.free_lists i)) o same)
          on in
      sound o h lt (
        subst (λ (j : ℕ). OnList h (s.free_lists j)) (sym same)
          (without-OnList h x (s.free_lists i) on_i))
  | inr e ↦ sound o h lt (
      subst (λ ys. OnList h ys)
        (set_at-there s.free_lists i (without x (s.free_lists i)) o (λ f. ground arith)) on)
]

pub add-ListsSound :
    (s : Pmm) (i x : ℕ)
    → (s.pages x).is_free ≡ true
    → (s.pages x).order ≡ i
    → Fits s i x
    → ListsSound s
    → ListsSound (add_to_list i x s)
add-ListsSound s i x f g fits sound o h lt on = elim (Bool-cases (o == i)) [
  | inl e ↦
      let same : o ≡ i = ground arith in
      put same
        (subst (λ ys. OnList h ys) (set_at-here s.free_lists i (x ∷ s.free_lists i) o same) on)
  | inr e ↦ sound o h lt (
      subst (λ ys. OnList h ys)
        (set_at-there s.free_lists i (x ∷ s.free_lists i) o (λ f. ground arith)) on)
]
  where
    put :
        o ≡ i
        → (h ≡ x) ⊎ OnList h (s.free_lists i)
        → ((s.pages h).is_free ≡ true) × ((s.pages h).order ≡ o) × Fits s o h
    put same (inl e) =
        subst (λ (y : ℕ). ((s.pages y).is_free ≡ true) × ((s.pages y).order ≡ o) × Fits s o y)
          (sym e) (f, g ∙ sym same, subst (λ (j : ℕ). Fits s j x) (sym same) fits)
    put same (inr on') = sound o h lt (subst (λ (j : ℕ). OnList h (s.free_lists j)) (sym same) on')

-- Other pages stay on their lists.
pub OnList-remove :
    (s : Pmm) (i x o h : ℕ)
    → h ≢ x
    → OnList h (s.free_lists o)
    → OnList h ((remove_from_list i x s).free_lists o)
OnList-remove s i x o h ne on = elim (Bool-cases (o == i)) [
  | inl e ↦
      let same : o ≡ i = ground arith in
      rw e (
        OnList-without h x (s.free_lists i) ne
          (subst (λ (j : ℕ). OnList h (s.free_lists j)) same on))
  | inr e ↦ rw e on
]

pub OnList-add :
    (s : Pmm) (i x o h : ℕ)
    → OnList h (s.free_lists o)
    → OnList h ((add_to_list i x s).free_lists o)
OnList-add s i x o h on = elim (Bool-cases (o == i)) [
  | inl e ↦
      let same : o ≡ i = ground arith in
      rw e (inr (subst (λ (j : ℕ). OnList h (s.free_lists j)) same on))
  | inr e ↦ rw e on
]

pub added-OnList : (s : Pmm) (i x : ℕ) → OnList x ((add_to_list i x s).free_lists i)
added-OnList s i x = let e : (i == i) ≡ true = ground arith in rw e (inl refl)
