-- ===== src/Pmm/Tests.antt =====
-- An allocator of eight pages: four are handed out.
use mathlib.Core.Path.{subst}
use doppio.Pmm.Blocks.{Aligned}
use doppio.Prelude.{
  ℕ, suc, ◌+◌, ◌≡◌, ◌≤◌, ◌<◌, ◌⊎◌, refl, sym, inl, inr, Bool, true, false, some, List, [], ◌∷◌,
  ◌==◌, if◌then◌else◌, Bool-cases, arith,
}
use doppio.Pmm.{max_order, Page, Pmm, set_at, pmm_alloc_pages, pmm_free_pages}
use doppio.Pmm.Cover.{Block, hit, OnList, cover}
use doppio.Pmm.Valid.{IsValid, block, Fits, ListsSound, Apart}
use doppio.Pmm.Alloc.{Allocated, pmm_alloc_pages-Allocated}
use doppio.Pmm.Free.{free_blocks, pmm_free_pages-IsValid}
use doppio.Pmm.Flow.{Reaches, begin, by_alloc, by_free, Keeps, Reaches-Keeps}

abbrev half_used : Pmm
half_used = record {
  free_lists = set_at (λ n. []) 2 (4 ∷ []);
  pages =
      set_at (λ n. record { is_free = false; order = 2; ref_count = 1 }) 4
        (record { is_free = true; order = 2; ref_count = 0 });
  total_pages = 8;
}

abbrev held : List Block
held = block 0 2 ∷ []

the_list : (order head : ℕ) → OnList head (half_used.free_lists order) → (order ≡ 2) × (head ≡ 4)
the_list order head on = elim (Bool-cases (order == 2)) [
  | inl e ↦
      (ground arith, the_one (subst (λ (b : Bool). OnList head (if b then 4 ∷ [] else [])) e on))
  | inr e ↦ absurd (subst (λ (b : Bool). OnList head (if b then 4 ∷ [] else [])) e on)
]
  where
    the_one : (head ≡ 4) ⊎ ⊥ → head ≡ 4
    the_one (inl e) = e
    the_one (inr none_there) = absurd none_there

half_used-ListsSound : ListsSound half_used
half_used-ListsSound order head lt on =
    let (e, f) = the_list order head on in
    subst
      (λ (o : ℕ).
        ((half_used.pages head).is_free ≡ true)
        × ((half_used.pages head).order ≡ o)
        × Fits half_used o head)
      (sym e)
      (subst
        (λ (h : ℕ).
          ((half_used.pages h).is_free ≡ true)
          × ((half_used.pages h).order ≡ 2)
          × Fits half_used 2 h)
        (sym f) (refl, refl, (omega arith, refl, omega arith)))

half_used-Apart : Apart half_used held
half_used-Apart page = ground arith

free_page : (x : ℕ) → (half_used.pages x).is_free ≡ true → x ≡ 4
free_page x e = ground arith

half_used-IsValid : IsValid half_used held
half_used-IsValid = (
  half_used-ListsSound,
  half_used-Apart,
  (λ x free.
      subst
        (λ (y : ℕ).
          ((half_used.pages y).order < max_order)
          × Aligned (half_used.pages y).order y
          × (OnList y (half_used.free_lists (half_used.pages y).order)
              ⊎ (1 ≤ cover (suc (half_used.pages y).order) y half_used held)))
        (sym (free_page x free)) (omega arith, refl, inl (inl refl))),
  ((omega arith, refl, omega arith), tt),
)

-- One page is cut off the free block.
alloc_one : (pmm_alloc_pages 0 half_used).0 ≡ some 4
unfolding pmm_alloc_pages doppio.Pmm.find_block
alloc_one = refl

pmm_alloc_pages-Allocated_example : Allocated 0 half_used held (pmm_alloc_pages 0 half_used)
pmm_alloc_pages-Allocated_example = pmm_alloc_pages-Allocated 0 half_used held half_used-IsValid

-- The block merges with the free one.
all_free : (pmm_free_pages 0 2 half_used).free_lists 3 ≡ 0 ∷ []
unfolding pmm_free_pages doppio.Pmm.merge_block doppio.Pmm.get_buddy
all_free = refl

free_again :
    IsValid (pmm_free_pages 0 2 half_used) []
    × ((p : ℕ)
        → free_blocks p (pmm_free_pages 0 2 half_used) ≡ free_blocks p half_used + hit 0 p 2 0)
free_again = pmm_free_pages-IsValid half_used 0 2 [] [] half_used-IsValid

two_calls :
    Reaches half_used held (pmm_free_pages 0 2 (pmm_alloc_pages 0 half_used).1) (block 4 0 ∷ [])
unfolding pmm_alloc_pages doppio.Pmm.find_block
two_calls =
    by_free (pmm_alloc_pages 0 half_used).1 (block 4 0 ∷ []) [] 2 0
      (by_alloc half_used (pmm_alloc_pages 0 half_used).1 held 0 4 begin refl)

Reaches-Keeps_example :
    Keeps half_used held (pmm_free_pages 0 2 (pmm_alloc_pages 0 half_used).1) (block 4 0 ∷ [])
Reaches-Keeps_example =
    Reaches-Keeps half_used held (pmm_free_pages 0 2 (pmm_alloc_pages 0 half_used).1)
      (block 4 0 ∷ []) two_calls half_used-IsValid
