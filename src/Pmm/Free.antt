-- ===== src/Pmm/Free.antt =====
-- Freeing a block.
use mathlib.Core.Path.{subst}
use doppio.Prelude.{
  ℕ, ◌+◌, ◌-◌, ◌^◌, ◌<◌, ◌≤◌, ◌≡◌, refl, sym, ap, ◌∙◌, true, List, ◌∷◌, ◌++◌, All-map, All-append,
  All-of-append, arith,
}
use doppio.Pmm.{max_order, Page, Pmm, set_at, set_page, pmm_free_pages}
use doppio.Pmm.Cover.{Block, hit, live_cover, free_cover, cover, live_cover-append, hit_self}
use doppio.Pmm.Valid.{
  Fits, Apart, IsValid, block, Floating, set_at-here, set_at-there, set_page-ListsSound,
}
use doppio.Pmm.Merge.{Accounted-kept, merge-Left, Marked}

-- A block among those handed out, in front of the others
cover-front :
    (k p : ℕ) (s : Pmm) (xs ys : List Block) (b : Block)
    → cover k p s (xs ++ (b ∷ ys)) ≡ cover k p s (b ∷ (xs ++ ys))
cover-front k p s xs ys b =
    omega (arith, live_cover-append k p xs (b ∷ ys), live_cover-append k p xs ys)

-- How many free blocks a page is in
abbrev pub free_blocks : ℕ → Pmm → ℕ
free_blocks p s = free_cover 0 p s.free_lists max_order

abbrev FitsOf : Pmm → Block → Type 0
FitsOf s b = Fits s b.order b.head

-- The block as `pmm_free_pages` begins
pub Marked-Floating :
    (s : Pmm) (h o : ℕ) (xs ys : List Block)
    → IsValid s (xs ++ (block h o ∷ ys))
    → let s' : Pmm = set_page s h (record (s.pages h) { is_free = true; order = o }) in
      Floating s' h o (xs ++ ys) × Marked s' o h
Marked-Floating s h o xs ys (sound, apart, accurate, fits) =
    let v : Page = record (s.pages h) { is_free = true; order = o } in
    let b : Block = block h o in
    let here : set_at s.pages h v h ≡ v = set_at-here s.pages h v h refl in
    let apart' : Apart s (b ∷ (xs ++ ys)) =
      λ p. omega (arith, apart p, cover-front 0 p s xs ys b) in
    let held : 1 ≤ live_cover 0 h (b ∷ (xs ++ ys)) = omega (arith, hit_self 0 o h (omega arith)) in
    (
      (
        (All-of-append (FitsOf s) xs (b ∷ ys) fits).1.0,
        set_page-ListsSound s (b ∷ (xs ++ ys)) h v apart' held sound,
        apart',
        λ x ne free.
            let same : set_at s.pages h v x ≡ s.pages x = set_at-there s.pages h v x ne in
            Accounted-kept s (set_page s h v) (xs ++ (b ∷ ys)) (b ∷ (xs ++ ys)) x same (λ k on. on)
              (λ k. omega (arith, cover-front k x s xs ys b))
              (accurate x (ap (λ (w : Page). w.is_free) (sym same) ∙ free)),
      ),
      (ap (λ (w : Page). w.is_free) here, ap (λ (w : Page). w.order) here),
    )

-- Freeing a block that was handed out, on a valid allocator: it is valid without the block, and
-- the free blocks have its pages and those that they had before, each page once.
pub pmm_free_pages-IsValid :
    (s : Pmm) (h o : ℕ) (xs ys : List Block)
    → IsValid s (xs ++ (block h o ∷ ys))
    → let s' : Pmm = pmm_free_pages h o s in
      IsValid s' (xs ++ ys) × ((p : ℕ) → free_blocks p s' ≡ free_blocks p s + hit 0 p o h)
unfolding pmm_free_pages
pmm_free_pages-IsValid s h o xs ys valid =
    let b : Block = block h o in
    let s1 : Pmm = set_page s h (record (s.pages h) { is_free = true; order = o }) in
    let (fl, mk) = Marked-Floating s h o xs ys valid in
    let small : o < max_order = fl.0.0 in
    let (sound, apart, accurate, total, same) =
      merge-Left (max_order - 1 - o) h o s1 (xs ++ ys) (omega arith) fl mk in
    let (before, (_, behind)) = All-of-append (FitsOf s) xs (b ∷ ys) valid.3 in
    let still : (c : Block) → FitsOf s c → FitsOf (pmm_free_pages h o s) c =
      λ c f. (f.0, f.1, subst (λ (t : ℕ). c.head + 2 ^ c.order ≤ t) (sym total) f.2) in
    (
      (
        sound,
        apart,
        accurate,
        All-map (FitsOf s) (FitsOf (pmm_free_pages h o s)) still (xs ++ ys)
            (All-append (FitsOf s) xs ys before behind),
      ),
      λ p. omega (arith, same p),
    )
