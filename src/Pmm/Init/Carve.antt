-- ===== src/Pmm/Init/Carve.antt =====
-- The pages of one region of free memory, given to the allocator.
use mathlib.Core.Path.{subst}
use doppio.Prelude.{
  ℕ, zero, suc, ◌+◌, ◌-◌, ◌*◌, ◌/◌, ◌^◌, ◌<◌, ◌≤◌, ◌≡◌, refl, sym, ap, ◌∙◌, inl, inr, true, false,
  ◌&&◌, some, List, [], ◌∷◌, ltb, leb, if◌then◌else◌, Bool-cases, arith,
}
use doppio.Pmm.{max_order, page_size, Pmm, set_page, add_to_list, phys_to_page}
use doppio.Pmm.Blocks.{Aligned, size_positive}
use doppio.Pmm.Cover.{Block, hit}
use doppio.Pmm.Valid.{Fits, IsValid, block}
use doppio.Pmm.Merge.{Accounted-kept, Floating-Left}
use doppio.Pmm.Free.{free_blocks, Marked-Floating}
use doppio.Pmm.Init.{word, largest_order, limit_of, order_at, carve}
use doppio.Pmm.Init.Orders.{OrderFits, largest_order-OrderFits, hit_range}

-- A block of pages that are in no block, given to the allocator
abbrev pub give : ℕ → ℕ → Pmm → Pmm
give order page s =
    add_to_list order page
      (set_page s page (record (s.pages page) { is_free = true; order = order }))

give-IsValid :
    (s : Pmm) (o h : ℕ)
    → IsValid s []
    → Fits s o h
    → ((p : ℕ) → hit 0 p o h + free_blocks p s ≤ 1)
    → IsValid (give o h s) []
      × ((p : ℕ) → free_blocks p (give o h s) ≡ free_blocks p s + hit 0 p o h)
give-IsValid s o h (sound, apart, accurate, _) fits unused =
    let live : List Block = block h o ∷ [] in
    let held : IsValid s live = (
      sound,
      (λ p. omega (arith, unused p)),
      (λ x free.
          Accounted-kept s s [] live x refl (λ k on. on) (λ k. omega arith) (accurate x free)),
      (fits, tt),
    ) in
    let (fl, mk) = Marked-Floating s h o [] [] held in
    let s' : Pmm = set_page s h (record (s.pages h) { is_free = true; order = o }) in
    let (sound', apart', accurate', total, same) = Floating-Left s' h o [] fl mk in
    ((sound', apart', accurate', tt), λ p. omega (arith, same p))

-- A round of the loop, by its tests
module _ (n a0 a1 end curr : ℕ) (s : Pmm) where
  carve_end : ltb curr end ≡ false → carve (suc n) a0 a1 end curr s ≡ s
  unfolding carve
  carve_end e = rw (e, carve) refl

  carve_jump :
      ltb curr end ≡ true
      → (leb a0 curr && ltb curr a1) ≡ true
      → carve (suc n) a0 a1 end curr s ≡ carve n a0 a1 end a1 s
  unfolding carve
  carve_jump e f = rw (e, f, carve) refl

  carve-give :
      (page : ℕ)
      → ltb curr end ≡ true
      → (leb a0 curr && ltb curr a1) ≡ false
      → phys_to_page s.total_pages curr ≡ some page
      → carve (suc n) a0 a1 end curr s
        ≡ carve n a0 a1 end
            (word (curr + page_size * 2 ^ order_at a0 end curr))
            (give (order_at a0 end curr) page s)
  unfolding carve
  carve-give page e f g = rw (e, f, g, carve) refl

carve-zero : (a0 a1 end curr : ℕ) (s : Pmm) → carve zero a0 a1 end curr s ≡ s
unfolding carve
carve-zero a0 a1 end curr s = refl

-- The limit, in pages
abbrev limit_page : ℕ → ℕ → ℕ → ℕ
limit_page a e c = if ltb c a && ltb a e then a else e

limit_in_pages :
    (a e c : ℕ)
    → limit_of (a * page_size) (e * page_size) (c * page_size) - c * page_size
      ≡ (limit_page a e c - c) * page_size
limit_in_pages a e c = elim (Bool-cases (ltb c a && ltb a e)) [
  | inl f ↦
      let g : (ltb (c * page_size) (a * page_size) && ltb (a * page_size) (e * page_size)) ≡ true =
        ground (arith, f) in
      rw (g, f) (omega arith)
  | inr f ↦
      let g : (ltb (c * page_size) (a * page_size) && ltb (a * page_size) (e * page_size)) ≡ false =
        ground (arith, f) in
      rw (g, f) (omega arith)
]

order_in_pages :
    (a e c : ℕ)
    → order_at (a * page_size) (e * page_size) (c * page_size)
      ≡ largest_order ((limit_page a e c - c) * page_size) (c * page_size) max_order
order_in_pages a e c =
    ap (λ (r : ℕ). largest_order r (c * page_size) max_order) (limit_in_pages a e c)

-- 1 for a page from `c` on, before `e` and not from `a` on and before `b`
abbrev pub new_page : ℕ → ℕ → ℕ → ℕ → ℕ → ℕ
new_page a b c e p = if leb a p && ltb p b then 0 else if leb c p && ltb p e then 1 else 0

-- The block at a page outside of the array: it ends before the end, and before the array
order_fits :
    (a b e c : ℕ)
    → c < e
    → (leb a c && ltb c b) ≡ false
    → let o : ℕ = order_at (a * page_size) (e * page_size) (c * page_size) in
      (o < max_order)
      × Aligned o c
      × (c + 2 ^ o ≤ e)
      × ((p : ℕ) → hit 0 p o c + new_page a b (c + 2 ^ o) e p ≡ new_page a b c e p)
order_fits a b e c lt outside =
    let o : ℕ = order_at (a * page_size) (e * page_size) (c * page_size) in
    let room : 1 ≤ limit_page a e c - c = ground (arith, lt) in
    let (small, al, within) : OrderFits (limit_page a e c - c) c max_order o =
      subst (OrderFits (limit_page a e c - c) c max_order) (sym (order_in_pages a e c))
        (largest_order-OrderFits (limit_page a e c - c) c max_order room) in
    let reach : c + 2 ^ o ≤ limit_page a e c = omega (arith, within, room) in
    (
      omega (arith, small),
      al,
      before e a c (2 ^ o) reach lt,
      λ p. parts p (2 ^ o) (hit 0 p o c) reach (size_positive o) (hit_range o c p al),
    )
  where
    before : (e a c w : ℕ) → c + w ≤ limit_page a e c → c < e → c + w ≤ e
    before e a c w h lt = ground (arith, h, lt)

    parts :
        (p w x : ℕ)
        → c + w ≤ limit_page a e c
        → 0 < w
        → x ≡ (if leb c p && ltb p (c + w) then 1 else 0)
        → x + new_page a b (c + w) e p ≡ new_page a b c e p
    parts p w x h pos f = ground (arith, h, pos, f, lt, outside)

-- What the loop leaves: the pages from `c` on and before `e` that are not in the array are free, too.
abbrev pub Carved : ℕ → ℕ → ℕ → ℕ → Pmm → Pmm → Type 0
Carved a b e c s s' =
    IsValid s' []
    × (s'.total_pages ≡ s.total_pages)
    × ((p : ℕ) → free_blocks p s' ≡ free_blocks p s + new_page a b c e p)

Carved-end : (a b e c : ℕ) (s : Pmm) → e ≤ c → IsValid s [] → Carved a b e c s s
Carved-end a b e c s h valid = (valid, refl, λ p. ground (arith, none_new p))
  where
    none_new : (p : ℕ) → new_page a b c e p ≡ 0
    none_new p = ground (arith, h)

jumped : (a b e c p : ℕ) → (leb a c && ltb c b) ≡ true → new_page a b b e p ≡ new_page a b c e p
jumped a b e c p f = ground (arith, f)

give-Carved :
    (a b e c o : ℕ) (s s' : Pmm)
    → ((p : ℕ) → hit 0 p o c + new_page a b (c + 2 ^ o) e p ≡ new_page a b c e p)
    → ((p : ℕ) → free_blocks p (give o c s) ≡ free_blocks p s + hit 0 p o c)
    → Carved a b e (c + 2 ^ o) (give o c s) s'
    → Carved a b e c s s'
give-Carved a b e c o s s' parts more (valid, total, free) =
    (valid, total, λ p. omega (arith, free p, more p, parts p))

-- A round for each page is enough for the loop.
pub carve-Carved :
    (n a b e c : ℕ) (s : Pmm)
    → e ≤ n + c
    → e ≤ s.total_pages
    → e * page_size < 2 ^ 64
    → IsValid s []
    → ((p : ℕ) → free_blocks p s + new_page a b c e p ≤ 1)
    → Carved a b e c s (carve n (a * page_size) (b * page_size) (e * page_size) (c * page_size) s)
carve-Carved zero a b e c s rounds known small valid unused =
    subst (Carved a b e c s)
      (sym (carve-zero (a * page_size) (b * page_size) (e * page_size) (c * page_size) s))
      (Carved-end a b e c s (omega (arith, rounds)) valid)
carve-Carved (suc n) a b e c s rounds known small valid unused = elim (Bool-cases (ltb c e)) [
  | inr f ↦
      subst (Carved a b e c s)
        (sym (
          carve_end n (a * page_size) (b * page_size) (e * page_size) (c * page_size) s
            (ground (arith, f))))
        (Carved-end a b e c s (ground (arith, f)) valid)
  | inl f ↦
      let more : ltb (c * page_size) (e * page_size) ≡ true = ground (arith, f) in
      let lt : c < e = ground (arith, f) in
      elim (Bool-cases (leb a c && ltb c b)) [
        | inl g ↦
            let inside : (leb (a * page_size) (c * page_size)
                  && ltb (c * page_size) (b * page_size))
                ≡ true =
              ground (arith, g) in
            let later : e ≤ n + b = ground (arith, rounds, g) in
            let (valid', total, free) =
              carve-Carved n a b e b s later known small valid
                (λ p. omega (arith, unused p, jumped a b e c p g)) in
            subst (Carved a b e c s)
              (sym (
                carve_jump n (a * page_size) (b * page_size) (e * page_size) (c * page_size) s more
                  inside))
              (valid', total, λ p. omega (arith, free p, jumped a b e c p g))
        | inr g ↦
            let outside : (leb (a * page_size) (c * page_size)
                  && ltb (c * page_size) (b * page_size))
                ≡ false =
              ground (arith, g) in
            let o : ℕ = order_at (a * page_size) (e * page_size) (c * page_size) in
            let (low, al, reach, parts) = order_fits a b e c lt g in
            let there : phys_to_page s.total_pages (c * page_size) ≡ some c =
              page_at s.total_pages c (omega (arith, lt, known)) in
            let next : word (c * page_size + page_size * 2 ^ o) ≡ (c + 2 ^ o) * page_size =
              next_at c (2 ^ o) e reach small in
            let (valid', free) =
              give-IsValid s o c valid (low, al, omega (arith, reach, known))
                (λ p. omega (arith, unused p, parts p)) in
            let rest : Carved a b e (c + 2 ^ o) (give o c s) (
                carve n (a * page_size) (b * page_size) (e * page_size) ((c + 2 ^ o) * page_size)
                  (give o c s)) =
              carve-Carved n a b e (c + 2 ^ o) (give o c s) (omega (arith, rounds, size_positive o))
                known small valid' (λ p. omega (arith, unused p, parts p, free p)) in
            subst (Carved a b e c s)
              (sym (
                carve-give n (a * page_size) (b * page_size) (e * page_size) (c * page_size) s c
                  more outside there
                ∙ ap
                    (λ (x : ℕ).
                      carve n (a * page_size) (b * page_size) (e * page_size) x (give o c s))
                    next))
              (give-Carved a b e c o s
                (carve n (a * page_size) (b * page_size) (e * page_size) ((c + 2 ^ o) * page_size)
                  (give o c s))
                parts free rest)
      ]
]
  where
    page_at : (total c : ℕ) → c < total → phys_to_page total (c * page_size) ≡ some c
    page_at total c lt =
        let i : c * page_size / page_size ≡ c = omega arith in
        let j : leb total c ≡ false = ground (arith, lt) in rw (i, j) refl

    next_at :
        (c w e : ℕ)
        → c + w ≤ e
        → e * page_size < 2 ^ 64
        → word (c * page_size + page_size * w) ≡ (c + w) * page_size
    next_at c w e h small = omega arith
