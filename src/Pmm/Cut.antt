-- ===== src/Pmm/Cut.antt =====
-- Allocating a block: the cuts.
use mathlib.Core.Path.{subst}
use native.Mathlib.Nat.{pow-suc}
use doppio.Prelude.{
  ℕ, zero, suc, ◌+◌, ◌/◌, ◌%◌, ◌^◌, ◌<◌, ◌≤◌, ◌≡◌, ◌≢◌, refl, sym, ap, ◌∙◌, ◌⊎◌, inl, inr, true,
  false, some, List, ◌∷◌, leb, ◌==◌, Bool-cases, arith,
}
use doppio.Pmm.{max_order, Page, Pmm, set_at, set_page, add_to_list, get_buddy, split_block}
use doppio.Pmm.Blocks.{
  block_of, size_positive, block_of-suc, Aligned, Aligned-first, Aligned-half, other_half,
  get_buddy_lem, lower_other,
}
use doppio.Pmm.Cover.{Block, OnList, hit, live_cover, cover, Halves, hit_halves, hit_above, hit_in}
use doppio.Pmm.Valid.{
  Accounted, block, Floating, set_at-here, set_at-there, cover-add, set_page-ListsSound,
  add-ListsSound, OnList-add, added-OnList,
}

-- A cut of a block: the upper half goes on its list.
abbrev cut_at : Pmm → ℕ → ℕ → Pmm
cut_at s upper c =
    add_to_list c upper (set_page s upper (record (s.pages upper) { is_free = true; order = c }))

module _ (s : Pmm) (h c : ℕ) (live : List Block) (floating : Floating s h (suc c) live) where
  abbrev upper : ℕ
  upper = h + 2 ^ c

  abbrev cut : Pmm
  cut = cut_at s upper c

  half : Aligned c h × (block_of c h % 2 ≡ 0)
  half = Aligned-half c h floating.0.1

  upper_is : (other_half c h ≡ upper) × (block_of c upper ≡ block_of c h + 1) × Aligned c upper
  upper_is =
      let (e, f, a) = lower_other c h half.0 half.1 in
      (e, subst (λ (q : ℕ). block_of c q ≡ block_of c h + 1) e f, subst (Aligned c) e a)

  halves : Halves c h upper h
  halves = (block_of-suc c h, inl (upper_is.1, half.1))

  upper_room : upper + 2 ^ c ≤ s.total_pages
  upper_room = omega (arith, floating.0.2, pow-suc 2 c)

  buddy : get_buddy s.total_pages h c ≡ some upper
  buddy =
      let e : leb s.total_pages (other_half c h) ≡ false =
        ground (arith, upper_room, upper_is.0, size_positive c) in
      get_buddy_lem s.total_pages h c ∙ rw e (ap some upper_is.0)

  held : 1 ≤ live_cover 0 upper (block h (suc c) ∷ live)
  held =
      let in_block : block_of (suc c) upper ≡ block_of (suc c) h =
        omega (arith, block_of-suc c upper, block_of-suc c h, upper_is.1, half.1) in
      omega (arith, hit_in 0 upper (suc c) h (omega arith) in_block)

  low : c < max_order
  low = omega (arith, floating.0.0)

  -- Up to the order of the halves, no page is in more or fewer blocks.
  cut-cover :
      (k p : ℕ) → k ≤ c → cover k p cut (block h c ∷ live) ≡ cover k p s (block h (suc c) ∷ live)
  cut-cover k p le = omega (
    arith,
    cover-add k p c upper (set_page s upper (record (s.pages upper) { is_free = true; order = c }))
        (block h c ∷ live) low,
    hit_halves k p c h upper h halves le,
  )

  -- A page that says it begins a block of the order of the whole or a higher one is not in the whole.
  outside : (k x : ℕ) → x ≢ h → x ≢ upper → Aligned k x → c ≤ k → hit (suc k) x (suc c) h ≡ 0
  outside k x ne other a le = elim (Bool-cases (leb (suc k) (suc c))) [
    | inr f ↦ hit_above (suc k) x (suc c) h (ground arith)
    | inl f ↦
        let is_c : k ≡ c = ground arith in
        let ac : Aligned c x = subst (λ (o : ℕ). Aligned o x) is_c a in
        elim (Bool-cases (block_of (suc c) x == block_of (suc c) h)) [
          | inr g ↦ rw (g, f) refl
          | inl g ↦
              let same : block_of c x / 2 ≡ block_of c h / 2 =
                sym (block_of-suc c x) ∙ ground (arith, g) ∙ block_of-suc c h in
              absurd (elim (which_half (block_of c x) (block_of c h) same half.1) [
                | inl e ↦ ne (Aligned-first c x h ac half.0 e)
                | inr e ↦ other (Aligned-first c x upper ac upper_is.2 (e ∙ sym upper_is.1))
              ])
        ]
  ]
    where
      which_half : (m n : ℕ) → m / 2 ≡ n / 2 → n % 2 ≡ 0 → (m ≡ n) ⊎ (m ≡ n + 1)
      which_half m n e f = ground (arith, e, f)

  stays :
      (x k : ℕ)
      → x ≢ h
      → x ≢ upper
      → Aligned k x
      → OnList x (s.free_lists k) ⊎ (1 ≤ cover (suc k) x s (block h (suc c) ∷ live))
      → OnList x (cut.free_lists k) ⊎ (1 ≤ cover (suc k) x cut (block h c ∷ live))
  stays x k ne other a (inl on) = inl (
      OnList-add (set_page s upper (record (s.pages upper) { is_free = true; order = c })) c upper k
        x on)
  stays x k ne other a (inr around) = elim (Bool-cases (leb (suc k) c)) [
    | inl f ↦ inr (omega (arith, around, cut-cover (suc k) x (ground arith)))
    | inr f ↦
        let out : hit (suc k) x (suc c) h ≡ 0 = outside k x ne other a (ground arith) in
        inr (
          omega (
            arith,
            around,
            out,
            cover-add (suc k) x c upper
                (set_page s upper (record (s.pages upper) { is_free = true; order = c }))
                (block h c ∷ live) low,
          ))
  ]

  cut-Accounted :
      (x : ℕ) → x ≢ h → (cut.pages x).is_free ≡ true → Accounted cut (block h c ∷ live) x
  cut-Accounted x ne free = elim (Bool-cases (x == upper)) [
    | inl e ↦
        let at : x ≡ upper = ground arith in
        let here : (cut.pages x).order ≡ c =
          ap (λ (w : Page). w.order) (set_at-here s.pages upper v x at) in
        subst
          (λ (k : ℕ).
            (k < max_order)
            × Aligned k x
            × (OnList x (cut.free_lists k) ⊎ (1 ≤ cover (suc k) x cut (block h c ∷ live))))
          (sym here)
          (
            low,
            subst (Aligned c) (sym at) upper_is.2,
            inl (
                subst (λ (y : ℕ). OnList y (cut.free_lists c)) (sym at)
                  (added-OnList (set_page s upper v) c upper)),
          )
    | inr e ↦
        let other : x ≢ upper = λ f. ground arith in
        let same : cut.pages x ≡ s.pages x = set_at-there s.pages upper v x other in
        let (lt, a, where_it_is) =
          floating.3 x ne (ap (λ (w : Page). w.is_free) (sym same) ∙ free) in
        subst
          (λ (w : Page).
            (w.order < max_order)
            × Aligned w.order x
            × (OnList x (cut.free_lists w.order)
                ⊎ (1 ≤ cover (suc w.order) x cut (block h c ∷ live))))
          (sym same) (lt, a, stays x (s.pages x).order ne other a where_it_is)
  ]
    where
      v : Page
      v = record (s.pages upper) { is_free = true; order = c }

  cut-Floating : Floating cut h c live
  cut-Floating =
      let v : Page = record (s.pages upper) { is_free = true; order = c } in
      let here : set_at s.pages upper v upper ≡ v = set_at-here s.pages upper v upper refl in
      (
        (low, half.0, omega (arith, upper_room, size_positive c)),
        add-ListsSound (set_page s upper v) c upper (ap (λ (w : Page). w.is_free) here)
            (ap (λ (w : Page). w.order) here) (low, upper_is.2, upper_room)
            (set_page-ListsSound s (block h (suc c) ∷ live) upper v floating.2 held floating.1),
        (λ p. omega (arith, floating.2 p, cut-cover 0 p (omega arith))),
        cut-Accounted,
      )

split_zero : (order h : ℕ) (s : Pmm) → split_block order h zero s ≡ s
unfolding split_block
split_zero order h s = refl

split_suc :
    (order h n q : ℕ) (s : Pmm)
    → get_buddy s.total_pages h (order + n) ≡ some q
    → split_block order h (suc n) s ≡ split_block order h n (cut_at s q (order + n))
unfolding split_block
split_suc order h n q s e = rw (e, split_block) refl

abbrev pub CutTo : Pmm → Pmm → ℕ → ℕ → ℕ → List Block → Type 0
CutTo s s' h from order live =
    Floating s' h order live
    × (s'.total_pages ≡ s.total_pages)
    × ((p : ℕ) → cover 0 p s' (block h order ∷ live) ≡ cover 0 p s (block h from ∷ live))

pub split-CutTo :
    (order n h : ℕ) (s : Pmm) (live : List Block)
    → Floating s h (order + n) live
    → CutTo s (split_block order h n s) h (order + n) order live
split-CutTo order zero h s live fl =
    let at : order + 0 ≡ order = omega arith in
    subst (λ s'. CutTo s s' h (order + 0) order live) (sym (split_zero order h s))
      (
        subst (λ (o : ℕ). Floating s h o live) at fl,
        refl,
        λ p. ap (λ (o : ℕ). cover 0 p s (block h o ∷ live)) (sym at),
      )
split-CutTo order (suc n) h s live fl =
    let at : order + suc n ≡ suc (order + n) = omega arith in
    let fl' : Floating s h (suc (order + n)) live = subst (λ (o : ℕ). Floating s h o live) at fl in
    let s1 : Pmm = cut_at s (h + 2 ^ (order + n)) (order + n) in
    let (fl'', total, same) =
      split-CutTo order n h s1 live (cut-Floating s h (order + n) live fl') in
    let same' : (p : ℕ)
        → cover 0 p s1 (block h (order + n) ∷ live)
          ≡ cover 0 p s (block h (suc (order + n)) ∷ live) =
      λ p. cut-cover s h (order + n) live fl' 0 p (omega arith) in
    subst (λ s'. CutTo s s' h (order + suc n) order live)
      (sym (split_suc order h n (h + 2 ^ (order + n)) s (buddy s h (order + n) live fl')))
      (fl'', total, λ p. same p ∙ same' p ∙ ap (λ (o : ℕ). cover 0 p s (block h o ∷ live)) (sym at))
