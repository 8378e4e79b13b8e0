-- ===== src/Pmm/Flow.antt =====
-- Any sequence of calls of the allocator.
use mathlib.Core.Path.{subst}
use doppio.Prelude.{ℕ, ◌≡◌, refl, sym, ap, inl, inr, none, some, List, ◌∷◌, ◌++◌, arith}
use doppio.Pmm.{Pmm, pmm_alloc_pages, pmm_free_pages}
use doppio.Pmm.Cover.{Block, cover, live_cover-append}
use doppio.Pmm.Valid.{IsValid, block}
use doppio.Pmm.Alloc.{Allocated, pmm_alloc_pages-Allocated}
use doppio.Pmm.Free.{pmm_free_pages-IsValid}

-- `Reaches s live s' live'`: calls lead from the allocator `s`, with the blocks `live` handed out,
-- to `s'` and `live'`; only blocks that are handed out are freed, with the order they have.
pub data Reaches (s : Pmm) (live : List Block) : Pmm → List Block → Type 0 where
  begin : Reaches s live s live
  by_alloc :
      (s' s'' : Pmm) (live' : List Block) (order head : ℕ)
      → Reaches s live s' live'
      → pmm_alloc_pages order s' ≡ (some head, s'')
      → Reaches s live s'' (block head order ∷ live')
  by_failed :
      (s' s'' : Pmm) (live' : List Block) (order : ℕ)
      → Reaches s live s' live'
      → pmm_alloc_pages order s' ≡ (none, s'')
      → Reaches s live s'' live'
  by_free :
      (s' : Pmm) (xs ys : List Block) (order head : ℕ)
      → Reaches s live s' (xs ++ (block head order ∷ ys))
      → Reaches s live (pmm_free_pages head order s') (xs ++ ys)

-- The allocator is valid, and has every page in as many blocks as before.
abbrev pub Keeps : Pmm → List Block → Pmm → List Block → Type 0
Keeps s live s' live' =
    IsValid s' live' × ((page : ℕ) → cover 0 page s' live' ≡ cover 0 page s live)

module _ (s s' s'' : Pmm) (live live' : List Block) (order : ℕ)
    (keeps : Keeps s live s' live') where
  after_alloc :
      (head : ℕ)
      → pmm_alloc_pages order s' ≡ (some head, s'')
      → Allocated order s' live' (some head, s'')
      → Keeps s live s'' (block head order ∷ live')
  after_alloc head call (inl (e, _)) = absurd (some_none (ap (λ r. r.0) e))
    where
      some_none : some head ≡ none → ⊥
      some_none e = ground (arith, e)
  after_alloc head call (inr (h, e, valid, free)) =
      let same : h ≡ head = ground (arith, e) in
      subst (λ (x : ℕ). Keeps s live s'' (block x order ∷ live')) same
        (valid, λ p. omega (arith, free p, keeps.1 p))

  after_failed :
      pmm_alloc_pages order s' ≡ (none, s'')
      → Allocated order s' live' (none, s'')
      → Keeps s live s'' live'
  after_failed call (inl (e, _)) = subst (λ x. Keeps s live x live') (sym (ap (λ r. r.1) e)) keeps
  after_failed call (inr (h, e, _, _)) = absurd (none_some h e)
    where
      none_some : (h : ℕ) → none ≡ some h → ⊥
      none_some h e = ground (arith, e)

-- From a valid allocator, after any sequence of calls, failed ones included, in which only blocks
-- that are handed out are freed: the allocator is valid, and every page is in as many blocks, free
-- or handed out, as it was at the beginning, which is one at most.
pub Reaches-Keeps :
    (s : Pmm) (live : List Block) (s' : Pmm) (live' : List Block)
    → Reaches s live s' live'
    → IsValid s live
    → Keeps s live s' live'
Reaches-Keeps s live s' live' begin valid = (valid, λ p. refl)
Reaches-Keeps s live s'' live'' (by_alloc s' _ live' order head run call) valid =
    let keeps : Keeps s live s' live' = Reaches-Keeps s live s' live' run valid in
    after_alloc s s' s'' live live' order keeps head call
      (subst (Allocated order s' live') call (pmm_alloc_pages-Allocated order s' live' keeps.0))
Reaches-Keeps s live s'' live' (by_failed s' _ _ order run call) valid =
    let keeps : Keeps s live s' live' = Reaches-Keeps s live s' live' run valid in
    after_failed s s' s'' live live' order keeps call
      (subst (Allocated order s' live') call (pmm_alloc_pages-Allocated order s' live' keeps.0))
Reaches-Keeps s live s'' live'' (by_free s' xs ys order head run) valid =
    let keeps : Keeps s live s' (xs ++ (block head order ∷ ys)) =
      Reaches-Keeps s live s' (xs ++ (block head order ∷ ys)) run valid in
    let (valid', free) = pmm_free_pages-IsValid s' head order xs ys keeps.0 in
    (
      valid',
      λ p. omega (
        arith,
        free p,
        keeps.1 p,
        live_cover-append 0 p xs (block head order ∷ ys),
        live_cover-append 0 p xs ys,
      ),
    )
