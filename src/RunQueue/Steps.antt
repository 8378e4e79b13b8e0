-- ===== src/RunQueue/Steps.antt =====
-- The head of a run queue, and the boost.
use doppio.Prelude.{
  ℕ, suc, ◌+◌, ◌-◌, ◌%◌, ◌^◌, ◌<◌, ◌≤◌, ◌≡◌, refl, sym, ap, ◌∙◌, pos, none, some, List, [], ◌∷◌,
  ◌++◌, map, inl, inr, length, length-append, append_nil, All, All-map, All-append, ◌⊎◌, arith,
}
use doppio.RunQueue.{
  mlfq_levels, Thread, Mlfq, level_of, pop_first, take_from, boosted, flat, boost_queues,
  boost_mlfq,
}
use doppio.RunQueue.Levels.{hit, count, count-append, Placed, IsValid, level-own}

-- No thread of the list stands on a level in front of the thread's.
abbrev pub Foremost : Thread → List Thread → Type 0
Foremost t ts = All (λ (x : Thread). level_of t.priority ≤ level_of x.priority) ts

Placed-after :
    (i : ℕ) (qs : List (List Thread))
    → Placed i qs
    → i + length qs ≤ mlfq_levels
    → All (λ (x : Thread). i ≤ level_of x.priority) (flat qs)
Placed-after i [] p h = tt
Placed-after i (q ∷ qs) (a, p) h =
    All-append (λ (x : Thread). i ≤ level_of x.priority) q (flat qs)
      (All-map (λ (x : Thread). x.priority ≡ pos i) (λ (x : Thread). i ≤ level_of x.priority)
        (λ x e. omega (arith, ap level_of e, level-own i (omega arith))) q a)
      (All-map (λ (x : Thread). suc i ≤ level_of x.priority)
        (λ (x : Thread). i ≤ level_of x.priority) (λ x e. omega arith) (flat qs)
        (Placed-after (suc i) qs p (omega arith)))

first_of_level :
    (i : ℕ) (t : Thread) (q : List Thread) (qs : List (List Thread))
    → Placed i ((t ∷ q) ∷ qs)
    → i + suc (length qs) ≤ mlfq_levels
    → Foremost t (q ++ flat qs)
first_of_level i t q qs ((e, a), p) h =
    All-map (λ (x : Thread). i ≤ level_of x.priority)
      (λ (x : Thread). level_of t.priority ≤ level_of x.priority)
      (λ x le. omega (arith, ap level_of e, level-own i (omega arith))) (q ++ flat qs)
      (Placed-after i (q ∷ qs) (a, p) h)

abbrev Popped : List (List Thread) → Thread → List (List Thread) → Type 0
Popped qs t qs' =
    (flat qs ≡ t ∷ flat qs')
    × (length qs' ≡ length qs)
    × ((i : ℕ)
        → Placed i qs
        → i + length qs ≤ mlfq_levels
        → Placed i qs'
          × ((m : ℕ) × (t.priority ≡ pos (i + m)) × (m < length qs))
          × Foremost t (flat qs'))

-- The thread found is the first one of all levels, one after the other.
pop_first-cases :
    (qs : List (List Thread))
    → ((pop_first qs ≡ none) × (flat qs ≡ []))
      ⊎ ((t : Thread) × (qs' : List (List Thread)) × (pop_first qs ≡ some (t, qs'))
          × Popped qs t qs')
unfolding pop_first
pop_first-cases [] = inl (refl, refl)
pop_first-cases ((t ∷ q) ∷ qs) = inr (
  t,
  q ∷ qs,
  refl,
  (
    refl,
    refl,
    λ i p h.
        ((p.0.1, p.1), (0, p.0.0 ∙ ap pos (omega arith), omega arith), first_of_level i t q qs p h),
  ),
)
pop_first-cases ([] ∷ qs) = elim (pop_first-cases qs) [
  | inl (e, f) ↦ inl (rw (e, pop_first) refl, f)
  | inr (t, qs', e, (f, g, h)) ↦ inr (
    t,
    [] ∷ qs',
    rw (e, pop_first) refl,
    (
      f,
      ap suc g,
      λ i p r.
          let (p', (m, a, b), lowest) = h (suc i) p.1 (omega arith) in
          ((tt, p'), (suc m, a ∙ ap pos (omega arith), omega arith), lowest),
    ),
  )
]

-- What a run queue gives, and the queue after it
abbrev pub Taken : Mlfq → Thread → Mlfq → Type 0
Taken q t q' =
    (flat q.queues ≡ t ∷ flat q'.queues)
    × IsValid q'
    × ((n : ℕ) × (t.priority ≡ pos n) × (n < mlfq_levels))
    × Foremost t (flat q'.queues)

pub take_from-cases :
    (q : Mlfq)
    → IsValid q
    → ((take_from q ≡ none) × (flat q.queues ≡ []))
      ⊎ ((t : Thread) × (q' : Mlfq) × (take_from q ≡ some (t, q')) × Taken q t q')
unfolding take_from
take_from-cases q (len, placed, num) = elim (pop_first-cases q.queues) [
  | inl (e, f) ↦ inl (rw (e, take_from) refl, f)
  | inr (t, qs', e, (f, g, h)) ↦
      let (placed', (m, a, b), lowest) = h 0 placed (omega (arith, len)) in
      inr (
        t,
        record { queues = qs'; thread_count = (q.thread_count + (2 ^ 32 - 1)) % 2 ^ 32 },
        rw (e, take_from) refl,
        (
          f,
          (g ∙ len, placed', omega (arith, num, ap length f)),
          (m, a ∙ ap pos (omega arith), omega (arith, len)),
          lowest,
        ),
      )
]

count-boosted : (k : ℕ) (ts : List Thread) → count k (map boosted ts) ≡ count k ts
count-boosted k [] = refl
count-boosted k (t ∷ ts) = ap (λ (n : ℕ). hit k t + n) (count-boosted k ts)

length-boosted : (ts : List Thread) → length (map boosted ts) ≡ length ts
length-boosted [] = refl
length-boosted (t ∷ ts) = ap suc (length-boosted ts)

boosted-All : (ts : List Thread) → All (λ (t : Thread). t.priority ≡ pos 0) (map boosted ts)
boosted-All [] = tt
boosted-All (t ∷ ts) = (refl, boosted-All ts)

abbrev emptied : List (List Thread) → List (List Thread)
emptied qs = map (λ (x : List Thread). []) qs

flat-emptied : (qs : List (List Thread)) → flat (emptied qs) ≡ []
flat-emptied [] = refl
flat-emptied (q ∷ qs) = flat-emptied qs

length-emptied : (qs : List (List Thread)) → length (emptied qs) ≡ length qs
length-emptied [] = refl
length-emptied (q ∷ qs) = ap suc (length-emptied qs)

emptied-Placed : (i : ℕ) (qs : List (List Thread)) → Placed i (emptied qs)
emptied-Placed i [] = tt
emptied-Placed i (q ∷ qs) = (tt, emptied-Placed (suc i) qs)

flat-boost :
    (q : List Thread) (qs : List (List Thread))
    → flat (boost_queues (q ∷ qs)) ≡ q ++ map boosted (flat qs)
flat-boost q qs =
    ap (λ xs. (q ++ map boosted (flat qs)) ++ xs) (flat-emptied qs)
    ∙ append_nil (q ++ map boosted (flat qs))

-- A boost moves every thread to the first level, behind those that are there.
pub boost-kept :
    (q : Mlfq)
    → IsValid q
    → IsValid (boost_mlfq q)
      × ((k : ℕ) → count k (flat (boost_mlfq q).queues) ≡ count k (flat q.queues))
boost-kept q (len, placed, num) =
    let (e, p, f, c) = parts q.queues placed in
    ((e ∙ len, p, num ∙ ap (λ (n : ℕ). n % 2 ^ 32) (sym f)), c)
  where
    parts :
        (qs : List (List Thread))
        → Placed 0 qs
        → (length (boost_queues qs) ≡ length qs)
          × Placed 0 (boost_queues qs)
          × (length (flat (boost_queues qs)) ≡ length (flat qs))
          × ((k : ℕ) → count k (flat (boost_queues qs)) ≡ count k (flat qs))
    parts [] p = (refl, tt, refl, λ k. refl)
    parts (q ∷ qs) (a, p) = (
      ap suc (length-emptied qs),
      (
        All-append (λ (t : Thread). t.priority ≡ pos 0) q (map boosted (flat qs)) a
            (boosted-All (flat qs)),
        emptied-Placed 1 qs,
      ),
      ap length (flat-boost q qs)
          ∙ omega (
            arith,
            length-append q (map boosted (flat qs)),
            length-boosted (flat qs),
            length-append q (flat qs),
          ),
      λ k.
          ap (count k) (flat-boost q qs)
          ∙ omega (
            arith,
            count-append k q (map boosted (flat qs)),
            count-boosted k (flat qs),
            count-append k q (flat qs),
          ),
    )
