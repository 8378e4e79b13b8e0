-- ===== src/RunQueue/Levels.antt =====
-- The threads on the levels of a run queue: a thread stands on the level of its priority.
use doppio.Prelude.{
  ℕ, zero, suc, ◌+◌, ◌%◌, ◌^◌, ◌<◌, ◌≡◌, refl, sym, ap, ◌∙◌, ℤ, pos, negsuc, List, [], ◌∷◌, ◌++◌,
  get_or, set, length, length-append, ◌==◌, if◌then◌else◌, All, All-append, arith,
}
use doppio.RunQueue.{mlfq_levels, Thread, Mlfq, level_of, push, flat}

-- How often a thread stands in a list
abbrev pub hit : ℕ → Thread → ℕ
hit k t = if t.tid == k then 1 else 0

abbrev pub count : ℕ → List Thread → ℕ
count k [] = 0
count k (t ∷ ts) = hit k t + count k ts

pub count-append : (k : ℕ) (xs ys : List Thread) → count k (xs ++ ys) ≡ count k xs + count k ys
count-append k [] ys = omega arith
count-append k (x ∷ xs) ys = omega (arith, count-append k xs ys)

-- Every thread on the levels from `i` on has its level as priority.
abbrev pub Placed : ℕ → List (List Thread) → Type 0
Placed i [] = Unit {0}
Placed i (q ∷ qs) = All (λ (t : Thread). t.priority ≡ pos i) q × Placed (suc i) qs

abbrev pub IsValid : Mlfq → Type 0
IsValid q =
    (length q.queues ≡ mlfq_levels)
    × Placed 0 q.queues
    × (q.thread_count ≡ length (flat q.queues) % 2 ^ 32)

pub level-lt : (p : ℤ) → level_of p < mlfq_levels
level-lt (pos n) = ground arith
level-lt (negsuc n) = ground arith

-- A thread put at the end of a level
module _ (t : Thread) where
  pushed : ℕ → List (List Thread) → List (List Thread)
  pushed level qs = set qs level (get_or qs level [] ++ (t ∷ []))

  pushed-count :
      (k level : ℕ) (qs : List (List Thread))
      → level < length qs
      → count k (flat (pushed level qs)) ≡ hit k t + count k (flat qs)
  unfolding pushed
  pushed-count k level [] h = absurd (omega arith)
  pushed-count k zero (q ∷ qs) h = omega (
    arith,
    count-append k (q ++ (t ∷ [])) (flat qs),
    count-append k q (t ∷ []),
    count-append k q (flat qs),
  )
  pushed-count k (suc level) (q ∷ qs) h = omega (
    arith,
    count-append k q (flat (pushed level qs)),
    count-append k q (flat qs),
    pushed-count k level qs (omega arith),
  )

  pushed-length :
      (level : ℕ) (qs : List (List Thread))
      → level < length qs
      → (length (pushed level qs) ≡ length qs)
        × (length (flat (pushed level qs)) ≡ suc (length (flat qs)))
  unfolding pushed
  pushed-length level [] h = absurd (omega arith)
  pushed-length zero (q ∷ qs) h = (
    refl,
    omega (
      arith,
      length-append (q ++ (t ∷ [])) (flat qs),
      length-append q (t ∷ []),
      length-append q (flat qs),
    ),
  )
  pushed-length (suc level) (q ∷ qs) h =
      let (a, b) = pushed-length level qs (omega arith) in
      (ap suc a, omega (arith, length-append q (flat (pushed level qs)), length-append q (flat qs)))

  pushed-Placed :
      (i level : ℕ) (qs : List (List Thread))
      → level < length qs
      → t.priority ≡ pos (i + level)
      → Placed i qs
      → Placed i (pushed level qs)
  unfolding pushed
  pushed-Placed i level [] h e p = absurd (omega arith)
  pushed-Placed i zero (q ∷ qs) h e (a, p) =
      let e' : i + 0 ≡ i = omega arith in
      (All-append (λ (t : Thread). t.priority ≡ pos i) q (t ∷ []) a (e ∙ ap pos e', tt), p)
  pushed-Placed i (suc level) (q ∷ qs) h e (a, p) =
      let e' : i + suc level ≡ suc i + level = omega arith in
      (a, pushed-Placed (suc i) level qs (omega arith) (e ∙ ap pos e') p)

pub level-own : (n : ℕ) → n < mlfq_levels → level_of (pos n) ≡ n
level-own n h = ground arith

pub push-IsValid :
    (q : Mlfq) (t : Thread) (n : ℕ)
    → t.priority ≡ pos n
    → n < mlfq_levels
    → IsValid q
    → IsValid (push q t)
unfolding pushed
push-IsValid q t n e h (len, placed, num) =
    let own : level_of t.priority ≡ n = ap level_of e ∙ level-own n h in
    let (a, b) = pushed-length t (level_of t.priority) q.queues (omega (arith, own, len)) in
    (
      a ∙ len,
      pushed-Placed t 0 (level_of t.priority) q.queues (omega (arith, own, len))
          (e ∙ ap pos (sym own ∙ omega arith)) placed,
      omega (arith, num, b),
    )

pub push-count :
    (k : ℕ) (q : Mlfq) (t : Thread)
    → length q.queues ≡ mlfq_levels
    → count k (flat (push q t).queues) ≡ hit k t + count k (flat q.queues)
unfolding pushed
push-count k q t len =
    pushed-count t k (level_of t.priority) q.queues (omega (arith, level-lt t.priority, len))
