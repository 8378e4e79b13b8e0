-- ===== src/Vma/RbTree/Search.antt =====
-- The searches of the tree, and searches of the list of areas one by one.
use doppio.Prelude.{
  ℕ, ◌<◌, ◌≤◌, ◌≡◌, refl, ap, ◌∙◌, sym, ◌⊎◌, inl, inr, true, false, ◌&&◌, Option, none, some, List,
  [], ◌∷◌, ◌++◌, ltb, leb, if◌then◌else◌, All, All-map, Bool-cases, arith,
}
use doppio.Vma.{VmArea, Tree, leaf, node}
use doppio.Vma.RbTree.{vma_find, find_prev_from, vma_find_prev, find_first_from, vma_find_first}
use doppio.Vma.RbTree.InOrder.{in_order, Disjoint, Disjoint-of-append}

abbrev pub or_else : Option VmArea → Option VmArea → Option VmArea
or_else (some v) o = some v
or_else none o = o

or_else_assoc : (a b c : Option VmArea) → or_else (or_else a b) c ≡ or_else a (or_else b c)
or_else_assoc (some v) b c = refl
or_else_assoc none b c = refl

or_else-none : (a : Option VmArea) → or_else a none ≡ a
or_else-none (some v) = refl
or_else-none none = refl

-- The first area that holds the address
pub holding : List VmArea → ℕ → Option VmArea
holding [] addr = none
holding (x ∷ xs) addr =
    let rest = holding xs addr in if leb x.start addr && ltb addr x.end then some x else rest

-- The first area that ends behind the address
pub ending_after : List VmArea → ℕ → Option VmArea
ending_after [] addr = none
ending_after (x ∷ xs) addr =
    let rest = ending_after xs addr in if ltb addr x.end then some x else rest

-- The last area that starts in front of the address
pub starting_before : List VmArea → ℕ → Option VmArea
starting_before [] addr = none
starting_before (x ∷ xs) addr =
    or_else (starting_before xs addr) (if ltb x.start addr then some x else none)

holding-append :
    (xs ys : List VmArea) (a : ℕ) → holding (xs ++ ys) a ≡ or_else (holding xs a) (holding ys a)
unfolding holding
holding-append [] ys a = refl
holding-append (x ∷ xs) ys a = elim (Bool-cases (leb x.start a && ltb a x.end)) [
  | inl e ↦ rw e refl
  | inr e ↦ rw e (holding-append xs ys a)
]

pub ending_after-append :
    (xs ys : List VmArea) (a : ℕ)
    → ending_after (xs ++ ys) a ≡ or_else (ending_after xs a) (ending_after ys a)
unfolding ending_after
ending_after-append [] ys a = refl
ending_after-append (x ∷ xs) ys a = elim (Bool-cases (ltb a x.end)) [
  | inl e ↦ rw e refl
  | inr e ↦ rw e (ending_after-append xs ys a)
]

starting_before-append :
    (xs ys : List VmArea) (a : ℕ)
    → starting_before (xs ++ ys) a ≡ or_else (starting_before ys a) (starting_before xs a)
unfolding starting_before
starting_before-append [] ys a = sym (or_else-none (starting_before ys a))
starting_before-append (x ∷ xs) ys a =
    let here : Option VmArea = if ltb x.start a then some x else none in
    ap (λ o. or_else o here) (starting_before-append xs ys a)
    ∙ or_else_assoc (starting_before ys a) (starting_before xs a) here

-- No area holds an address behind all or in front of all.
abbrev EndsBy : ℕ → VmArea → Type 0
EndsBy a x = x.end ≤ a

abbrev StartsFrom : ℕ → VmArea → Type 0
StartsFrom a x = a ≤ x.start

holding_behind : (xs : List VmArea) (a : ℕ) → All (EndsBy a) xs → holding xs a ≡ none
unfolding holding
holding_behind [] a h = refl
holding_behind (x ∷ xs) a (le, h) =
    let e : (leb x.start a && ltb a x.end) ≡ false = ground arith in rw e (holding_behind xs a h)

holding_in_front :
    (xs : List VmArea) (a b : ℕ) → a < b → All (StartsFrom b) xs → holding xs a ≡ none
unfolding holding
holding_in_front [] a b lt h = refl
holding_in_front (x ∷ xs) a b lt (le, h) =
    let e : (leb x.start a && ltb a x.end) ≡ false = ground arith in
    rw e (holding_in_front xs a b lt h)

pub ending_after_behind : (xs : List VmArea) (a : ℕ) → All (EndsBy a) xs → ending_after xs a ≡ none
unfolding ending_after
ending_after_behind [] a h = refl
ending_after_behind (x ∷ xs) a (le, h) =
    let e : ltb a x.end ≡ false = ground arith in rw e (ending_after_behind xs a h)

pub ending_after-first :
    (v : VmArea) (ys : List VmArea) (start : ℕ)
    → start < v.end
    → ending_after (v ∷ ys) start ≡ some v
unfolding ending_after
ending_after-first v ys start lt = let e : ltb start v.end ≡ true = ground arith in rw e refl

pub ending_after-nil : (start : ℕ) → ending_after [] start ≡ none
unfolding ending_after
ending_after-nil start = refl

starting_before-none :
    (xs : List VmArea) (a : ℕ) → All (StartsFrom a) xs → starting_before xs a ≡ none
unfolding starting_before
starting_before-none [] a h = refl
starting_before-none (x ∷ xs) a (le, h) =
    let e : ltb x.start a ≡ false = ground arith in rw (starting_before-none xs a h, e) refl

-- The areas left of an area end by any address from its start on, the areas right of it start
-- from any address up to its end.
module _ (l : Tree) (v : VmArea) (r : Tree) (d : Disjoint (in_order l ++ (v ∷ in_order r)))
    (a : ℕ) where
  left_ends : v.start ≤ a → All (EndsBy a) (in_order l)
  left_ends h =
      All-map (λ (x : VmArea). (x.start < x.end) × (x.end ≤ v.start)) (EndsBy a)
        (λ x p. omega arith) (in_order l) (Disjoint-of-append (in_order l) v (in_order r) d).0

  right_starts : a ≤ v.end → All (StartsFrom a) (in_order r)
  right_starts h =
      All-map (λ (x : VmArea). v.end ≤ x.start) (StartsFrom a) (λ x p. omega arith) (in_order r)
        (Disjoint-of-append (in_order l) v (in_order r) d).2.1

  some_size : v.start < v.end
  some_size = (Disjoint-of-append (in_order l) v (in_order r) d).2.0

  left_Disjoint : Disjoint (in_order l)
  left_Disjoint = (Disjoint-of-append (in_order l) v (in_order r) d).1

  right_Disjoint : Disjoint (in_order r)
  right_Disjoint = (Disjoint-of-append (in_order l) v (in_order r) d).2.2

vma_find-holding :
    (t : Tree) (a : ℕ) → Disjoint (in_order t) → vma_find t a ≡ holding (in_order t) a
unfolding vma_find holding
vma_find-holding leaf a d = refl
vma_find-holding (node c l v r) a d = ground (
  arith,
  holding-append (in_order l) (v ∷ in_order r) a,
  vma_find-holding l a (left_Disjoint l v r d a),
  vma_find-holding r a (right_Disjoint l v r d a),
  holding_behind (in_order l) a,
  left_ends l v r d a,
  holding_in_front (in_order r) a v.end,
  right_starts l v r d v.end,
  some_size l v r d a,
  or_else-none (holding (in_order l) a),
)

find_first-ending_after :
    (t : Tree) (o : Option VmArea) (a : ℕ)
    → Disjoint (in_order t)
    → find_first_from o t a ≡ or_else (ending_after (in_order t) a) o
unfolding find_first_from ending_after
find_first-ending_after leaf o a d = refl
find_first-ending_after (node c l v r) o a d = ground (
  arith,
  ending_after-append (in_order l) (v ∷ in_order r) a,
  find_first-ending_after l (some v) a (left_Disjoint l v r d a),
  find_first-ending_after r o a (right_Disjoint l v r d a),
  ending_after_behind (in_order l) a,
  left_ends l v r d a,
  some_size l v r d a,
  or_else_assoc (ending_after (in_order l) a) (some v) o,
)

find_prev-starting_before :
    (t : Tree) (o : Option VmArea) (a : ℕ)
    → Disjoint (in_order t)
    → find_prev_from o t a ≡ or_else (starting_before (in_order t) a) o
unfolding find_prev_from starting_before
find_prev-starting_before leaf o a d = refl
find_prev-starting_before (node c l v r) o a d = ground (
  arith,
  starting_before-append (in_order l) (v ∷ in_order r) a,
  find_prev-starting_before r (some v) a (right_Disjoint l v r d a),
  find_prev-starting_before l o a (left_Disjoint l v r d a),
  starting_before-none (in_order r) a,
  right_starts l v r d a,
  some_size l v r d a,
  or_else_assoc (starting_before (in_order r) a) (some v) (starting_before (in_order l) a),
  or_else_assoc (starting_before (in_order r) a) (or_else (some v) (starting_before (in_order l) a))
      o,
)

-- On areas that do not overlap, the three searches of the tree find what a search of the list finds:
-- the area that holds an address, the last one that starts in front of it, and the first one that
-- ends behind it.
pub search_list :
    (t : Tree) (addr : ℕ)
    → Disjoint (in_order t)
    → (vma_find t addr ≡ holding (in_order t) addr)
      × (vma_find_prev t addr ≡ starting_before (in_order t) addr)
      × (vma_find_first t addr ≡ ending_after (in_order t) addr)
unfolding vma_find_prev vma_find_first
search_list t addr d = (
  vma_find-holding t addr d,
  find_prev-starting_before t none addr d ∙ or_else-none (starting_before (in_order t) addr),
  find_first-ending_after t none addr d ∙ or_else-none (ending_after (in_order t) addr),
)

-- Where the first area that ends behind an address stands
pub ending_after-cases :
    (xs : List VmArea) (a : ℕ)
    → ((ending_after xs a ≡ none) × All (λ (x : VmArea). x.end ≤ a) xs)
      ⊎ ((front : List VmArea) × (v : VmArea) × (back : List VmArea) × (xs ≡ front ++ (v ∷ back))
          × (ending_after xs a ≡ some v)
          × All (λ (x : VmArea). x.end ≤ a) front
          × (a < v.end))
unfolding ending_after
ending_after-cases [] a = inl (refl, tt)
ending_after-cases (x ∷ xs) a = elim (Bool-cases (ltb a x.end)) [
  | inl e ↦ inr ([], x, xs, refl, rw e refl, tt, ground (arith, e))
  | inr e ↦ elim (ending_after-cases xs a) [
    | inl (f, h) ↦ inl (rw e f, (ground (arith, e), h))
    | inr (front, v, back, at, f, h, lt) ↦
        inr (x ∷ front, v, back, ap (λ ys. x ∷ ys) at, rw e f, (ground (arith, e), h), lt)
  ]
]

-- Where the area that holds an address stands
pub holding-cases :
    (xs : List VmArea) (a : ℕ)
    → (holding xs a ≡ none)
      ⊎ ((front : List VmArea) × (v : VmArea) × (back : List VmArea) × (xs ≡ front ++ (v ∷ back))
          × (holding xs a ≡ some v)
          × (v.start ≤ a)
          × (a < v.end))
unfolding holding
holding-cases [] a = inl refl
holding-cases (x ∷ xs) a = elim (Bool-cases (leb x.start a && ltb a x.end)) [
  | inl e ↦ inr ([], x, xs, refl, rw e refl, ground (arith, e), ground (arith, e))
  | inr e ↦ elim (holding-cases xs a) [
    | inl f ↦ inl (rw e f)
    | inr (front, v, back, at, f, le, lt) ↦
        inr (x ∷ front, v, back, ap (λ ys. x ∷ ys) at, rw e f, le, lt)
  ]
]
