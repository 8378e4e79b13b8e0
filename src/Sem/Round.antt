-- ===== src/Sem/Round.antt =====
-- One round of `sys_semop`: when it succeeds, and what it does to the semaphores.
use mathlib.Core.Path.{subst}
use doppio.Prelude.{
  All, All-map, zero, ◌%◌, leb, sym, ℕ, suc, ◌+◌, ◌-◌, ◌^◌, ◌<◌, ◌≤◌, ◌≡◌, refl, ap, ◌∙◌, ◌≢◌, ◌⊎◌,
  inl, inr, true, false, List, [], ◌∷◌, ◌++◌, ◌==◌, if◌then◌else◌, ℤ, pos, negsuc, pos_part,
  neg_part, length, get_or, set, get_or-set_self, get_or-set_ne, length-set, Bool-cases, ℕ_discrete,
  arith,
}
use doppio.Errno.{ok, err, Errno, eagain, efbig, eidrm}
use doppio.Sem.{
  Sem, SemSet, Sembuf, Caller, zero_sem, Verdict, can_succeed, cannot, too_big, blocks, check,
  add_op, apply, any_nowait, Outcome, returned, asleep, semop_round,
}

abbrev pub value : List Sem → ℕ → ℕ
value sems k = (get_or sems k zero_sem).val

-- What a list of operations adds to a semaphore and takes from it.
pub added : List Sembuf → ℕ → ℕ
added [] k = 0
added (op ∷ ops) k = (if op.sem_num == k then pos_part op.sem_op else 0) + added ops k

pub taken : List Sembuf → ℕ → ℕ
taken [] k = 0
taken (op ∷ ops) k = (if op.sem_num == k then neg_part op.sem_op else 0) + taken ops k

abbrev pub Apart : List Sembuf → Type 0
Apart [] = Unit {0}
Apart (op ∷ ops) = All (λ o. op.sem_num ≢ o.sem_num) ops × Apart ops

-- The new value fits 16 bits.
abbrev pub Fits : List Sem → Sembuf → Type 0
Fits sems op = value sems op.sem_num + pos_part op.sem_op < 2 ^ 16

abbrev pub Covered : List Sem → Sembuf → Type 0
Covered sems op = (op.sem_num < length sems) × (neg_part op.sem_op ≤ value sems op.sem_num)

-- An operation can run: its semaphore exists and it does not block there.
abbrev pub Runs : SemSet → Sembuf → Type 0
Runs s op = (op.sem_num < s.nsems) × (blocks op.sem_op (value s.sems op.sem_num) ≡ false)

pub check-Runs : (s : SemSet) (ops : List Sembuf) → check s ops ≡ can_succeed → All (Runs s) ops
unfolding check
check-Runs s [] h = tt
check-Runs s (op ∷ ops) h = ((ground arith, ground arith), check-Runs s ops (ground arith))

not_blocked : (z : ℤ) (v : ℕ) → blocks z v ≡ false → neg_part z ≤ v
unfolding blocks
not_blocked (pos n) v h = omega arith
not_blocked (negsuc n) v h = ground arith

add_op_exact :
    (v : ℕ) (z : ℤ)
    → neg_part z ≤ v
    → v + pos_part z < 2 ^ 16
    → add_op v z + neg_part z ≡ v + pos_part z
unfolding add_op
add_op_exact v z h k = omega arith

value-set :
    (sems : List Sem) (n k : ℕ) (x : Sem)
    → n < length sems
    → value (set sems n x) k ≡ (if n == k then x.val else value sems k)
value-set sems n k x h = elim (ℕ_discrete n k) [
  | yes e ↦ ground (arith, get_or-set_self sems n x zero_sem h)
  | no ne ↦ ground (arith, get_or-set_ne sems n k x zero_sem ne)
]

value-set_self :
    (sems : List Sem) (n : ℕ) (x : Sem) → n < length sems → value (set sems n x) n ≡ x.val
value-set_self sems n x h = ap (λ (y : Sem). y.val) (get_or-set_self sems n x zero_sem h)

-- What operations on other semaphores need is not touched by a write.
Covered-set :
    (sems : List Sem) (n : ℕ) (x : Sem) (ops : List Sembuf)
    → All (λ o. n ≢ o.sem_num) ops
    → All (Covered sems) ops
    → All (Covered (set sems n x)) ops
Covered-set sems n x [] a c = tt
Covered-set sems n x (op ∷ ops) (ne, a) (c, cs) = (
  ground (arith, length-set sems n x, get_or-set_ne sems n op.sem_num x zero_sem ne),
  Covered-set sems n x ops a cs,
)

Fits-set :
    (sems : List Sem) (n : ℕ) (x : Sem) (ops : List Sembuf)
    → All (λ o. n ≢ o.sem_num) ops
    → All (Fits sems) ops
    → All (Fits (set sems n x)) ops
Fits-set sems n x [] a f = tt
Fits-set sems n x (op ∷ ops) (ne, a) (f, fs) =
    (ground (arith, get_or-set_ne sems n op.sem_num x zero_sem ne), Fits-set sems n x ops a fs)

module _ (pid : ℕ) where
  apply-value :
      (ops : List Sembuf) (sems : List Sem)
      → Apart ops
      → All (Covered sems) ops
      → All (Fits sems) ops
      → (k : ℕ) → value (apply pid sems ops) k + taken ops k ≡ value sems k + added ops k
  unfolding apply added taken
  apply-value [] sems a c f k = refl
  apply-value (op ∷ ops) sems (a, rest) (c, cs) (f, fs) k =
      let new : Sem = record { val = add_op (value sems op.sem_num) op.sem_op; lpid = pid } in
      ground (
        arith,
        apply-value ops (set sems op.sem_num new) rest (Covered-set sems op.sem_num new ops a cs)
            (Fits-set sems op.sem_num new ops a fs) k,
        value-set sems op.sem_num k new c.0,
        add_op_exact (value sems op.sem_num) op.sem_op c.1 f,
      )

Runs-Covered :
    (s : SemSet) (ops : List Sembuf)
    → s.nsems ≤ length s.sems
    → All (Runs s) ops
    → All (Covered s.sems) ops
Runs-Covered s [] h r = tt
Runs-Covered s (op ∷ ops) h (r, rs) =
    ((omega arith, not_blocked op.sem_op (value s.sems op.sem_num) r.1), Runs-Covered s ops h rs)

verdict_cases : (v : Verdict) → (v ≡ can_succeed) ⊎ ((v ≡ cannot) ⊎ (v ≡ too_big))
verdict_cases can_succeed = inl refl
verdict_cases cannot = inr (inl refl)
verdict_cases too_big = inr (inr refl)

abbrev pub performed : Caller → List Sembuf → SemSet → SemSet
performed c ops s = record s {
  sems = apply c.pid s.sems ops;
  ds = record (s.ds) { otime = 0 };
  wait_queue = [];
}

module _ (c : Caller) (ops : List Sembuf) (s : SemSet) where
  pub round_removed : s.active ≡ false → semop_round c ops s ≡ (returned (err eidrm) [], s)
  unfolding semop_round
  round_removed h = ground arith

  pub round_performs :
      s.active ≡ true
      → check s ops ≡ can_succeed
      → semop_round c ops s ≡ (returned (ok 0) s.wait_queue, performed c ops s)
  unfolding semop_round
  round_performs h e = ground arith

  pub round_too_big :
      s.active ≡ true → check s ops ≡ too_big → semop_round c ops s ≡ (returned (err efbig) [], s)
  unfolding semop_round
  round_too_big h e = ground arith

  pub round_blocks :
      s.active ≡ true
      → check s ops ≡ cannot
      → semop_round c ops s ≡ (
          if any_nowait ops
          then (returned (err eagain) [], s)
          else (asleep, record s { wait_queue = s.wait_queue ++ (c.thread ∷ []) }))
  unfolding semop_round
  round_blocks h e = ground arith

  round_ok_inv :
      (ready : List ℕ)
      → (semop_round c ops s).0 ≡ returned (ok 0) ready
      → (s.active ≡ true) × (check s ops ≡ can_succeed)
  unfolding semop_round
  round_ok_inv ready h = ground arith

-- A round that succeeds, on operations that name different semaphores and whose sums fit 16 bits:
-- every operation named an existing semaphore and could run, each semaphore changes by exactly
-- what is added to it and taken from it (not at all, if no operation names it), all waiters are made
-- ready and none is left.
pub semop_round-ok :
    (c : Caller) (ops : List Sembuf) (s : SemSet) (ready : List ℕ)
    → s.nsems ≤ length s.sems
    → Apart ops
    → All (Fits s.sems) ops
    → (semop_round c ops s).0 ≡ returned (ok 0) ready
    → let s' = (semop_round c ops s).1 in
      All (Runs s) ops
      × ((k : ℕ) → value s'.sems k + taken ops k ≡ value s.sems k + added ops k)
      × (ready ≡ s.wait_queue)
      × (s'.wait_queue ≡ [])
semop_round-ok c ops s ready size a f h =
    let (here, e) = round_ok_inv c ops s ready h in
    let runs : All (Runs s) ops = check-Runs s ops e in
    let run : semop_round c ops s ≡ (returned (ok 0) s.wait_queue, performed c ops s) =
      round_performs c ops s here e in
    rw run
      (runs, apply-value c.pid ops s.sems a (Runs-Covered s ops size runs) f, ground arith, refl)

-- What else a round may do: fail and leave the set as it is, or sleep at the end of the queue of a
-- set that is otherwise left as it is.
abbrev pub Unperformed : Caller → SemSet → Outcome × SemSet → Type 0
Unperformed c s r =
    ((e : Errno) × (r ≡ (returned (err e) [], s)))
    ⊎ (r ≡ (asleep, record s { wait_queue = s.wait_queue ++ (c.thread ∷ []) }))

-- Either every operation runs and the call returns, or the call leaves the semaphores as they are.
pub semop_round_cases :
    (c : Caller) (ops : List Sembuf) (s : SemSet)
    → (All (Runs s) ops × (semop_round c ops s ≡ (returned (ok 0) s.wait_queue, performed c ops s)))
      ⊎ Unperformed c s (semop_round c ops s)
semop_round_cases c ops s = elim (Bool-cases s.active) [
  | inr gone ↦ inr (inl (eidrm, round_removed c ops s gone))
  | inl here ↦ elim (verdict_cases (check s ops)) [
    | inl e ↦ inl (check-Runs s ops e, round_performs c ops s here e)
    | inr (inr e) ↦ inr (inl (efbig, round_too_big c ops s here e))
    | inr (inl e) ↦ elim (Bool-cases (any_nowait ops)) [
      | inl fail ↦ inr (inl (eagain, round_blocks c ops s here e ∙ rw fail))
      | inr wait ↦ inr (inr (round_blocks c ops s here e ∙ rw wait))
    ]
  ]
]

-- What an operation wants of the value of its semaphore
abbrev pub Wanted : ℤ → ℕ → Type 0
Wanted (pos zero) v = v ≡ 0
Wanted (pos (suc n)) v = Unit {0}
Wanted (negsuc n) v = suc n ≤ v

wanted : (z : ℤ) (v : ℕ) → blocks z v ≡ false → Wanted z v
unfolding blocks
wanted (pos zero) v h = ground (arith, h)
wanted (pos (suc n)) v h = tt
wanted (negsuc n) v h = ground (arith, h)

not-Wanted : (z : ℤ) (v : ℕ) → Wanted z v → blocks z v ≡ false
unfolding blocks
not-Wanted (pos zero) v h = ground (arith, h)
not-Wanted (pos (suc n)) v h = ground arith
not-Wanted (negsuc n) v h = ground (arith, h)

-- An operation can run where its semaphore exists and is 0 for an operation 0, or has what a negative
-- operation takes.
abbrev pub CanRun : SemSet → Sembuf → Type 0
CanRun s op = (op.sem_num < s.nsems) × Wanted op.sem_op (value s.sems op.sem_num)

can_run : (s : SemSet) (op : Sembuf) → Runs s op → CanRun s op
can_run s op (inside, free) = (inside, wanted op.sem_op (value s.sems op.sem_num) free)

check_succeeds : (s : SemSet) (ops : List Sembuf) → All (CanRun s) ops → check s ops ≡ can_succeed
unfolding check
check_succeeds s [] a = refl
check_succeeds s (op ∷ ops) ((inside, want), a) =
    let f : blocks op.sem_op (value s.sems op.sem_num) ≡ false =
      not-Wanted op.sem_op (value s.sems op.sem_num) want in
    let e : leb s.nsems op.sem_num ≡ false = ground (arith, inside) in
    rw (e, f) (check_succeeds s ops a)

-- A `sem_op` is a `short`.
abbrev pub IsShort : Sembuf → Type 0
IsShort op = neg_part op.sem_op ≤ 2 ^ 15

add_op-mod :
    (v : ℕ) (z : ℤ)
    → neg_part z ≤ 2 ^ 15
    → (add_op v z + neg_part z) % 2 ^ 16 ≡ (v + pos_part z) % 2 ^ 16
unfolding add_op
add_op-mod v z h = omega arith

module _ (pid : ℕ) where
  apply-mod :
      (ops : List Sembuf) (sems : List Sem)
      → All (λ op. op.sem_num < length sems) ops
      → All IsShort ops
      → (k : ℕ)
      → (value (apply pid sems ops) k + taken ops k) % 2 ^ 16
        ≡ (value sems k + added ops k) % 2 ^ 16
  unfolding apply added taken
  apply-mod [] sems a b k = refl
  apply-mod (op ∷ ops) sems (inside, a) (small, b) k =
      let new : Sem = record { val = add_op (value sems op.sem_num) op.sem_op; lpid = pid } in
      let sems' : List Sem = set sems op.sem_num new in
      let len : length sems' ≡ length sems = length-set sems op.sem_num new in
      let ih =
        apply-mod ops sems' (subst (λ (n : ℕ). All (λ o. o.sem_num < n) ops) (sym len) a) b k in
      elim (Bool-cases (op.sem_num == k)) [
        | inl e ↦
            let at : op.sem_num ≡ k = ground (arith, e) in
            let now : value sems' k ≡ add_op (value sems k) op.sem_op =
              subst (λ (n : ℕ). value sems' n ≡ add_op (value sems n) op.sem_op) at
                (value-set_self sems op.sem_num new inside) in
            rw e (omega (arith, ih, now, add_op-mod (value sems k) op.sem_op small))
        | inr e ↦
            let ne : op.sem_num ≢ k = λ f. ground (arith, e, f) in
            let now : value sems' k ≡ value sems k =
              ap (λ (y : Sem). y.val) (get_or-set_ne sems op.sem_num k new zero_sem ne) in
            rw e (omega (arith, ih, now))
      ]

-- What a call has done when it returns 0: each semaphore has changed by what is added to it and
-- taken from it, in 16 bits, and all waiters are made ready.
abbrev pub Done : List Sembuf → SemSet → Outcome × SemSet → Type 0
Done ops s (o, s') =
    (o ≡ returned (ok 0) s.wait_queue)
    × (s'.wait_queue ≡ [])
    × ((k : ℕ) → (value s'.sems k + taken ops k) % 2 ^ 16 ≡ (value s.sems k + added ops k) % 2 ^ 16)

-- A round of sys_semop, on a set whose array holds its semaphores and operations that fit a short,
-- is all or nothing. On a set that is active and operations all of which can
-- run at the values before the call, all are applied: each semaphore changes by the sum of what the
-- operations add and take, in 16 bits, and all waiters are made ready. On a removed set, or where
-- an operation cannot run, the semaphores are left as they are, and the call fails with nobody made
-- ready, or sleeps at the end of the queue.
pub semop_round_atomic :
    (c : Caller) (ops : List Sembuf) (s : SemSet)
    → s.nsems ≤ length s.sems
    → All IsShort ops
    → ((s.active ≡ true) × All (CanRun s) ops × Done ops s (semop_round c ops s))
      ⊎ (((s.active ≡ false) ⊎ ¬ All (CanRun s) ops) × Unperformed c s (semop_round c ops s))
semop_round_atomic c ops s size small = elim (Bool-cases s.active) [
  | inr gone ↦ inr (inl gone, inl (eidrm, round_removed c ops s gone))
  | inl here ↦ elim (verdict_cases (check s ops)) [
    | inl e ↦
        let runs : All (Runs s) ops = check-Runs s ops e in
        inl (
          here,
          All-map (Runs s) (CanRun s) (λ op r. can_run s op r) ops runs,
          rw (round_performs c ops s here e) (
            refl,
            refl,
            apply-mod c.pid ops s.sems
                (All-map (Runs s) (λ op. op.sem_num < length s.sems)
                  (λ op r. omega (arith, r.0, size)) ops runs)
                small,
          ),
        )
    | inr (inr e) ↦ inr (
      inr (λ a. clash_big (sym (check_succeeds s ops a) ∙ e)),
      inl (efbig, round_too_big c ops s here e),
    )
    | inr (inl e) ↦ inr (
      inr (λ a. clash (sym (check_succeeds s ops a) ∙ e)),
      elim (Bool-cases (any_nowait ops)) [
        | inl fail ↦ inl (eagain, round_blocks c ops s here e ∙ rw fail)
        | inr wait ↦ inr (round_blocks c ops s here e ∙ rw wait)
      ],
    )
  ]
]
  where
    clash : can_succeed ≡ cannot → ⊥
    clash e = ground (arith, e)

    clash_big : can_succeed ≡ too_big → ⊥
    clash_big e = ground (arith, e)

-- Two decrements of one semaphore, each at most its value, together more than it.
module _ (c : Caller) (s : SemSet) (num a b : ℕ) (flags : ℕ) where
  abbrev pub both : List Sembuf
  both =
      record { sem_num = num; sem_op = negsuc a; sem_flg = flags }
      ∷ record { sem_num = num; sem_op = negsuc b; sem_flg = flags }
      ∷ []

  both_checked :
      num < s.nsems
      → suc a ≤ value s.sems num
      → suc b ≤ value s.sems num
      → check s both ≡ can_succeed
  unfolding check blocks
  both_checked in_range fits_a fits_b = ground arith

  both_applied :
      num < length s.sems
      → suc a ≤ value s.sems num
      → value s.sems num < suc a + suc b
      → value s.sems num < 2 ^ 16
      → suc b ≤ 2 ^ 15
      → value (apply c.pid s.sems both) num ≡ value s.sems num + 2 ^ 16 - suc a - suc b
  unfolding apply add_op
  both_applied in_range fits_a short small_v small_b =
      let v : ℕ = value s.sems num in
      let first : Sem = record { val = add_op v (negsuc a); lpid = c.pid } in
      let after : List Sem = set s.sems num first in
      let second : Sem = record { val = add_op (value after num) (negsuc b); lpid = c.pid } in
      let e : value after num ≡ add_op v (negsuc a) = value-set_self s.sems num first in_range in
      let e' : value (set after num second) num ≡ add_op (value after num) (negsuc b) =
        value-set_self after num second (omega (arith, length-set s.sems num first)) in
      omega arith

-- The operations of one call are checked against the value before the call: two decrements of
-- one semaphore, each at most its value but together more, succeed without waiting, and the value
-- wraps round to the difference plus 2^16.
pub double_decrement_wraps :
    (c : Caller) (s : SemSet) (num a b flags : ℕ)
    → s.active ≡ true
    → num < s.nsems
    → s.nsems ≤ length s.sems
    → suc a ≤ value s.sems num
    → suc b ≤ value s.sems num
    → value s.sems num < suc a + suc b
    → value s.sems num < 2 ^ 16
    → suc b ≤ 2 ^ 15
    → let (o, s') = semop_round c (both c s num a b flags) s in
      (o ≡ returned (ok 0) s.wait_queue)
      × (value s'.sems num ≡ value s.sems num + 2 ^ 16 - suc a - suc b)
double_decrement_wraps c s num a b flags here in_range size fits_a fits_b short small_v small_b =
    rw
      (round_performs c (both c s num a b flags) s here
        (both_checked c s num a b flags in_range fits_a fits_b))
      (refl, both_applied c s num a b flags (omega arith) fits_a short small_v small_b)
