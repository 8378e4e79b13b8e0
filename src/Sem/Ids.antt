-- ===== src/Sem/Ids.antt =====
-- The table of semaphore sets: identifiers and keys, `sys_semget`, and removal.
use doppio.Prelude.{
  has_flag, ◌^◌, ◌%◌, ◌≤◌, ℕ, ◌+◌, ◌<◌, ◌≡◌, refl, sym, ◌∙◌, ◌≢◌, ◌⊎◌, inl, inr, true, false, not,
  ◌&&◌, none, some, ltb, ◌==◌, if◌then◌else◌, ℤ, pos, negsuc, int_eq, int_eq_iff, length, set,
  get_or-set_self, get_or-set_ne, length-set, get_or_out, find_index, find_index-some,
  find_index-none, find_index-only, get_or-replicate, length-replicate, Bool-cases, Option-cases,
  ℕ_discrete, dec_lt, arith,
}
use doppio.Errno.{Result, ok, err, Errno, einval, enomem, enoent, eexist}
use doppio.Sem.{
  SemSet, Table, Caller, zero_set, boot, set_at, has_key, has_id, is_unused, new_set, make_set,
  create_set, open_set, semget_key, semget_sized, semget, ipc_creat, ipc_excl, max_sem_sets,
  max_sems_per_set,
}

-- Active sets have different identifiers, all given out before, and different public keys.
pub record IsValid (t : Table) : Type 0 where
  pub sized : length t.sem_sets ≡ max_sem_sets
  pub fresh : (i : ℕ) → (set_at t i).active ≡ true → (set_at t i).id < t.next_semid
  pub ids :
      (i j : ℕ)
      → (set_at t i).active ≡ true
      → (set_at t j).active ≡ true
      → (set_at t i).id ≡ (set_at t j).id
      → i ≡ j
  pub keys :
      (i j : ℕ)
      → (set_at t i).active ≡ true
      → (set_at t j).active ≡ true
      → (set_at t i).key ≡ (set_at t j).key
      → (set_at t i).key ≢ pos 0
      → i ≡ j

-- The next identifier and the one after it are positive numbers of an `int`.
abbrev pub HasNext : Table → Type 0
HasNext t = t.next_semid + 1 < 2 ^ 31

active-lt : (t : Table) (i : ℕ) → (set_at t i).active ≡ true → i < length t.sem_sets
unfolding set_at
active-lt t i h = elim (dec_lt i (length t.sem_sets)) [
  | yes p ↦ p
  | no q ↦ absurd (ground (arith, get_or_out t.sem_sets i zero_set))
]

key_iff : (key : ℤ) (s : SemSet) → has_key key s ≡ true → (s.active ≡ true) × (s.key ≡ key)
key_iff key s h = ground (arith, int_eq_iff s.key key)

key_of : (key : ℤ) (s : SemSet) → s.active ≡ true → s.key ≡ key → has_key key s ≡ true
key_of key s h e = ground (arith, int_eq_iff s.key key)

pos-injective : (a b : ℕ) → pos a ≡ pos b → a ≡ b
pos-injective a b e = ground arith

pub id_iff : (id : ℕ) (s : SemSet) → has_id (pos id) s ≡ true → (s.active ≡ true) × (s.id ≡ id)
id_iff id s h = ground (arith, int_eq_iff (pos s.id) (pos id), pos-injective s.id id)

id_of : (id : ℕ) (s : SemSet) → s.active ≡ true → s.id ≡ id → has_id (pos id) s ≡ true
id_of id s h e = ground (arith, int_eq_iff (pos s.id) (pos id))

-- An identifier of an active set finds its slot, and so does a public key.
pub find_id :
    (t : Table) (i id : ℕ)
    → IsValid t
    → (set_at t i).active ≡ true
    → (set_at t i).id ≡ id
    → find_index (has_id (pos id)) t.sem_sets ≡ some i
unfolding set_at
find_id t i id v h e =
    find_index-only (has_id (pos id)) zero_set t.sem_sets i (active-lt t i h)
      (id_of id (set_at t i) h e)
      λ j q. let (a, b) = id_iff id (set_at t j) q in v.ids i j h a (e ∙ sym b)

pub find_key :
    (t : Table) (i : ℕ) (key : ℤ)
    → IsValid t
    → key ≢ pos 0
    → (set_at t i).active ≡ true
    → (set_at t i).key ≡ key
    → find_index (has_key key) t.sem_sets ≡ some i
unfolding set_at
find_key t i key v ne h e =
    find_index-only (has_key key) zero_set t.sem_sets i (active-lt t i h)
      (key_of key (set_at t i) h e)
      λ j q.
        let (a, b) = key_iff key (set_at t j) q in v.keys i j h a (e ∙ sym b) (λ z. ne (sym e ∙ z))

-- The table after a set is made in slot `slot`.
abbrev pub add_set : Table → ℕ → SemSet → Table
add_set t slot s = record {
  sem_sets = set t.sem_sets slot s;
  next_semid = (t.next_semid + 1) % 2 ^ 32;
}

set_at-add_set :
    (t : Table) (slot j : ℕ) (s : SemSet)
    → slot < length t.sem_sets
    → set_at (add_set t slot s) j ≡ (if slot == j then s else set_at t j)
unfolding set_at
set_at-add_set t slot j s size = elim (ℕ_discrete slot j) [
  | yes e ↦ ground (arith, get_or-set_self t.sem_sets slot s zero_set size)
  | no ne ↦ ground (arith, get_or-set_ne t.sem_sets slot j s zero_set ne)
]

-- `sys_semget` may make a set under the next identifier in an unused slot, where no active set
-- has the key (unless the key is private).
abbrev pub Made : ℤ → ℕ → ℕ → Caller → Table → Result ℕ × Table → Type 0
Made key nsems semflg c t out =
    (slot : ℕ) × (slot < length t.sem_sets)
    × ((set_at t slot).active ≡ false)
    × ((key ≡ pos 0) ⊎ ((m : ℕ) → m < length t.sem_sets → has_key key (set_at t m) ≡ false))
    × (out ≡ (ok t.next_semid, add_set t slot (new_set t.next_semid key nsems semflg c)))

abbrev Refused : Table → Result ℕ × Table → Type 0
Refused t out = (e : Errno) × (out ≡ (err e, t))

make_set_cases :
    (key : ℤ) (nsems semflg : ℕ) (c : Caller) (t : Table)
    → (key ≡ pos 0) ⊎ ((m : ℕ) → m < length t.sem_sets → has_key key (set_at t m) ≡ false)
    → Refused t (make_set key nsems semflg c t)
      ⊎ Made key nsems semflg c t (make_set key nsems semflg c t)
unfolding make_set set_at
make_set_cases key nsems semflg c t h = elim (Option-cases (find_index is_unused t.sem_sets)) [
  | inl e ↦ inl (enomem, rw (e, make_set) refl)
  | inr (slot, e) ↦
      let (size, unused) = find_index-some is_unused zero_set t.sem_sets slot e in
      inr (slot, size, ground arith, h, rw (e, make_set) refl)
]

create_set_cases :
    (key : ℤ) (nsems semflg : ℕ) (c : Caller) (t : Table)
    → (key ≡ pos 0) ⊎ ((m : ℕ) → m < length t.sem_sets → has_key key (set_at t m) ≡ false)
    → Refused t (create_set key nsems semflg c t)
      ⊎ Made key nsems semflg c t (create_set key nsems semflg c t)
unfolding create_set
create_set_cases key nsems semflg c t h =
    elim (Bool-cases (not (has_flag semflg ipc_creat) && not (int_eq key (pos 0)))) [
      | inl missing ↦ inl (enoent, rw missing)
      | inr may ↦ elim (Bool-cases (nsems == 0)) [
        | inl empty ↦ inl (einval, rw (may, empty))
        | inr sized ↦ rw (may, sized) (make_set_cases key nsems semflg c t h)
      ]
    ]

-- It may return the identifier of the set that has the public key.
abbrev Found : ℤ → Table → Result ℕ × Table → Type 0
Found key t out =
    (i : ℕ) × (find_index (has_key key) t.sem_sets ≡ some i)
    × (key ≢ pos 0)
    × (out ≡ (ok (set_at t i).id, t))

open_set_cases :
    (nsems semflg : ℕ) (s : SemSet)
    → ((e : Errno) × (open_set nsems semflg s ≡ err e)) ⊎ (open_set nsems semflg s ≡ ok s.id)
unfolding open_set
open_set_cases nsems semflg s =
    elim (Bool-cases (has_flag semflg ipc_creat && has_flag semflg ipc_excl)) [
      | inl excl ↦ inl (eexist, rw excl)
      | inr open_ ↦ elim (Bool-cases (ltb 0 nsems && ltb s.nsems nsems)) [
        | inl large ↦ inl (einval, rw (open_, large))
        | inr fits ↦ inr (rw (open_, fits))
      ]
    ]

key_cases :
    (key : ℤ)
    → ((key ≡ pos 0) × (int_eq key (pos 0) ≡ true)) ⊎ ((key ≢ pos 0) × (int_eq key (pos 0) ≡ false))
key_cases key = elim (Bool-cases (int_eq key (pos 0))) [
  | inl e ↦ inl ((int_eq_iff key (pos 0)).0 e, e)
  | inr ne ↦ inr (λ h. absurd (ground (arith, int_eq_iff key (pos 0))), ne)
]

no_key :
    (key : ℤ) (t : Table)
    → find_index (has_key key) t.sem_sets ≡ none
    → (m : ℕ) → m < length t.sem_sets
    → has_key key (set_at t m) ≡ false
unfolding set_at
no_key key t e m h = find_index-none (has_key key) zero_set t.sem_sets e m h

abbrev Cases : ℤ → ℕ → ℕ → Caller → Table → Result ℕ × Table → Type 0
Cases key nsems semflg c t out = Refused t out ⊎ (Found key t out ⊎ Made key nsems semflg c t out)

Cases-create :
    (key : ℤ) (nsems semflg : ℕ) (c : Caller) (t : Table) (out : Result ℕ × Table)
    → Refused t out ⊎ Made key nsems semflg c t out
    → Cases key nsems semflg c t out
Cases-create key nsems semflg c t out (inl p) = inl p
Cases-create key nsems semflg c t out (inr r) = inr (inr r)

semget_key_hit :
    (key : ℤ) (nsems semflg : ℕ) (c : Caller) (t : Table) (i : ℕ)
    → find_index (has_key key) t.sem_sets ≡ some i
    → semget_key key nsems semflg c t ≡ (open_set nsems semflg (set_at t i), t)
unfolding semget_key
semget_key_hit key nsems semflg c t i e = rw (e, semget_key)

semget_key_miss :
    (key : ℤ) (nsems semflg : ℕ) (c : Caller) (t : Table)
    → find_index (has_key key) t.sem_sets ≡ none
    → semget_key key nsems semflg c t ≡ create_set key nsems semflg c t
unfolding semget_key
semget_key_miss key nsems semflg c t e = rw (e, semget_key)

semget_key-Cases :
    (key : ℤ) (nsems semflg : ℕ) (c : Caller) (t : Table)
    → key ≢ pos 0
    → Cases key nsems semflg c t (semget_key key nsems semflg c t)
semget_key-Cases key nsems semflg c t public =
    elim (Option-cases (find_index (has_key key) t.sem_sets)) [
      | inr (i, e) ↦ elim (open_set_cases nsems semflg (set_at t i)) [
        | inl (x, r) ↦ inl (x, semget_key_hit key nsems semflg c t i e ∙ rw r)
        | inr r ↦ inr (inl (i, e, public, semget_key_hit key nsems semflg c t i e ∙ rw r))
      ]
      | inl e ↦ rw (semget_key_miss key nsems semflg c t e) (
          Cases-create key nsems semflg c t _
            (create_set_cases key nsems semflg c t (inr (no_key key t e))))
    ]

semget_sized-Cases :
    (key : ℤ) (nsems semflg : ℕ) (c : Caller) (t : Table)
    → Cases key nsems semflg c t (semget_sized key nsems semflg c t)
unfolding semget_sized
semget_sized-Cases key nsems semflg c t = elim (Bool-cases (ltb max_sems_per_set nsems)) [
  | inl large ↦ inl (einval, rw large)
  | inr fits ↦ rw fits (elim (key_cases key) [
    | inl (private, e) ↦
        rw e (
          Cases-create key nsems semflg c t _ (create_set_cases key nsems semflg c t (inl private)))
    | inr (public, ne) ↦ rw ne (semget_key-Cases key nsems semflg c t public)
  ])
]

size : ℤ → ℕ
size (pos n) = n
size (negsuc n) = 0

semget-Cases :
    (key nsems : ℤ) (semflg : ℕ) (c : Caller) (t : Table)
    → Cases key (size nsems) semflg c t (semget key nsems semflg c t)
unfolding semget size
semget-Cases key (pos n) semflg c t = semget_sized-Cases key n semflg c t
semget-Cases key (negsuc n) semflg c t = inl (einval, refl)

-- The table with a new set is valid again.
module _ (t : Table) (slot : ℕ) (key : ℤ) (nsems semflg : ℕ) (c : Caller) (v : IsValid t)
    (bound : HasNext t) (inside : slot < length t.sem_sets)
    (unused : (set_at t slot).active ≡ false)
    (free : (key ≡ pos 0)
      ⊎ ((m : ℕ) → m < length t.sem_sets → has_key key (set_at t m) ≡ false)) where
  abbrev made : SemSet
  made = new_set t.next_semid key nsems semflg c

  abbrev grown : Table
  grown = add_set t slot made

  at_slot : set_at grown slot ≡ made
  at_slot = ground (arith, set_at-add_set t slot slot made inside)

  elsewhere : (j : ℕ) → slot ≢ j → set_at grown j ≡ set_at t j
  elsewhere j ne = ground (arith, set_at-add_set t slot j made inside)

  made_fields : (made.id ≡ t.next_semid) × (made.key ≡ key) × (made.active ≡ true)
  unfolding new_set
  made_fields = (refl, refl, refl)

  next_id : grown.next_semid ≡ t.next_semid + 1
  next_id = omega (arith, bound)

  other_key : (j : ℕ) → (set_at t j).active ≡ true → (set_at t j).key ≡ key → key ≢ pos 0 → ⊥
  other_key j h e public = elim free [
    | inl private ↦ public private
    | inr none_has ↦ ground (arith, none_has j (active-lt t j h), key_of key (set_at t j) h e)
  ]

  grown-IsValid : IsValid grown
  grown-IsValid = record {
    sized = length-set t.sem_sets slot made ∙ v.sized;
    fresh = λ i h. elim (ℕ_discrete slot i) [
      | yes e ↦ ground (arith, at_slot, made_fields, next_id)
      | no ne ↦ ground (arith, elsewhere i ne, v.fresh i, next_id)
    ];
    ids = λ i j h k e. elim (ℕ_discrete slot i) [
      | yes p ↦ elim (ℕ_discrete slot j) [
        | yes q ↦ sym p ∙ q
        | no q ↦ absurd (ground (arith, at_slot, elsewhere j q, made_fields, v.fresh j))
      ]
      | no p ↦ elim (ℕ_discrete slot j) [
        | yes q ↦ absurd (ground (arith, at_slot, elsewhere i p, made_fields, v.fresh i))
        | no q ↦ ground (arith, elsewhere i p, elsewhere j q, v.ids i j)
      ]
    ];
    keys = λ i j h k e public. elim (ℕ_discrete slot i) [
      | yes p ↦ elim (ℕ_discrete slot j) [
        | yes q ↦ sym p ∙ q
        | no q ↦ absurd (
            other_key j (ground (arith, elsewhere j q))
              (ground (arith, at_slot, elsewhere j q, made_fields))
              (ground (arith, at_slot, made_fields)))
      ]
      | no p ↦ elim (ℕ_discrete slot j) [
        | yes q ↦ absurd (
            other_key i (ground (arith, elsewhere i p))
              (ground (arith, at_slot, elsewhere i p, made_fields))
              (ground (arith, elsewhere i p, at_slot, made_fields)))
        | no q ↦ ground (arith, elsewhere i p, elsewhere j q, v.keys i j)
      ]
    ];
  }

pub boot-IsValid : IsValid boot
unfolding boot set_at
boot-IsValid = record {
  sized = length-replicate max_sem_sets zero_set;
  fresh = λ i h. absurd (ground (arith, get_or-replicate max_sem_sets i zero_set));
  ids = λ i j h k e. absurd (ground (arith, get_or-replicate max_sem_sets i zero_set));
  keys = λ i j h k e p. absurd (ground (arith, get_or-replicate max_sem_sets i zero_set));
}

-- `sys_semget`, with identifiers left, keeps the table valid: active sets have different
-- identifiers below the next one, and different public keys.
pub semget-IsValid :
    (key nsems : ℤ) (semflg : ℕ) (c : Caller) (t : Table)
    → IsValid t
    → HasNext t
    → IsValid (semget key nsems semflg c t).1
semget-IsValid key nsems semflg c t v bound = elim (semget-Cases key nsems semflg c t) [
  | inl (e, out) ↦ rw out v
  | inr (inl (i, f, p, out)) ↦ rw out v
  | inr (inr (slot, inside, unused, free, out)) ↦
      rw out (grown-IsValid t slot key (size nsems) semflg c v bound inside unused free)
]

-- A call that opens the set of a key: the flags and the size are tested against the set.
abbrev pub Exclusive : ℕ → Type 0
Exclusive flags = (has_flag flags ipc_creat ≡ true) × (has_flag flags ipc_excl ≡ true)

abbrev pub Opened : ℕ → ℕ → SemSet → Result ℕ → Type 0
Opened n flags s r =
    ((n ≤ max_sems_per_set) × ¬ Exclusive flags × (n ≤ s.nsems) × (r ≡ ok s.id))
    ⊎ (((n ≤ max_sems_per_set) × Exclusive flags × (r ≡ err eexist))
        ⊎ (((max_sems_per_set < n) ⊎ (¬ Exclusive flags × (s.nsems < n))) × (r ≡ err einval)))

-- What the key of an identifier opens: one set, which has them
abbrev pub KeyOpens : ℤ → ℕ → Table → Type 0
KeyOpens key id t =
    (s : SemSet) × (s.id ≡ id)
    × (s.key ≡ key)
    × (s.active ≡ true)
    × ((n flags : ℕ) (c : Caller)
        → ((semget key (pos n) flags c t).1 ≡ t)
          × Opened n flags s (semget key (pos n) flags c t).0)
