-- ===== src/Sem/Ops.antt =====
-- The calls on a whole table: `sys_semop` and `sys_semctl` by identifier.
use doppio.Prelude.{
  ℕ, ◌*◌, ◌%◌, ◌^◌, ◌<◌, ◌≤◌, ◌≡◌, refl, ap, ◌∙◌, sym, ◌≢◌, ◌⊎◌, inl, inr, Bool, true, false, not,
  ◌||◌, Option, none, some, List, [], ltb, ◌==◌, if◌then◌else◌, ℤ, pos, int_eq, length, get_or, set,
  get_or-set_self, get_or-set_ne, length-set, find_index, find_index-some, Bool-cases, Option-cases,
  ℕ_discrete, arith,
}
use doppio.Errno.{ok, err, Errno, einval, efault}
use doppio.Sem.{
  Sem, SemSet, Sembuf, Caller, Table, zero_sem, zero_set, has_id, set_at, put_set, returned,
  is_user_address_range, semget, semop, semop_round, command, Command, getval, setval, rmid, stat,
  unknown, refuse, in_set, semctl_set, semctl, max_sems_per_set,
}
use doppio.Sem.Ids.{IsValid, HasNext, find_id, id_iff, semget-IsValid}
use doppio.Sem.Round.{semop_round_cases}

-- What `sys_semctl` does on the set it finds.
semctl_found :
    (w : ℕ → Bool) (c : Caller) (semid semnum cmd : ℤ) (arg : ℕ) (t : Table) (i : ℕ)
    → find_index (has_id semid) t.sem_sets ≡ some i
    → semctl w c semid semnum cmd arg t ≡ (
      (semctl_set w c semnum (command cmd) arg (set_at t i)).0,
      put_set t i (semctl_set w c semnum (command cmd) arg (set_at t i)).1,
    )
unfolding semctl
semctl_found w c semid semnum cmd arg t i e = rw (e, semctl)

semctl_unknown :
    (w : ℕ → Bool) (c : Caller) (semid semnum cmd : ℤ) (arg : ℕ) (t : Table)
    → find_index (has_id semid) t.sem_sets ≡ none
    → semctl w c semid semnum cmd arg t ≡ (refuse einval, t)
unfolding semctl
semctl_unknown w c semid semnum cmd arg t e = rw (e, semctl)

set_at-put_set :
    (t : Table) (i j : ℕ) (s : SemSet)
    → i < length t.sem_sets
    → set_at (put_set t i s) j ≡ (if i == j then s else set_at t j)
unfolding set_at put_set
set_at-put_set t i j s size = elim (ℕ_discrete i j) [
  | yes e ↦ ground (arith, get_or-set_self t.sem_sets i s zero_set size)
  | no ne ↦ ground (arith, get_or-set_ne t.sem_sets i j s zero_set ne)
]

put_set-sized :
    (t : Table) (i : ℕ) (s : SemSet) → length (put_set t i s).sem_sets ≡ length t.sem_sets
unfolding put_set
put_set-sized t i s = length-set t.sem_sets i s

put_set-next_semid : (t : Table) (i : ℕ) (s : SemSet) → (put_set t i s).next_semid ≡ t.next_semid
unfolding put_set
put_set-next_semid t i s = refl

-- A set is replaced by itself with other values: it keeps its identifier and key, and is not made active.
abbrev pub Updates : SemSet → SemSet → Type 0
Updates s s' = (s'.id ≡ s.id) × (s'.key ≡ s.key) × (s'.active ≡ true → s.active ≡ true)

module _ (t : Table) (i : ℕ) (s : SemSet) (inside : i < length t.sem_sets)
    (u : Updates (set_at t i) s) where
  at_put : (j : ℕ) → Updates (set_at t j) (set_at (put_set t i s) j)
  at_put j = elim (ℕ_discrete i j) [
    | yes e ↦ ground (arith, set_at-put_set t i j s inside)
    | no ne ↦ ground (arith, set_at-put_set t i j s inside)
  ]

  put_set-IsValid : IsValid t → IsValid (put_set t i s)
  put_set-IsValid v = record {
    sized = put_set-sized t i s ∙ v.sized;
    fresh = λ j h. ground (arith, at_put j, v.fresh j, put_set-next_semid t i s);
    ids = λ j k a b e.
        let (x, _, y) = at_put j in
        let (z, _, w) = at_put k in v.ids j k (y a) (w b) (sym x ∙ e ∙ z);
    keys = λ j k a b e ne.
        let (_, x, y) = at_put j in
        let (_, z, w) = at_put k in v.keys j k (y a) (w b) (sym x ∙ e ∙ z) (λ p. ne (x ∙ p));
  }

semctl_set-Updates :
    (w : ℕ → Bool) (c : Caller) (semnum : ℤ) (k : Command) (arg : ℕ) (s : SemSet)
    → Updates s (semctl_set w c semnum k arg s).1
unfolding semctl_set
semctl_set-Updates w c semnum getval arg s = elim (Bool-cases (in_set semnum s)) [
  | inl e ↦ ground arith
  | inr e ↦ ground arith
]
semctl_set-Updates w c semnum setval arg s = elim (Bool-cases (in_set semnum s)) [
  | inl e ↦ ground arith
  | inr e ↦ ground arith
]
semctl_set-Updates w c semnum rmid arg s = ground arith
semctl_set-Updates w c semnum stat arg s = ground arith
semctl_set-Updates w c semnum unknown arg s = ground arith

semop_round-Updates :
    (c : Caller) (ops : List Sembuf) (s : SemSet) → Updates s (semop_round c ops s).1
semop_round-Updates c ops s = elim (semop_round_cases c ops s) [
  | inl (_, e) ↦ rw e (refl, refl, λ h. h)
  | inr (inl (_, e)) ↦ rw e (refl, refl, λ h. h)
  | inr (inr e) ↦ rw e (refl, refl, λ h. h)
]

semop_cases :
    (user : ℕ → ℕ → Option (List Sembuf)) (c : Caller) (semid : ℤ) (sops nsops : ℕ) (t : Table)
    → ((e : Errno) × (semop user c semid sops nsops t ≡ (returned (err e) [], t)))
      ⊎ ((i : ℕ) × (ops : List Sembuf) × (find_index (has_id semid) t.sem_sets ≡ some i)
          × (semop user c semid sops nsops t ≡ (
            (semop_round c ops (set_at t i)).0,
            put_set t i (semop_round c ops (set_at t i)).1,
          )))
unfolding semop
semop_cases user c semid sops nsops t =
    elim (Bool-cases (nsops == 0 || ltb max_sems_per_set nsops)) [
      | inl e ↦ inl (einval, rw e refl)
      | inr e ↦ elim (Bool-cases (sops == 0 || not (is_user_address_range sops (nsops * 6)))) [
        | inl f ↦ inl (efault, rw (e, f) refl)
        | inr f ↦ elim (Option-cases (user sops nsops)) [
          | inl g ↦ inl (efault, rw (e, f, g) refl)
          | inr (ops, g) ↦ elim (Option-cases (find_index (has_id semid) t.sem_sets)) [
            | inl k ↦ inl (einval, rw (e, f, g, k) refl)
            | inr (i, k) ↦ inr (i, ops, k, rw (e, f, g, k) refl)
          ]
        ]
      ]
    ]

-- A call on the semaphores, as a process may make it.
pub data Call : Type 0 where
  get : ℤ → ℤ → ℕ → Call
  op : ℤ → ℕ → ℕ → Call
  ctl : ℤ → ℤ → ℤ → ℕ → Call

-- The table after a call, with the user memory it reads and may write.
abbrev pub serve : (ℕ → ℕ → Option (List Sembuf)) → (ℕ → Bool) → Caller → Call → Table → Table
serve user w c (get key nsems flags) t = (semget key nsems flags c t).1
serve user w c (op semid sops nsops) t = (semop user c semid sops nsops t).1
serve user w c (ctl semid semnum cmd arg) t = (semctl w c semid semnum cmd arg t).1

-- Every call keeps a table with identifiers left (the next one and the one after it are numbers of
-- an `int`) valid: active sets have different identifiers, all below the next one, and different
-- public keys.
pub serve-IsValid :
    (user : ℕ → ℕ → Option (List Sembuf)) (w : ℕ → Bool) (c : Caller) (call : Call) (t : Table)
    → IsValid t
    → HasNext t
    → IsValid (serve user w c call t)
serve-IsValid user w c (get key nsems flags) t v bound = semget-IsValid key nsems flags c t v bound
serve-IsValid user w c (op semid sops nsops) t v bound =
    elim (semop_cases user c semid sops nsops t) [
      | inl (_, out) ↦ rw (out, serve) v
      | inr (i, ops, e, out) ↦
          rw (out, serve)
            (put_set-IsValid t i (semop_round c ops (set_at t i)).1
              (find_index-some (has_id semid) zero_set t.sem_sets i e).0
              (semop_round-Updates c ops (set_at t i)) v)
    ]
serve-IsValid user w c (ctl semid semnum cmd arg) t v bound =
    elim (Option-cases (find_index (has_id semid) t.sem_sets)) [
      | inl e ↦ rw (semctl_unknown w c semid semnum cmd arg t e, serve) v
      | inr (i, e) ↦
          rw (semctl_found w c semid semnum cmd arg t i e, serve)
            (put_set-IsValid t i (semctl_set w c semnum (command cmd) arg (set_at t i)).1
              (find_index-some (has_id semid) zero_set t.sem_sets i e).0
              (semctl_set-Updates w c semnum (command cmd) arg (set_at t i)) v)
    ]

found_named :
    (t : Table) (id j : ℕ)
    → find_index (has_id (pos id)) t.sem_sets ≡ some j
    → ((set_at t j).active ≡ true) × ((set_at t j).id ≡ id)
unfolding set_at
found_named t id j e =
    id_iff id (set_at t j) (find_index-some (has_id (pos id)) zero_set t.sem_sets j e).1

semop_unknown :
    (user : ℕ → ℕ → Option (List Sembuf)) (c : Caller) (semid : ℤ) (sops nsops : ℕ) (t : Table)
    → find_index (has_id semid) t.sem_sets ≡ none
    → (e : Errno) × (semop user c semid sops nsops t ≡ (returned (err e) [], t))
semop_unknown user c semid sops nsops t none_has = elim (semop_cases user c semid sops nsops t) [
  | inl r ↦ r
  | inr (i, _, found, _) ↦ absurd (ground arith)
]

semctl_set-rmid :
    (w : ℕ → Bool) (c : Caller) (semnum : ℤ) (arg : ℕ) (s : SemSet)
    → semctl_set w c semnum (command (pos 0)) arg s ≡ (
      record { result = ok 0; ready = s.wait_queue; copied = none },
      record s { active = false; wait_queue = [] },
    )
unfolding semctl_set command int_eq
semctl_set-rmid w c semnum arg s = refl

semctl_set-setval :
    (w : ℕ → Bool) (c : Caller) (n arg : ℕ) (s : SemSet)
    → n < s.nsems
    → semctl_set w c (pos n) (command (pos 16)) arg s ≡ (
      record { result = ok 0; ready = s.wait_queue; copied = none },
      record s {
        sems = set s.sems n (record { val = arg % 2 ^ 16; lpid = c.pid });
        wait_queue = [];
      },
    )
unfolding semctl_set command int_eq
semctl_set-setval w c n arg s h = ground arith

semctl_set-getval :
    (w : ℕ → Bool) (c : Caller) (n arg : ℕ) (s : SemSet)
    → n < s.nsems
    → semctl_set w c (pos n) (command (pos 12)) arg s
      ≡ (record { result = ok (get_or s.sems n zero_sem).val; ready = []; copied = none }, s)
unfolding semctl_set command int_eq
semctl_set-getval w c n arg s h = ground arith

-- The set that an identifier names, and what `sys_semctl` does with it.
module _ (t : Table) (i id : ℕ) (v : IsValid t) (here : (set_at t i).active ≡ true)
    (named : (set_at t i).id ≡ id) where
  found_at : find_index (has_id (pos id)) t.sem_sets ≡ some i
  found_at = find_id t i id v here named

  inside : i < length t.sem_sets
  inside = (find_index-some (has_id (pos id)) zero_set t.sem_sets i found_at).0

  abbrev removed : SemSet
  removed = record (set_at t i) { active = false; wait_queue = [] }

  -- After the removal no active set has the identifier.
  removed_id : find_index (has_id (pos id)) (put_set t i removed).sem_sets ≡ none
  removed_id = elim (Option-cases (find_index (has_id (pos id)) (put_set t i removed).sem_sets)) [
    | inl e ↦ e
    | inr (j, e) ↦ absurd (elim (ℕ_discrete i j) [
      | yes p ↦
          ground
            (arith, found_named (put_set t i removed) id j e, set_at-put_set t i j removed inside)
      | no p ↦ ground (
        arith,
        found_named (put_set t i removed) id j e,
        set_at-put_set t i j removed inside,
        v.ids i j here,
      )
    ])
  ]

-- Removal by `sys_semctl`: all threads waiting on the set are made ready and none is left on its
-- queue, every other set stays as it is, and from then on the identifier is unknown to every
-- `sys_semctl` and every `sys_semop`, which fail and change nothing.
pub semctl-remove :
    (w : ℕ → Bool) (c : Caller) (semnum : ℤ) (arg : ℕ) (t : Table) (i id : ℕ)
    → IsValid t
    → (set_at t i).active ≡ true
    → (set_at t i).id ≡ id
    → let (r, t') = semctl w c (pos id) semnum (pos 0) arg t in
      (r ≡ record { result = ok 0; ready = (set_at t i).wait_queue; copied = none })
      × ((set_at t' i).wait_queue ≡ [])
      × ((j : ℕ) → i ≢ j → set_at t' j ≡ set_at t j)
      × ((w' : ℕ → Bool) (c' : Caller) (semnum' cmd : ℤ) (arg' : ℕ)
          → semctl w' c' (pos id) semnum' cmd arg' t' ≡ (refuse einval, t'))
      × ((user : ℕ → ℕ → Option (List Sembuf)) (c' : Caller) (sops nsops : ℕ)
          → (e : Errno) × (semop user c' (pos id) sops nsops t' ≡ (returned (err e) [], t')))
semctl-remove w c semnum arg t i id v here named =
    let s : SemSet = removed t i id v here named in
    let size : i < length t.sem_sets = inside t i id v here named in
    let gone : find_index (has_id (pos id)) (put_set t i s).sem_sets ≡ none =
      removed_id t i id v here named in
    rw
      (
        semctl_found w c (pos id) semnum (pos 0) arg t i (found_at t i id v here named),
        semctl_set-rmid w c semnum arg (set_at t i),
      )
      (
        refl,
        ground (arith, set_at-put_set t i i s size),
        (λ j ne. ground (arith, set_at-put_set t i j s size)),
        (λ w' c' n' cmd a'. semctl_unknown w' c' (pos id) n' cmd a' (put_set t i s) gone),
        λ user c' sops nsops. semop_unknown user c' (pos id) sops nsops (put_set t i s) gone,
      )

-- SETVAL, then GETVAL by anyone, with no call between: the value set is read back modulo 2^16, the
-- threads that waited are made ready by the first call, and the second changes nothing.
pub semctl-set_get :
    (w w' : ℕ → Bool) (c c' : Caller) (arg arg' : ℕ) (t : Table) (i id n : ℕ)
    → IsValid t
    → (set_at t i).active ≡ true
    → (set_at t i).id ≡ id
    → n < (set_at t i).nsems
    → (set_at t i).nsems ≤ length (set_at t i).sems
    → let (r, t') = semctl w c (pos id) (pos n) (pos 16) arg t in
      (r ≡ record { result = ok 0; ready = (set_at t i).wait_queue; copied = none })
      × ((semctl w' c' (pos id) (pos n) (pos 12) arg' t').0
          ≡ record { result = ok (arg % 2 ^ 16); ready = []; copied = none })
semctl-set_get w w' c c' arg arg' t i id n v here named in_range size =
    let x : Sem = record { val = arg % 2 ^ 16; lpid = c.pid } in
    let s : SemSet = record (set_at t i) { sems = set (set_at t i).sems n x; wait_queue = [] } in
    let room : i < length t.sem_sets = inside t i id v here named in
    let t' : Table = put_set t i s in
    let at : set_at t' i ≡ s = ground (arith, set_at-put_set t i i s room) in
    let found : find_index (has_id (pos id)) t'.sem_sets ≡ some i =
      find_id t' i id (put_set-IsValid t i s room (refl, refl, λ h. h) v)
        (ap (λ (y : SemSet). y.active) at ∙ here) (ap (λ (y : SemSet). y.id) at ∙ named) in
    rw
      (
        semctl_found w c (pos id) (pos n) (pos 16) arg t i (found_at t i id v here named),
        semctl_set-setval w c n arg (set_at t i) in_range,
      )
      (
        refl,
        rw
            (
              semctl_found w' c' (pos id) (pos n) (pos 12) arg' t' i found,
              at,
              semctl_set-getval w' c' n arg' s in_range,
            )
            (ap (λ (y : Sem). record { result = ok y.val; ready = []; copied = none })
              (get_or-set_self (set_at t i).sems n x zero_sem (omega arith))),
      )
