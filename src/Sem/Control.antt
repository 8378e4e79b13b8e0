-- ===== src/Sem/Control.antt =====
-- kernel/sys/sys_sem.c: what `sys_semctl` promises about a set of the table.
use doppio.Prelude.{
  ℕ, ◌%◌, ◌^◌, ◌<◌, ◌≤◌, ◌≡◌, ◌≢◌, Bool, true, Option, none, List, [], ℤ, pos, length,
}
use doppio.Errno.{ok, err, Errno, einval}
use doppio.Sem.{Reply, Sembuf, Caller, Table, set_at, returned, semop, refuse, semctl}
use doppio.Sem.Ids.{IsValid}
use doppio.Sem.Ops.{semctl-remove, semctl-set_get}

-- What IPC_RMID leaves of the set in slot `i`, with the identifier `id`
abbrev pub Removed : Table → ℕ → ℕ → Reply × Table → Type 0
Removed t i id (r, t') =
    (r ≡ record { result = ok 0; ready = (set_at t i).wait_queue; copied = none })
    × ((set_at t' i).wait_queue ≡ [])
    × ((j : ℕ) → i ≢ j → set_at t' j ≡ set_at t j)
    × ((w : ℕ → Bool) (c : Caller) (semnum cmd : ℤ) (arg : ℕ)
        → semctl w c (pos id) semnum cmd arg t' ≡ (refuse einval, t'))
    × ((user : ℕ → ℕ → Option (List Sembuf)) (c : Caller) (sops nsops : ℕ)
        → (e : Errno) × (semop user c (pos id) sops nsops t' ≡ (returned (err e) [], t')))

-- What SETVAL leaves of the semaphore `n`, for GETVAL by anyone
abbrev pub ReadsBack : Table → ℕ → ℕ → ℕ → ℕ → Reply × Table → Type 0
ReadsBack t i id n val (r, t') =
    (r ≡ record { result = ok 0; ready = (set_at t i).wait_queue; copied = none })
    × ((w : ℕ → Bool) (c : Caller) (arg : ℕ)
        → (semctl w c (pos id) (pos n) (pos 12) arg t').0
          ≡ record { result = ok (val % 2 ^ 16); ready = []; copied = none })

-- `sys_semctl` on a set of a valid table, with an index that it has. IPC_RMID makes all waiters of
-- the set ready and leaves every other set as it is, and in the table after it the identifier is
-- unknown to every `sys_semctl` and every `sys_semop`, which fail and change nothing. SETVAL makes the waiters
-- ready, and GETVAL by anyone after it reads back the value modulo 2^16.
pub semctl-remove-set_get :
    (w : ℕ → Bool) (c : Caller) (semnum : ℤ) (arg : ℕ) (t : Table) (i id n : ℕ)
    → IsValid t
    → (set_at t i).active ≡ true
    → (set_at t i).id ≡ id
    → n < (set_at t i).nsems
    → (set_at t i).nsems ≤ length (set_at t i).sems
    → Removed t i id (semctl w c (pos id) semnum (pos 0) arg t)
      × ReadsBack t i id n arg (semctl w c (pos id) (pos n) (pos 16) arg t)
semctl-remove-set_get w c semnum arg t i id n v here named in_range size = (
  semctl-remove w c semnum arg t i id v here named,
  (
    (semctl-set_get w w c c arg 0 t i id n v here named in_range size).0,
    λ w' c' arg'. (semctl-set_get w w' c c' arg arg' t i id n v here named in_range size).1,
  ),
)
