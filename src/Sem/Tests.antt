-- ===== src/Sem/Tests.antt =====
-- Runs of the semaphore calls on concrete tables.
use doppio.Prelude.{
  All, ℕ, ◌+◌, ◌-◌, ◌^◌, ◌≡◌, refl, ap, length, find_index, int_eq, ◌⊎◌, Bool, true, false, none,
  List, [], ◌∷◌, pos, negsuc, arith, Option,
}
use doppio.Errno.{ok}
use doppio.Sem.{
  SemSet, Sembuf, Caller, Table, boot, set_at, semget, semop_round, semctl, new_set, returned,
  asleep, ipc_creat, check, blocks, any_nowait, semget_sized, semget_key, create_set, make_set,
}
use doppio.Sem.Round.{
  semop_round-ok, semop_round_atomic, double_decrement_wraps, performed, CanRun, Done, value, added,
  taken, Runs, both, Unperformed,
}
use doppio.Sem.Ids.{IsValid, HasNext, boot-IsValid, semget-IsValid}
use doppio.Sem.Ops.{get, serve, serve-IsValid}
use doppio.Sem.Control.{Removed, ReadsBack, semctl-remove-set_get}

abbrev caller : Caller
caller = record { thread = 7; pid = 40; uid = 1000; gid = 1000 }

abbrev other : Caller
other = record { thread = 8; pid = 41; uid = 1000; gid = 1000 }

abbrev three : SemSet
three = record (new_set 1 (pos 99) 2 ipc_creat caller) {
  sems = record { val = 3; lpid = 0 } ∷ record { val = 0; lpid = 0 } ∷ [];
  wait_queue = 5 ∷ 6 ∷ [];
}

abbrev move : List Sembuf
move =
    record { sem_num = 0; sem_op = negsuc 1; sem_flg = 0 }
    ∷ record { sem_num = 1; sem_op = pos 4; sem_flg = 0 }
    ∷ []

abbrev too_much : List Sembuf
too_much = record { sem_num = 0; sem_op = negsuc 3; sem_flg = 0 } ∷ []

move_runs :
    semop_round caller move three ≡ (returned (ok 0) (5 ∷ 6 ∷ []), performed caller move three)
unfolding semop_round new_set check blocks
move_runs = refl

too_much_sleeps : (semop_round caller too_much three).0 ≡ asleep
unfolding semop_round new_set check blocks any_nowait
too_much_sleeps = refl

three_fields : (three.nsems ≡ 2) × (three.active ≡ true)
unfolding new_set
three_fields = (refl, refl)

semop_round-ok_example :
    let s' = (semop_round caller move three).1 in
    All (Runs three) move
    × ((k : ℕ) → value s'.sems k + taken move k ≡ value three.sems k + added move k)
    × ((5 ∷ 6 ∷ []) ≡ three.wait_queue)
    × (s'.wait_queue ≡ [])
semop_round-ok_example =
    semop_round-ok caller move three (5 ∷ 6 ∷ []) (omega (arith, three_fields))
      ((λ e. ground arith, tt), (tt, tt)) (omega arith, (omega arith, tt)) (ap (λ r. r.0) move_runs)

semop_round_atomic_example :
    ((three.active ≡ true)
      × All (CanRun three) move
      × Done move three (semop_round caller move three))
    ⊎ (((three.active ≡ false) ⊎ ¬ All (CanRun three) move)
        × Unperformed caller three (semop_round caller move three))
semop_round_atomic_example =
    semop_round_atomic caller move three (omega (arith, three_fields))
      (omega arith, (omega arith, tt))

double_decrement_wraps_example :
    let (o, s') = semop_round caller (both caller three 0 1 2 0) three in
    (o ≡ returned (ok 0) three.wait_queue) × (value s'.sems 0 ≡ 3 + 2 ^ 16 - 2 - 3)
double_decrement_wraps_example =
    double_decrement_wraps caller three 0 1 2 0 three_fields.1 (omega (arith, three_fields))
      (omega (arith, three_fields)) (omega arith) (omega arith) (omega arith) (omega arith)
      (omega arith)

-- A table with one set, of two semaphores, under the key 99.
abbrev one_set : Table
one_set = (semget (pos 99) (pos 2) ipc_creat caller boot).1

one_set_slot :
    ((set_at one_set 0).active ≡ true)
    × ((set_at one_set 0).id ≡ 1)
    × ((set_at one_set 0).nsems ≡ 2)
    × ((set_at one_set 0).wait_queue ≡ [])
    × (length (set_at one_set 0).sems ≡ 32)
unfolding semget semget_sized semget_key create_set make_set boot find_index int_eq set_at new_set
one_set_slot = (refl, refl, refl, refl, refl)

no_user : ℕ → ℕ → Option (List Sembuf)
no_user sops nsops = none

all_writable : ℕ → Bool
all_writable a = true

boot-HasNext : HasNext boot
unfolding boot
boot-HasNext = omega arith

serve-IsValid_example :
    IsValid (serve no_user all_writable caller (get (pos 99) (pos 2) ipc_creat) boot)
serve-IsValid_example =
    serve-IsValid no_user all_writable caller (get (pos 99) (pos 2) ipc_creat) boot boot-IsValid
      boot-HasNext

one_set-IsValid : IsValid one_set
one_set-IsValid = semget-IsValid (pos 99) (pos 2) ipc_creat caller boot boot-IsValid boot-HasNext

semctl-remove-set_get_example :
    Removed one_set 0 1 (semctl all_writable caller (pos 1) (pos 0) (pos 0) 70000 one_set)
    × ReadsBack one_set 0 1 0 70000
        (semctl all_writable caller (pos 1) (pos 0) (pos 16) 70000 one_set)
semctl-remove-set_get_example =
    semctl-remove-set_get all_writable caller (pos 0) 70000 one_set 0 1 0 one_set-IsValid
      one_set_slot.0 one_set_slot.1 (omega (arith, one_set_slot)) (omega (arith, one_set_slot))
