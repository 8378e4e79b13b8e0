-- ===== src/Sem.antt =====
-- kernel/sys/sys_sem.c: System V semaphore sets. Locks are not modelled: each function is one
-- critical section. User memory and its faults are arguments.
pub mod Round
pub mod Ops
pub mod Ids
pub mod Control
mod Tests
use doppio.Prelude.{
  ℕ, ◌+◌, ◌-◌, ◌*◌, ◌/◌, ◌%◌, ◌^◌, Bool, true, false, not, ◌&&◌, ◌||◌, Option, none, some, List, [],
  ◌∷◌, ◌++◌, ltb, leb, ◌==◌, if◌then◌else◌, ℤ, pos, negsuc, pos_part, neg_part, is_negative, int_eq,
  length, get_or, set, replicate, find_index, has_flag,
}
use doppio.Errno.{
  Result, ok, err, Errno, eagain, efault, efbig, eidrm, einval, enoent, enomem, eexist,
}

abbrev pub max_sem_sets : ℕ
max_sem_sets = 32

abbrev pub max_sems_per_set : ℕ
max_sems_per_set = 32

abbrev pub user_addr_limit : ℕ
user_addr_limit = 0x0000800000000000

-- include/uapi/sys/ipc.h
abbrev pub ipc_creat : ℕ
ipc_creat = 0o1000

abbrev pub ipc_excl : ℕ
ipc_excl = 0o2000

abbrev pub ipc_nowait : ℕ
ipc_nowait = 0o4000

-- `struct sem_internal`; `val` is a `uint16_t`.
pub record Sem : Type 0 where
  pub val : ℕ
  pub lpid : ℕ

-- `struct semid_ds`
pub record SemidDs : Type 0 where
  pub key : ℤ
  pub mode : ℕ
  pub uid : ℕ
  pub gid : ℕ
  pub cuid : ℕ
  pub cgid : ℕ
  pub nsems : ℕ
  pub otime : ℕ
  pub ctime : ℕ

-- `struct sem_set_internal`. The queue holds threads, oldest first.
pub record SemSet : Type 0 where
  pub id : ℕ
  pub key : ℤ
  pub nsems : ℕ
  pub sems : List Sem
  pub ds : SemidDs
  pub wait_queue : List ℕ
  pub active : Bool

-- `struct sembuf`
pub record Sembuf : Type 0 where
  pub sem_num : ℕ
  pub sem_op : ℤ
  pub sem_flg : ℕ

-- The caller: `curthread`, and the fields of `curproc` that are read.
pub record Caller : Type 0 where
  pub thread : ℕ
  pub pid : ℕ
  pub uid : ℕ
  pub gid : ℕ

-- `next_semid` is an `int`: its 32 bits, of which those from 2^31 on are a negative number.
pub record Table : Type 0 where
  pub sem_sets : List SemSet
  pub next_semid : ℕ

abbrev pub zero_sem : Sem
zero_sem = record { val = 0; lpid = 0 }

abbrev pub zero_ds : SemidDs
zero_ds = record {
  key = pos 0;
  mode = 0;
  uid = 0;
  gid = 0;
  cuid = 0;
  cgid = 0;
  nsems = 0;
  otime = 0;
  ctime = 0;
}

-- A zeroed slot: static storage, and `memset`.
abbrev pub zero_set : SemSet
zero_set = record {
  id = 0;
  key = pos 0;
  nsems = 0;
  sems = replicate max_sems_per_set zero_sem;
  ds = zero_ds;
  wait_queue = [];
  active = false;
}

pub boot : Table
boot = record { sem_sets = replicate max_sem_sets zero_set; next_semid = 1 }

pub is_user_address_range : ℕ → ℕ → Bool
is_user_address_range start size =
    let end_addr = (start + size) % 2 ^ 64 in
    not (ltb end_addr start) && leb end_addr user_addr_limit

abbrev pub has_key : ℤ → SemSet → Bool
has_key key s = s.active && int_eq s.key key

abbrev pub has_id : ℤ → SemSet → Bool
has_id semid s = s.active && int_eq (pos s.id) semid

abbrev pub is_unused : SemSet → Bool
is_unused s = not s.active

pub set_at : Table → ℕ → SemSet
set_at t i = get_or t.sem_sets i zero_set

-- The set that `sys_semget` makes in an unused slot.
pub new_set : ℕ → ℤ → ℕ → ℕ → Caller → SemSet
new_set id key nsems semflg c = record zero_set {
  id = id;
  key = key;
  nsems = nsems;
  ds = record {
    key = key;
    mode = semflg % 0o1000;
    uid = c.uid;
    gid = c.gid;
    cuid = c.uid;
    cgid = c.gid;
    nsems = nsems;
    otime = 0;
    ctime = 0;
  };
  active = true;
}

-- `sys_semget` from the search for an unused slot on.
pub make_set : ℤ → ℕ → ℕ → Caller → Table → Result ℕ × Table
make_set key nsems semflg c t = elim (find_index is_unused t.sem_sets) [
  | none ↦ (err enomem, t)
  | some slot ↦ (
    ok t.next_semid,
    record {
      sem_sets = set t.sem_sets slot (new_set t.next_semid key nsems semflg c);
      next_semid = (t.next_semid + 1) % 2 ^ 32;
    },
  )
]

-- `sys_semget` from the test of IPC_CREAT on, where no set has the key.
pub create_set : ℤ → ℕ → ℕ → Caller → Table → Result ℕ × Table
create_set key nsems semflg c t =
    if not (has_flag semflg ipc_creat) && not (int_eq key (pos 0))
    then (err enoent, t)
    else if nsems == 0
    then (err einval, t)
    else make_set key nsems semflg c t

-- `sys_semget` at the set that has the key.
pub open_set : ℕ → ℕ → SemSet → Result ℕ
open_set nsems semflg s =
    if has_flag semflg ipc_creat && has_flag semflg ipc_excl
    then err eexist
    else if ltb 0 nsems && ltb s.nsems nsems
    then err einval
    else ok s.id

-- `sys_semget` at a key that is not IPC_PRIVATE.
pub semget_key : ℤ → ℕ → ℕ → Caller → Table → Result ℕ × Table
semget_key key nsems semflg c t = elim (find_index (has_key key) t.sem_sets) [
  | some i ↦ (open_set nsems semflg (set_at t i), t)
  | none ↦ create_set key nsems semflg c t
]

-- `sys_semget`, for `nsems` that is not negative.
pub semget_sized : ℤ → ℕ → ℕ → Caller → Table → Result ℕ × Table
semget_sized key nsems semflg c t =
    if ltb max_sems_per_set nsems
    then (err einval, t)
    else if int_eq key (pos 0)
    then create_set key nsems semflg c t
    else semget_key key nsems semflg c t

-- `sys_semget`
pub semget : ℤ → ℤ → ℕ → Caller → Table → Result ℕ × Table
semget key (pos nsems) semflg c t = semget_sized key nsems semflg c t
semget key (negsuc n) semflg c t = (err einval, t)

-- The first loop of `sys_semop` over the operations.
pub data Verdict : Type 0 where
  can_succeed cannot too_big : Verdict

-- Whether one operation has to wait at the value `v`.
pub blocks : ℤ → ℕ → Bool
blocks (pos n) v = if n == 0 then not (v == 0) else false
blocks (negsuc n) v = ltb v (n + 1)

pub check : SemSet → List Sembuf → Verdict
check s [] = can_succeed
check s (op ∷ ops) =
    let rest = check s ops in
    if leb s.nsems op.sem_num
    then too_big
    else if blocks op.sem_op (get_or s.sems op.sem_num zero_sem).val
    then cannot
    else rest

-- `val += op`, in 16 bits
pub add_op : ℕ → ℤ → ℕ
add_op v op = (v + pos_part op + 2 ^ 16 - neg_part op) % 2 ^ 16

-- The second loop, over the semaphores.
pub apply : ℕ → List Sem → List Sembuf → List Sem
apply pid sems [] = sems
apply pid sems (op ∷ ops) =
    apply pid
      (set sems op.sem_num
        (record { val = add_op (get_or sems op.sem_num zero_sem).val op.sem_op; lpid = pid }))
      ops

pub any_nowait : List Sembuf → Bool
any_nowait [] = false
any_nowait (op ∷ ops) = has_flag op.sem_flg ipc_nowait || any_nowait ops

-- How a round of the loop of `sys_semop` ends: the call returns, with the threads that are made
-- ready, or the caller sleeps on the set.
pub data Outcome : Type 0 where
  returned : Result ℕ → List ℕ → Outcome
  asleep : Outcome

-- One round, on the set that was found; a woken thread runs it again on the same slot.
pub semop_round : Caller → List Sembuf → SemSet → Outcome × SemSet
semop_round c ops s = if not s.active then (returned (err eidrm) [], s) else elim (check s ops) [
  | too_big ↦ (returned (err efbig) [], s)
  | can_succeed ↦ (
    returned (ok 0) s.wait_queue,
    record s { sems = apply c.pid s.sems ops; ds = record (s.ds) { otime = 0 }; wait_queue = [] },
  )
  | cannot ↦
      if any_nowait ops
      then (returned (err eagain) [], s)
      else (asleep, record s { wait_queue = s.wait_queue ++ (c.thread ∷ []) })
]

pub put_set : Table → ℕ → SemSet → Table
put_set t i s = record t { sem_sets = set t.sem_sets i s }

-- `sys_semop`, up to where it returns or sleeps. `user` reads `nsops` operations at an address, and
-- is `none` where `copy_from_user` fails; 6 is `sizeof(struct sembuf)`.
pub semop : (ℕ → ℕ → Option (List Sembuf)) → Caller → ℤ → ℕ → ℕ → Table → Outcome × Table
semop user c semid sops nsops t =
    if nsops == 0 || ltb max_sems_per_set nsops
    then (returned (err einval) [], t)
    else if sops == 0 || not (is_user_address_range sops (nsops * 6))
    then (returned (err efault) [], t)
    else elim (user sops nsops) [
      | none ↦ (returned (err efault) [], t)
      | some ops ↦ elim (find_index (has_id semid) t.sem_sets) [
        | none ↦ (returned (err einval) [], t)
        | some i ↦ let (o, s) = semop_round c ops (set_at t i) in (o, put_set t i s)
      ]
    ]

-- The commands of `sys_semctl` that the code knows; any other number is `unknown`.
pub data Command : Type 0 where
  getval setval rmid stat unknown : Command

pub command : ℤ → Command
command cmd =
    if int_eq cmd (pos 12)
    then getval
    else if int_eq cmd (pos 16)
    then setval
    else if int_eq cmd (pos 0)
    then rmid
    else if int_eq cmd (pos 2)
    then stat
    else unknown

-- What `sys_semctl` returns: its result, the threads made ready, and what it copies to the user.
pub record Reply : Type 0 where
  pub result : Result ℕ
  pub ready : List ℕ
  pub copied : Option SemidDs

abbrev pub refuse : Errno → Reply
refuse e = record { result = err e; ready = []; copied = none }

abbrev pub in_set : ℤ → SemSet → Bool
in_set semnum s = not (is_negative semnum) && ltb (pos_part semnum) s.nsems

-- `writable` is false where `copy_to_user` fails; 64 is `sizeof(struct semid_ds)`.
pub semctl_set : (ℕ → Bool) → Caller → ℤ → Command → ℕ → SemSet → Reply × SemSet
semctl_set writable c semnum getval arg s =
    if in_set semnum s
    then (
      record {
        result = ok (get_or s.sems (pos_part semnum) zero_sem).val;
        ready = [];
        copied = none;
      },
      s,
    )
    else (refuse einval, s)
semctl_set writable c semnum setval arg s =
    if in_set semnum s
    then (
      record { result = ok 0; ready = s.wait_queue; copied = none },
      record s {
        sems = set s.sems (pos_part semnum) (record { val = arg % 2 ^ 16; lpid = c.pid });
        wait_queue = [];
      },
    )
    else (refuse einval, s)
semctl_set writable c semnum rmid arg s = (
  record { result = ok 0; ready = s.wait_queue; copied = none },
  record s { active = false; wait_queue = [] },
)
semctl_set writable c semnum stat arg s =
    if arg == 0 || not (is_user_address_range arg 64)
    then (refuse efault, s)
    else if writable arg
    then (record { result = ok 0; ready = []; copied = some s.ds }, s)
    else (refuse efault, s)
semctl_set writable c semnum unknown arg s = (refuse einval, s)

pub semctl : (ℕ → Bool) → Caller → ℤ → ℤ → ℤ → ℕ → Table → Reply × Table
semctl writable c semid semnum cmd arg t = elim (find_index (has_id semid) t.sem_sets) [
  | none ↦ (refuse einval, t)
  | some i ↦
      let (r, s) = semctl_set writable c semnum (command cmd) arg (set_at t i) in (r, put_set t i s)
]
