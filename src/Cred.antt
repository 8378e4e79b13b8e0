-- ===== src/Cred.antt =====
-- kernel/sys/sys_getid.c: the user and group identities of a process, and the system calls that
-- read and change them. `curproc` is an argument; `none` is a null `curproc`.
mod Laws
mod Tests
use doppio.Prelude.{
  ℕ, suc, ℤ, pos, ◌-◌, ◌^◌, ◌%◌, Bool, true, false, not, ◌&&◌, ◌||◌, Option, none, some, List, [],
  ◌∷◌, ◌==◌, if◌then◌else◌,
}
use doppio.Errno.{Result, ok, err, eperm}

-- The identity fields of `struct proc`. `uid_t` and `gid_t` have 32 bits.
pub record Proc : Type 0 where
  pub pid : ℤ
  pub uid : ℕ
  pub euid : ℕ
  pub suid : ℕ
  pub gid : ℕ
  pub egid : ℕ
  pub sgid : ℕ
  pub umask : ℕ

-- `(uid_t)-1` and `(gid_t)-1`: leave the identity alone.
abbrev pub no_id : ℕ
no_id = 2 ^ 32 - 1

pub uid_may_set : ℕ → ℕ → ℕ → ℕ → Bool
uid_may_set val ruid euid suid = val == ruid || val == euid || val == suid

pub gid_may_set : ℕ → ℕ → ℕ → ℕ → Bool
gid_may_set val rgid egid sgid = val == rgid || val == egid || val == sgid

-- A call returns its result and the process after it; 0 is `ok 0`.
abbrev pub Call : Type 0
Call = Proc → Result ℕ × Proc

-- `sys_getpid`, and the four calls that read an identity.
pub getpid : Option Proc → ℤ
getpid none = pos 1
getpid (some p) = elim p.pid [ pos (suc n) ↦ pos (suc n) | _ ↦ pos 1 ]

pub getuid : Option Proc → ℕ
getuid none = 0
getuid (some p) = p.uid

pub getgid : Option Proc → ℕ
getgid none = 0
getgid (some p) = p.gid

pub geteuid : Option Proc → ℕ
geteuid none = 0
geteuid (some p) = p.euid

pub getegid : Option Proc → ℕ
getegid none = 0
getegid (some p) = p.egid

pub setuid : ℕ → Call
setuid uid p =
    if p.euid == 0
    then (ok 0, record p { uid = uid; euid = uid; suid = uid })
    else if uid == p.uid || uid == p.suid
    then (ok 0, record p { euid = uid })
    else (err eperm, p)

pub setgid : ℕ → Call
setgid gid p =
    if p.euid == 0
    then (ok 0, record p { gid = gid; egid = gid; sgid = gid })
    else if gid == p.gid || gid == p.sgid
    then (ok 0, record p { egid = gid })
    else (err eperm, p)

-- `val != (uid_t)-1 && !uid_may_set(val, ...)`
pub uid_refused : ℕ → Proc → Bool
unfolding uid_may_set
uid_refused val p = not (val == no_id) && not (uid_may_set val p.uid p.euid p.suid)

pub gid_refused : ℕ → Proc → Bool
unfolding gid_may_set
gid_refused val p = not (val == no_id) && not (gid_may_set val p.gid p.egid p.sgid)

-- `if (val != (uid_t)-1) field = val;`
abbrev pub assign : ℕ → ℕ → ℕ
assign val old = if val == no_id then old else val

pub setresuid : ℕ → ℕ → ℕ → Call
setresuid ruid euid suid p =
    if not (p.euid == 0) && (uid_refused ruid p || uid_refused euid p || uid_refused suid p)
    then (err eperm, p)
    else (
      ok 0,
      record p { uid = assign ruid p.uid; euid = assign euid p.euid; suid = assign suid p.suid },
    )

pub setresgid : ℕ → ℕ → ℕ → Call
setresgid rgid egid sgid p =
    if not (p.euid == 0) && (gid_refused rgid p || gid_refused egid p || gid_refused sgid p)
    then (err eperm, p)
    else (
      ok 0,
      record p { gid = assign rgid p.gid; egid = assign egid p.egid; sgid = assign sgid p.sgid },
    )

pub setreuid : ℕ → ℕ → Call
unfolding setresuid
setreuid ruid euid = setresuid ruid euid no_id

pub setregid : ℕ → ℕ → Call
unfolding setresgid
setregid rgid egid = setresgid rgid egid no_id

-- `mask & 0777`, for a `curproc` that is not null
pub umask : ℕ → Call
umask mask p = (ok p.umask, record p { umask = mask % 0o1000 })

-- What a process may ask for.
pub data Request : Type 0 where
  to_setuid to_setgid to_umask : ℕ → Request
  to_setreuid to_setregid : ℕ → ℕ → Request
  to_setresuid to_setresgid : ℕ → ℕ → ℕ → Request

pub serve : Request → Call
serve (to_setuid u) = setuid u
serve (to_setgid g) = setgid g
serve (to_umask m) = umask m
serve (to_setreuid r e) = setreuid r e
serve (to_setregid r e) = setregid r e
serve (to_setresuid r e s) = setresuid r e s
serve (to_setresgid r e s) = setresgid r e s

-- The same calls where `curproc` may be null.
pub syscall : Request → Option Proc → Result ℕ × Option Proc
syscall q (some p) = let (r, p') = serve q p in (r, some p')
syscall (to_umask m) none = (ok 0o22, none)
syscall _ none = (err eperm, none)

pub run : Proc → List Request → Proc
run p [] = p
run p (q ∷ qs) = run (serve q p).1 qs
