-- ===== src/Cred/Laws.antt =====
-- Who a process can become.
use doppio.Prelude.{
  ℕ, ◌≡◌, ◌≢◌, ◌⊎◌, inl, inr, true, false, ◌||◌, List, [], ◌∷◌, ◌==◌, if◌then◌else◌, ℕ_discrete,
  Bool-cases, arith,
}
use doppio.Errno.{ok, err, Errno, eperm}
use doppio.Cred.{
  Proc, Request, to_setuid, to_setgid, to_umask, to_setreuid, to_setregid, to_setresuid,
  to_setresgid, no_id, uid_refused, gid_refused, setuid, setgid, setresuid, setreuid, setregid,
  umask, serve, run,
}

-- One of three identities.
abbrev pub OneOf : ℕ → ℕ → ℕ → ℕ → Type 0
OneOf v a b c = (v ≡ a) ⊎ (v ≡ b) ⊎ (v ≡ c)

-- No identity of `q` is new to `p`.
pub record NoNewIds (p q : Proc) : Type 0 where
  pub uid : OneOf q.uid p.uid p.euid p.suid
  pub euid : OneOf q.euid p.uid p.euid p.suid
  pub suid : OneOf q.suid p.uid p.euid p.suid
  pub gid : OneOf q.gid p.gid p.egid p.sgid
  pub egid : OneOf q.egid p.gid p.egid p.sgid
  pub sgid : OneOf q.sgid p.gid p.egid p.sgid

pub record IsUnprivileged (p : Proc) : Type 0 where
  pub uid : p.uid ≢ 0
  pub euid : p.euid ≢ 0
  pub suid : p.suid ≢ 0

serve-NoNewIds : (q : Request) (p : Proc) → p.euid ≢ 0 → NoNewIds p (serve q p).1
unfolding serve setuid setgid umask setreuid setregid uid_refused gid_refused
serve-NoNewIds (to_setuid u) p h = ground arith
serve-NoNewIds (to_setgid g) p h = ground arith
serve-NoNewIds (to_umask m) p h = ground arith
serve-NoNewIds (to_setreuid r e) p h = ground arith
serve-NoNewIds (to_setregid r e) p h = ground arith
serve-NoNewIds (to_setresuid r e s) p h = ground arith
serve-NoNewIds (to_setresgid r e s) p h = ground arith

OneOf-trans :
    (v a b c a' b' c' : ℕ)
    → OneOf v a b c
    → OneOf a a' b' c'
    → OneOf b a' b' c'
    → OneOf c a' b' c'
    → OneOf v a' b' c'
OneOf-trans v a b c a' b' c' h i j k = ground arith

NoNewIds-trans : {p q r : Proc} → NoNewIds p q → NoNewIds q r → NoNewIds p r
NoNewIds-trans {p} {q} {r} h k = record {
  uid = OneOf-trans r.uid q.uid q.euid q.suid p.uid p.euid p.suid k.uid h.uid h.euid h.suid;
  euid = OneOf-trans r.euid q.uid q.euid q.suid p.uid p.euid p.suid k.euid h.uid h.euid h.suid;
  suid = OneOf-trans r.suid q.uid q.euid q.suid p.uid p.euid p.suid k.suid h.uid h.euid h.suid;
  gid = OneOf-trans r.gid q.gid q.egid q.sgid p.gid p.egid p.sgid k.gid h.gid h.egid h.sgid;
  egid = OneOf-trans r.egid q.gid q.egid q.sgid p.gid p.egid p.sgid k.egid h.gid h.egid h.sgid;
  sgid = OneOf-trans r.sgid q.gid q.egid q.sgid p.gid p.egid p.sgid k.sgid h.gid h.egid h.sgid;
}

NoNewIds-refl : (p : Proc) → NoNewIds p p
NoNewIds-refl p = ground arith

still-IsUnprivileged : {p q : Proc} → IsUnprivileged p → NoNewIds p q → IsUnprivileged q
still-IsUnprivileged u n = ground arith

-- A process none of whose three user identities is root never gets an identity that it did not
-- have, whatever calls it makes: each user identity is one of its three at the start, and each group
-- identity is one of its three at the start.
pub run-NoNewIds : (p : Proc) (qs : List Request) → IsUnprivileged p → NoNewIds p (run p qs)
unfolding run
run-NoNewIds p [] u = NoNewIds-refl p
run-NoNewIds p (q ∷ qs) u =
    let h : NoNewIds p (serve q p).1 = serve-NoNewIds q p u.euid in
    NoNewIds-trans h (run-NoNewIds (serve q p).1 qs (still-IsUnprivileged u h))

-- Root that calls `setuid` with another user becomes that user for good: after any further calls
-- all three user identities are that user.
pub setuid_drops_root :
    (u : ℕ) (p : Proc) (qs : List Request)
    → p.euid ≡ 0
    → u ≢ 0
    → let q = run (setuid u p).1 qs in (q.uid ≡ u) × (q.euid ≡ u) × (q.suid ≡ u)
setuid_drops_root u p qs root other =
    let q : Proc = (setuid u p).1 in
    let dropped : (q.uid ≡ u) × (q.euid ≡ u) × (q.suid ≡ u) = unfold setuid in ground arith in
    let n : NoNewIds q (run q qs) = run-NoNewIds q qs (ground arith) in ground arith

-- A request is granted to root, and to another process if each identity asked for is one that it
-- has in that class, or is left alone.
abbrev pub UidAllowed : ℕ → Proc → Type 0
UidAllowed v p = (v ≡ no_id) ⊎ OneOf v p.uid p.euid p.suid

uid_refused_no : (v : ℕ) (p : Proc) → uid_refused v p ≡ false → UidAllowed v p
unfolding uid_refused
uid_refused_no v p h = ground arith

uid_refused_yes : (v : ℕ) (p : Proc) → uid_refused v p ≡ true → ¬ UidAllowed v p
unfolding uid_refused
uid_refused_yes v p h a = ground arith

refused-not-allowed :
    (r e s : ℕ) (p : Proc)
    → (uid_refused r p || uid_refused e p || uid_refused s p) ≡ true
    → ¬ (UidAllowed r p × UidAllowed e p × UidAllowed s p)
refused-not-allowed r e s p bad (ar, ae, at_s) = elim (Bool-cases (uid_refused r p)) [
  | inl h ↦ uid_refused_yes r p h ar
  | inr ok_r ↦ elim (Bool-cases (uid_refused e p)) [
    | inl h ↦ uid_refused_yes e p h ae
    | inr ok_e ↦ uid_refused_yes s p (ground arith) at_s
  ]
]

-- `setresuid` succeeds exactly if the process is root or each of the three identities is left
-- alone or is one of its own; then each identity is what was asked for or unchanged and nothing
-- else changes, and otherwise the error is EPERM and the process is unchanged.
pub setresuid_lem :
    (r e s : ℕ) (p : Proc)
    → (((p.euid ≡ 0) ⊎ (UidAllowed r p × UidAllowed e p × UidAllowed s p))
        × (setresuid r e s p ≡ (
          ok 0,
          record p {
            uid = if r == no_id then p.uid else r;
            euid = if e == no_id then p.euid else e;
            suid = if s == no_id then p.suid else s;
          },
        )))
      ⊎ ((p.euid ≢ 0)
          × ¬ (UidAllowed r p × UidAllowed e p × UidAllowed s p)
          × (setresuid r e s p ≡ (err eperm, p)))
unfolding setresuid
setresuid_lem r e s p = elim (ℕ_discrete p.euid 0) [
  | yes root ↦ inl (inl root, ground arith)
  | no user ↦ elim (Bool-cases (uid_refused r p || uid_refused e p || uid_refused s p)) [
    | inl bad ↦ inr (user, λ a. refused-not-allowed r e s p bad a, ground arith)
    | inr good ↦ inl (
      inr (
        uid_refused_no r p (ground arith),
        uid_refused_no e p (ground arith),
        uid_refused_no s p (ground arith),
      ),
      ground arith,
    )
  ]
]

-- A call that fails leaves the process as it was.
pub serve_failed : (q : Request) (p : Proc) (e : Errno) → (serve q p).0 ≡ err e → (serve q p).1 ≡ p
unfolding serve setuid setgid umask setreuid setregid
serve_failed (to_setuid u) p e h = ground arith
serve_failed (to_setgid g) p e h = ground arith
serve_failed (to_umask m) p e h = ground arith
serve_failed (to_setreuid r e') p e h = ground arith
serve_failed (to_setregid r e') p e h = ground arith
serve_failed (to_setresuid r e' s) p e h = ground arith
serve_failed (to_setresgid r e' s) p e h = ground arith
