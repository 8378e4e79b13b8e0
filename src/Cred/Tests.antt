-- ===== src/Cred/Tests.antt =====
-- A set-user-id process, and the theorems about identities at concrete processes.
use doppio.Prelude.{◌≡◌, refl, ◌≢◌, ◌⊎◌, pos, none, [], ◌∷◌, arith}
use doppio.Errno.{ok, err, eperm}
use doppio.Cred.{
  Proc, to_setuid, to_umask, to_setreuid, to_setresuid, no_id, setuid, setresuid, serve, run,
  syscall,
}
use doppio.Cred.Laws.{
  NoNewIds, run-NoNewIds, setuid_drops_root, setresuid_lem, UidAllowed, serve_failed,
}

-- User 1000, running a program of user 33.
abbrev helper : Proc
helper = record {
  pid = pos 7;
  uid = 1000;
  euid = 33;
  suid = 33;
  gid = 100;
  egid = 100;
  sgid = 100;
  umask = 0;
}

abbrev root : Proc
root = record {
  pid = pos 1;
  uid = 0;
  euid = 0;
  suid = 0;
  gid = 0;
  egid = 0;
  sgid = 0;
  umask = 0o22;
}

switches_back : (run helper (to_setuid 1000 ∷ to_setuid 33 ∷ [])).euid ≡ 33
unfolding run serve setuid
switches_back = refl

refuses : (serve (to_setuid 0) helper).0 ≡ err eperm
unfolding serve setuid
refuses = refl

no_process : syscall (to_umask 0) none ≡ (ok 0o22, none)
unfolding syscall
no_process = refl

run-NoNewIds_example : NoNewIds helper (run helper (to_setuid 1000 ∷ to_setresuid 0 0 0 ∷ []))
run-NoNewIds_example = run-NoNewIds helper (to_setuid 1000 ∷ to_setresuid 0 0 0 ∷ []) (record {
  uid = λ e. absurd (omega arith);
  euid = λ e. absurd (omega arith);
  suid = λ e. absurd (omega arith);
})

drops_root :
    let q = run (setuid 1000 root).1 (to_setuid 0 ∷ to_setreuid 0 0 ∷ []) in
    (q.uid ≡ 1000) × (q.euid ≡ 1000) × (q.suid ≡ 1000)
drops_root =
    setuid_drops_root 1000 root (to_setuid 0 ∷ to_setreuid 0 0 ∷ []) refl
      (λ e. absurd (omega arith))

setresuid_lem_example :
    (((helper.euid ≡ 0) ⊎ (UidAllowed 1000 helper × UidAllowed no_id helper × UidAllowed 0 helper))
      × (setresuid 1000 no_id 0 helper ≡ (ok 0, record helper { uid = 1000; suid = 0 })))
    ⊎ ((helper.euid ≢ 0)
        × ¬ (UidAllowed 1000 helper × UidAllowed no_id helper × UidAllowed 0 helper)
        × (setresuid 1000 no_id 0 helper ≡ (err eperm, helper)))
setresuid_lem_example = setresuid_lem 1000 no_id 0 helper

refused_unchanged : (serve (to_setuid 5) helper).1 ≡ helper
unfolding serve setuid
refused_unchanged = serve_failed (to_setuid 5) helper eperm refl
