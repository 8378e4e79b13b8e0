-- ===== src/Lock/RwSem/Inv/Queues.antt =====
-- Queues of sleeping threads under the moves of one thread.
use doppio.Prelude.{ℕ, ◌<◌, ◌∙◌, ◌≢◌, List, [], ◌∷◌, ◌++◌}
use doppio.Lock.Threads.{update, update_self, update_ne}
use doppio.Lock.RwSem.{Pc}
use doppio.Lock.RwSem.Inv.{Absent, Sleepers}

module _ (n : ℕ) (p : Pc) (pc : ℕ → Pc) where
  -- A thread that does not sleep in the queue may move.
  pub Sleepers-update :
      (i : ℕ) (x : Pc) (q : List ℕ) → pc i ≢ p → Sleepers n p pc q → Sleepers n p (update pc i x) q
  Sleepers-update i x [] h s = tt
  Sleepers-update i x (j ∷ q) h (e, b, a, s) =
      (update_ne pc i j x (λ same. h (rw same e)) ∙ e, b, a, Sleepers-update i x q h s)

  pub Sleepers-Absent : (i : ℕ) (q : List ℕ) → pc i ≢ p → Sleepers n p pc q → Absent i q
  Sleepers-Absent i [] h s = tt
  Sleepers-Absent i (j ∷ q) h (e, b, a, s) = (λ same. h (rw same e), Sleepers-Absent i q h s)

  -- The thread that leaves the front may move.
  pub Sleepers-pop :
      (j : ℕ) (x : Pc) (q : List ℕ)
      → Absent j q
      → Sleepers n p pc q
      → Sleepers n p (update pc j x) q
  Sleepers-pop j x [] a s = tt
  Sleepers-pop j x (k ∷ q) (ne, a) (e, b, a', s) =
      (update_ne pc j k x ne ∙ e, b, a', Sleepers-pop j x q a s)

Absent-append : (i j : ℕ) (q : List ℕ) → Absent j q → j ≢ i → Absent j (q ++ (i ∷ []))
Absent-append i j [] a h = (h, tt)
Absent-append i j (k ∷ q) (ne, a) h = (ne, Absent-append i j q a h)

-- A thread that goes to sleep joins the end of the queue.
pub Sleepers-push :
    (n : ℕ) (p : Pc) (pc : ℕ → Pc) (i : ℕ) (q : List ℕ)
    → pc i ≢ p
    → i < n
    → Sleepers n p pc q
    → Sleepers n p (update pc i p) (q ++ (i ∷ []))
Sleepers-push n p pc i [] h b s = (update_self pc i p, b, tt, tt)
Sleepers-push n p pc i (j ∷ q) h b (e, b', a, s) = (
  update_ne pc i j p (λ same. h (rw same e)) ∙ e,
  b',
  Absent-append i j q a (λ same. h (rw (← same) e)),
  Sleepers-push n p pc i q h b s,
)
