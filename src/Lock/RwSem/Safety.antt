-- ===== src/Lock/RwSem/Safety.antt =====
-- What the threads may rely on: exclusion, and that no waiter is forgotten.
use doppio.Prelude.{
  ℕ, zero, suc, ◌<◌, ◌≤◌, ◌≡◌, refl, ◌≢◌, ◌⊎◌, inl, inr, true, List, [], ◌∷◌, ℤ, pos, negsuc,
  ℕ_discrete, arith,
}
use doppio.Lock.Threads.{weight-le-total, weights-le-total}
use doppio.Lock.RwSem.{
  RwSem, down_read, down_write, System, reads, writes, retry_read, retry_write, Reach,
}
use doppio.Lock.RwSem.Inv.{Inv, Balanced, reading, writing}
use doppio.Lock.RwSem.Inv.Steps.{Reach-Inv}

one_writer : (c : ℤ) (r w : ℕ) → Balanced c r w → 1 ≤ w → (r ≡ 0) × (w ≡ 1)
one_writer (pos k) r w b h = absurd (omega arith)
one_writer (negsuc zero) r w b h = b
one_writer (negsuc (suc k)) r w b h = absurd b

-- In every reachable state a writer is alone: no other thread reads or writes.
pub writer_excludes :
    (n : ℕ) {s : System} (i j : ℕ)
    → Reach n s
    → i < n
    → j < n
    → s.pc i ≡ writes
    → (s.pc j ≡ reads) ⊎ (s.pc j ≡ writes)
    → i ≡ j
writer_excludes n {s} i j r hi hj at other =
    let v : Inv n s = Reach-Inv n r in
    let (no_reader, one) =
      one_writer s.sem.count _ _ v.balanced (ground (arith, weight-le-total writing n i s.pc hi)) in
    elim (ℕ_discrete i j) [
      | yes e ↦ e
      | no ne ↦ absurd (
          ground (
            arith,
            weights-le-total writing n i j s.pc hi hj ne,
            weight-le-total reading n j s.pc hj,
          ))
    ]

-- A thread that was woken and whose next round of its loop takes the semaphore.
abbrev pub CanProceed : System → ℕ → Type 0
CanProceed s j =
    ((s.pc j ≡ retry_write) × ((down_write j s.sem).0 ≡ true))
    ⊎ ((s.pc j ≡ retry_read) × ((down_read j s.sem).0 ≡ true))

writer_proceeds : (j : ℕ) (s : RwSem) → s.count ≡ pos 0 → (down_write j s).0 ≡ true
unfolding down_write
writer_proceeds j s e = rw (e, down_write)

reader_proceeds :
    (j : ℕ) (s : RwSem) → s.count ≡ pos 0 → s.write_wait_queue ≡ [] → (down_read j s).0 ≡ true
unfolding down_read
reader_proceeds j s e q = rw (e, q, down_read)

absurd_cons : (k : ℕ) (q : List ℕ) {l : List ℕ} → l ≡ k ∷ q → l ≡ [] → ⊥
absurd_cons k q e h = cc

proceeds :
    (j : ℕ) (s : System)
    → s.sem.write_wait_queue ≡ []
    → s.sem.count ≡ pos 0
    → (s.pc j ≡ retry_read) ⊎ (s.pc j ≡ retry_write)
    → CanProceed s j
proceeds j s e free (inl at) = inr (at, reader_proceeds j s.sem free e)
proceeds j s e free (inr at) = inl (at, writer_proceeds j s.sem free)

-- In every reachable state where the semaphore is free and some thread waits on a queue, a woken
-- thread stands before the round of its loop that takes the semaphore: no wake-up is lost.
pub no_lost_wakeup :
    (n : ℕ) {s : System}
    → Reach n s
    → s.sem.count ≡ pos 0
    → (s.sem.read_wait_queue ≢ []) ⊎ (s.sem.write_wait_queue ≢ [])
    → (j : ℕ) × (j < n) × CanProceed s j
no_lost_wakeup n {s} r free waiting = by_writers s.sem.write_wait_queue refl waiting
  where
    v : Inv n s
    v = Reach-Inv n r

    by_writers :
        (q : List ℕ)
        → s.sem.write_wait_queue ≡ q
        → (s.sem.read_wait_queue ≢ []) ⊎ (s.sem.write_wait_queue ≢ [])
        → (j : ℕ) × (j < n) × CanProceed s j
    by_writers (k ∷ q) e w =
        let (j, b, at) = v.pending_writer free (λ none_left. absurd_cons k q e none_left) in
        (j, b, inl (at, writer_proceeds j s.sem free))
    by_writers [] e (inr w) = absurd (w e)
    by_writers [] e (inl w) = let (j, b, at) = v.pending free w in (j, b, proceeds j s e free at)
