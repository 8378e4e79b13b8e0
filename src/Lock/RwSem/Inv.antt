-- ===== src/Lock/RwSem/Inv.antt =====
-- What holds between any two critical sections of a read-write semaphore.
mod Queues
pub mod Steps
use doppio.Prelude.{ℕ, zero, suc, ◌<◌, ◌≡◌, ◌≢◌, ◌⊎◌, List, [], ◌∷◌, ℤ, pos, negsuc}
use doppio.Lock.Threads.{total}
use doppio.Lock.RwSem.{
  System, Pc, reads, writes, asleep_read, asleep_write, retry_read, retry_write,
}

abbrev pub reading : Pc → ℕ
reading reads = 1
reading _ = 0

abbrev pub writing : Pc → ℕ
writing writes = 1
writing _ = 0

-- The count tells how many threads read and write.
abbrev pub Balanced : ℤ → ℕ → ℕ → Type 0
Balanced (pos k) r w = (r ≡ k) × (w ≡ 0)
Balanced (negsuc zero) r w = (r ≡ 0) × (w ≡ 1)
Balanced (negsuc (suc k)) r w = ⊥

abbrev pub Absent : ℕ → List ℕ → Type 0
Absent j [] = Unit {0}
Absent j (k ∷ q) = (j ≢ k) × Absent j q

-- The threads of a queue are distinct and all sleep at `p`.
abbrev pub Sleepers : ℕ → Pc → (ℕ → Pc) → List ℕ → Type 0
Sleepers n p pc [] = Unit {0}
Sleepers n p pc (j ∷ q) = (pc j ≡ p) × (j < n) × Absent j q × Sleepers n p pc q

-- While the semaphore is free and somebody waits, a thread is about to try again.
abbrev pub PendingWriter : ℕ → ℤ → List ℕ → (ℕ → Pc) → Type 0
PendingWriter n c wq pc = c ≡ pos 0 → wq ≢ [] → (j : ℕ) × (j < n) × (pc j ≡ retry_write)

abbrev pub Pending : ℕ → ℤ → List ℕ → (ℕ → Pc) → Type 0
Pending n c rq pc =
    c ≡ pos 0 → rq ≢ [] → (j : ℕ) × (j < n) × ((pc j ≡ retry_read) ⊎ (pc j ≡ retry_write))

pub record Inv (n : ℕ) (s : System) : Type 0 where
  pub balanced : Balanced s.sem.count (total reading n s.pc) (total writing n s.pc)
  pub readers : Sleepers n asleep_read s.pc s.sem.read_wait_queue
  pub writers : Sleepers n asleep_write s.pc s.sem.write_wait_queue
  pub pending_writer : PendingWriter n s.sem.count s.sem.write_wait_queue s.pc
  pub pending : Pending n s.sem.count s.sem.read_wait_queue s.pc
