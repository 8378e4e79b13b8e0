-- ===== src/Lock/RwSem/Inv/Steps.antt =====
-- Every critical section keeps the invariant.
use doppio.Prelude.{
  ℕ, zero, suc, ◌+◌, ◌<◌, ◌≡◌, refl, ◌∙◌, ◌≢◌, ◌⊎◌, inl, inr, true, false, not, ◌&&◌, Option, none,
  some, List, [], ◌∷◌, ℤ, pos, negsuc, is_negative, Bool-cases, arith,
}
use doppio.Lock.Threads.{update, update_self, update_ne, total, total-update, total-zero}
use doppio.Lock.RwSem.{
  RwSem, rwsem_init, list_empty, is_zero, increment, decrement, down_read, down_write, wake_one,
  up_read, up_write, downgrade_write, System, Pc, idle, reads, writes, asleep_read, asleep_write,
  retry_read, retry_write, woken, wake, start, after_down_read, after_down_write, after_up_read,
  after_up_write, after_downgrade, Step, to_read, to_write, end_read, end_write, downgrade, Reach,
  init, next,
}
use doppio.Lock.RwSem.Inv.{Inv, Balanced, Sleepers, reading, writing}
use doppio.Lock.RwSem.Inv.Queues.{Sleepers-update, Sleepers-pop, Sleepers-push}

woken_weight :
    (n j : ℕ) (pc : ℕ → Pc) (p : Pc)
    → j < n
    → pc j ≡ p
    → (p ≡ asleep_read) ⊎ (p ≡ asleep_write)
    → (total reading n (update pc j (woken (pc j))) ≡ total reading n pc)
      × (total writing n (update pc j (woken (pc j))) ≡ total writing n pc)
woken_weight n j pc p b e h = ground (
  arith,
  total-update reading n j pc (woken (pc j)) b,
  total-update writing n j pc (woken (pc j)) b,
)

-- After a release: the semaphore is free, and the first waiter is woken.
module _ (n : ℕ) (s : RwSem) (pc : ℕ → Pc) (free : s.count ≡ pos 0)
    (no_reader : total reading n pc ≡ 0) (no_writer : total writing n pc ≡ 0)
    (readers : Sleepers n asleep_read pc s.read_wait_queue)
    (writers : Sleepers n asleep_write pc s.write_wait_queue) where
  abbrev woken_at : Option ℕ → RwSem → System
  woken_at w s' = record { sem = s'; pc = wake w pc }

  woken-Balanced :
      (j : ℕ) (p : Pc)
      → j < n
      → pc j ≡ p
      → (p ≡ asleep_read) ⊎ (p ≡ asleep_write)
      → Balanced s.count (total reading n (wake (some j) pc)) (total writing n (wake (some j) pc))
  woken-Balanced j p b e h =
      let (r, w) = woken_weight n j pc p b e h in rw free (r ∙ no_reader, w ∙ no_writer)

  wake_one-Inv_queues :
      (wq rq : List ℕ)
      → s.write_wait_queue ≡ wq
      → s.read_wait_queue ≡ rq
      → let (w, s') = wake_one s in Inv n (woken_at w s')
  unfolding wake_one
  wake_one-Inv_queues (j ∷ wq) rq ew er =
      let (e, b, a, rest) = rw ew at writers in
      let up : update pc j (woken (pc j)) j ≡ retry_write = update_self pc j _ ∙ rw e in
      rw (ew, wake_one)
        (record {
          balanced = woken-Balanced j asleep_write b e (inr refl);
          readers = Sleepers-update n asleep_read pc j _ s.read_wait_queue (λ h. cc) readers;
          writers = Sleepers-pop n asleep_write pc j _ wq a rest;
          pending_writer = λ _ _. (j, b, up);
          pending = λ _ _. (j, b, inr up);
        })
  wake_one-Inv_queues [] (j ∷ rq) ew er =
      let (e, b, a, rest) = rw er at readers in
      let up : update pc j (woken (pc j)) j ≡ retry_read = update_self pc j _ ∙ rw e in
      rw (ew, er, wake_one)
        (record {
          balanced = woken-Balanced j asleep_read b e (inl refl);
          readers = Sleepers-pop n asleep_read pc j _ rq a rest;
          writers = rw ew tt;
          pending_writer = λ _ h. absurd (h ew);
          pending = λ _ _. (j, b, inl up);
        })
  wake_one-Inv_queues [] [] ew er =
      rw (ew, er, wake_one)
        (record {
          balanced = rw free (no_reader, no_writer);
          readers = readers;
          writers = writers;
          pending_writer = λ _ h. absurd (h ew);
          pending = λ _ h. absurd (h er);
        })

  wake_one-Inv : let (w, s') = wake_one s in Inv n (woken_at w s')
  wake_one-Inv = wake_one-Inv_queues s.write_wait_queue s.read_wait_queue refl refl

Balanced-eq : (c : ℤ) {r w r' w' : ℕ} → r ≡ r' → w ≡ w' → Balanced c r w → Balanced c r' w'
Balanced-eq c p q b = rw (← p, ← q) b

reader_in :
    (c : ℤ) (r w : ℕ) → is_negative c ≡ false → Balanced c r w → Balanced (increment c) (suc r) w
reader_in (pos k) r w h b = ground arith
reader_in (negsuc k) r w h b = absurd (ground arith)

-- A reader's release: the count stays positive, or the semaphore is free.
reader_out :
    (c : ℤ) (r w : ℕ)
    → Balanced c (suc r) w
    → Balanced (decrement c) r w × (is_zero (decrement c) ≡ false → decrement c ≢ pos 0)
reader_out (pos zero) r w b = absurd (omega arith)
reader_out (pos (suc zero)) r w b = (ground arith, λ h. absurd (ground arith))
reader_out (pos (suc (suc k))) r w b = (ground arith, λ h e. absurd (ground arith))
reader_out (negsuc zero) r w b = absurd (omega arith)
reader_out (negsuc (suc k)) r w b = absurd b

is_zero-pos : (c : ℤ) → is_zero c ≡ true → c ≡ pos 0
is_zero-pos (pos zero) h = refl
is_zero-pos (pos (suc n)) h = absurd (ground arith)
is_zero-pos (negsuc n) h = absurd (ground arith)

not_zero : (c : ℤ) → is_zero c ≡ false → c ≢ pos 0
not_zero c h e = absurd (ground arith)

free_counts : (c : ℤ) (r w : ℕ) → c ≡ pos 0 → Balanced c r w → (r ≡ 0) × (w ≡ 0)
free_counts c r w e b = rw e at b

only_writer : (c : ℤ) (r w : ℕ) → Balanced c r (suc w) → (r ≡ 0) × (w ≡ 0)
only_writer (pos k) r w b = absurd (omega arith)
only_writer (negsuc zero) r w b = omega arith
only_writer (negsuc (suc k)) r w b = absurd b

grown : (c : ℤ) → is_negative c ≡ false → increment c ≢ pos 0
grown (pos k) h e = absurd (ground arith)
grown (negsuc k) h e = absurd (ground arith)

not_empty : (q : List ℕ) → list_empty q ≡ false → q ≢ []
not_empty [] h e = absurd (ground arith)
not_empty (x ∷ q) h e = absurd (ground arith)

module _ (n : ℕ) (s : System) (v : Inv n s) (i : ℕ) (below : i < n) where
  moved : (w : Pc → ℕ) (x : Pc) → total w n (update s.pc i x) + w (s.pc i) ≡ total w n s.pc + w x
  moved w x = total-update w n i s.pc x below

  -- The writer that is about to try again is another thread.
  other_writer :
      (x : Pc)
      → s.pc i ≢ retry_write
      → s.sem.count ≡ pos 0
      → s.sem.write_wait_queue ≢ []
      → (j : ℕ) × (j < n) × (update s.pc i x j ≡ retry_write)
  other_writer x ne zeroed waiting =
      let (j, b, e) = v.pending_writer zeroed waiting in
      (j, b, update_ne s.pc i j x (λ same. ne (rw same e)) ∙ e)

  readers_kept :
      (x : Pc)
      → s.pc i ≢ asleep_read
      → Sleepers n asleep_read (update s.pc i x) s.sem.read_wait_queue
  readers_kept x ne = Sleepers-update n asleep_read s.pc i x s.sem.read_wait_queue ne v.readers

  writers_kept :
      (x : Pc)
      → s.pc i ≢ asleep_write
      → Sleepers n asleep_write (update s.pc i x) s.sem.write_wait_queue
  writers_kept x ne = Sleepers-update n asleep_write s.pc i x s.sem.write_wait_queue ne v.writers

  down_read-Inv : (s.pc i ≡ idle) ⊎ (s.pc i ≡ retry_read) → Inv n (after_down_read i s)
  unfolding down_read
  down_read-Inv at =
      elim (Bool-cases (not (is_negative s.sem.count) && list_empty s.sem.write_wait_queue)) [
        | inl got ↦
            let nonneg : is_negative s.sem.count ≡ false = ground arith in
            rw (got, down_read)
              (record {
                balanced =
                    Balanced-eq (increment s.sem.count) (ground (arith, moved reading reads))
                      (ground (arith, moved writing reads))
                      (reader_in s.sem.count _ _ nonneg v.balanced);
                readers = readers_kept reads (λ h. ground arith);
                writers = writers_kept reads (λ h. ground arith);
                pending_writer = λ zeroed _. absurd (grown s.sem.count nonneg zeroed);
                pending = λ zeroed _. absurd (grown s.sem.count nonneg zeroed);
              })
        | inr must_wait ↦
            rw (must_wait, down_read)
              (record {
                balanced =
                    Balanced-eq s.sem.count (ground (arith, moved reading asleep_read))
                      (ground (arith, moved writing asleep_read)) v.balanced;
                readers =
                    Sleepers-push n asleep_read s.pc i s.sem.read_wait_queue (λ h. ground arith)
                      below v.readers;
                writers = writers_kept asleep_read (λ h. ground arith);
                pending_writer = other_writer asleep_read (λ h. ground arith);
                pending = λ zeroed _.
                    let (j, b, e) =
                      other_writer asleep_read (λ h. ground arith) zeroed
                        (not_empty s.sem.write_wait_queue (ground arith)) in
                    (j, b, inr e);
              })
      ]

  down_write-Inv : (s.pc i ≡ idle) ⊎ (s.pc i ≡ retry_write) → Inv n (after_down_write i s)
  unfolding down_write
  down_write-Inv at = elim (Bool-cases (is_zero s.sem.count)) [
    | inl got ↦
        let (no_reader, no_writer) =
          free_counts s.sem.count _ _ (is_zero-pos s.sem.count got) v.balanced in
        rw (got, down_write)
          (record {
            balanced = (ground (arith, moved reading writes), ground (arith, moved writing writes));
            readers = readers_kept writes (λ h. ground arith);
            writers = writers_kept writes (λ h. ground arith);
            pending_writer = λ zeroed _. absurd (ground arith);
            pending = λ zeroed _. absurd (ground arith);
          })
    | inr must_wait ↦
        rw (must_wait, down_write)
          (record {
            balanced =
                Balanced-eq s.sem.count (ground (arith, moved reading asleep_write))
                  (ground (arith, moved writing asleep_write)) v.balanced;
            readers = readers_kept asleep_write (λ h. ground arith);
            writers =
                Sleepers-push n asleep_write s.pc i s.sem.write_wait_queue (λ h. ground arith) below
                  v.writers;
            pending_writer = λ zeroed _. absurd (not_zero s.sem.count must_wait zeroed);
            pending = λ zeroed _. absurd (not_zero s.sem.count must_wait zeroed);
          })
  ]

  up_read-Inv : s.pc i ≡ reads → Inv n (after_up_read i s)
  unfolding up_read
  up_read-Inv at =
      let (balanced, still_held) =
        reader_out s.sem.count (total reading n (update s.pc i idle))
          (total writing n (update s.pc i idle))
          (Balanced-eq s.sem.count (ground (arith, moved reading idle))
            (ground (arith, moved writing idle)) v.balanced) in
      elim (Bool-cases (is_zero (decrement s.sem.count))) [
        | inl freed ↦
            let zeroed : decrement s.sem.count ≡ pos 0 = is_zero-pos _ freed in
            let (no_reader, no_writer) = free_counts _ _ _ zeroed balanced in
            rw (freed, up_read)
              (wake_one-Inv n (record s.sem { count = decrement s.sem.count }) (update s.pc i idle)
                zeroed no_reader no_writer (readers_kept idle (λ h. ground arith))
                (writers_kept idle (λ h. ground arith)))
        | inr held ↦
            rw (held, up_read)
              (record {
                balanced = balanced;
                readers = readers_kept idle (λ h. ground arith);
                writers = writers_kept idle (λ h. ground arith);
                pending_writer = λ zeroed _. absurd (still_held held zeroed);
                pending = λ zeroed _. absurd (still_held held zeroed);
              })
      ]

  up_write-Inv : s.pc i ≡ writes → Inv n (after_up_write i s)
  unfolding up_write
  up_write-Inv at =
      let (no_reader, no_writer) =
        only_writer s.sem.count (total reading n (update s.pc i idle))
          (total writing n (update s.pc i idle))
          (Balanced-eq s.sem.count (ground (arith, moved reading idle))
            (ground (arith, moved writing idle)) v.balanced) in
      wake_one-Inv n (record s.sem { count = pos 0; owner = none }) (update s.pc i idle) refl
        no_reader no_writer (readers_kept idle (λ h. ground arith))
        (writers_kept idle (λ h. ground arith))

  downgrade-Inv : s.pc i ≡ writes → Inv n (after_downgrade i s)
  unfolding downgrade_write
  downgrade-Inv at =
      let (no_reader, no_writer) =
        only_writer s.sem.count (total reading n (update s.pc i idle))
          (total writing n (update s.pc i idle))
          (Balanced-eq s.sem.count (ground (arith, moved reading idle))
            (ground (arith, moved writing idle)) v.balanced) in
      record {
        balanced = (
          ground (arith, moved reading idle, moved reading reads),
          ground (arith, moved writing idle, moved writing reads),
        );
        readers = readers_kept reads (λ h. ground arith);
        writers = writers_kept reads (λ h. ground arith);
        pending_writer = λ zeroed _. absurd (ground arith);
        pending = λ zeroed _. absurd (ground arith);
      }

pub Step-Inv : (n : ℕ) {s t : System} → Step n s t → Inv n s → Inv n t
Step-Inv n {s} (to_read i b at) v = down_read-Inv n s v i b at
Step-Inv n {s} (to_write i b at) v = down_write-Inv n s v i b at
Step-Inv n {s} (end_read i b at) v = up_read-Inv n s v i b at
Step-Inv n {s} (end_write i b at) v = up_write-Inv n s v i b at
Step-Inv n {s} (downgrade i b at) v = downgrade-Inv n s v i b at

total-start : (w : Pc → ℕ) (n : ℕ) → w idle ≡ 0 → total w n start.pc ≡ 0
total-start w n h = total-zero w n start.pc (λ _. h)

start-Inv : (n : ℕ) → Inv n start
unfolding rwsem_init
start-Inv n = record {
  balanced = (total-start reading n refl, total-start writing n refl);
  readers = tt;
  writers = tt;
  pending_writer = λ _ h. absurd (h refl);
  pending = λ _ h. absurd (h refl);
}

pub Reach-Inv : (n : ℕ) {s : System} → Reach n s → Inv n s
Reach-Inv n init = start-Inv n
Reach-Inv n (next r st) = Step-Inv n st (Reach-Inv n r)
