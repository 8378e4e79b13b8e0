-- ===== src/Lock/RwSem.antt =====
-- `rw_semaphore_t` of kernel/lib/lock.c. Each function below is one critical section of
-- `wait_lock`; `System` interleaves them over the threads. A sleeping thread runs again only when
-- a release takes it off its queue: wake-ups by signals are not modelled.
pub mod Inv
pub mod Safety
mod Tests
use doppio.Prelude.{
  ℕ, zero, suc, ◌<◌, ◌≡◌, ◌⊎◌, Bool, true, false, not, ◌&&◌, Option, none, some, List, [], ◌∷◌,
  ◌++◌, if◌then◌else◌, ℤ, pos, negsuc, is_negative,
}
use doppio.Lock.Threads.{update}

-- `count`: positive for readers, 0 unlocked, -1 for a writer. Queues hold threads, oldest first.
pub record RwSem : Type 0 where
  pub count : ℤ
  pub owner : Option ℕ
  pub read_wait_queue : List ℕ
  pub write_wait_queue : List ℕ

pub rwsem_init : RwSem
rwsem_init = record { count = pos 0; owner = none; read_wait_queue = []; write_wait_queue = [] }

abbrev pub list_empty {ℓ} : {A : Type ℓ} → List A → Bool
list_empty [] = true
list_empty (x ∷ xs) = false

abbrev pub is_zero : ℤ → Bool
is_zero (pos zero) = true
is_zero _ = false

-- `count++` and `count--`
abbrev pub increment : ℤ → ℤ
increment (pos n) = pos (suc n)
increment (negsuc zero) = pos 0
increment (negsuc (suc n)) = negsuc n

abbrev pub decrement : ℤ → ℤ
decrement (pos zero) = negsuc 0
decrement (pos (suc n)) = pos n
decrement (negsuc n) = negsuc (suc n)

-- One round of the loop of `down_read`: `true` if it breaks, `false` if thread `t` goes to sleep.
pub down_read : ℕ → RwSem → Bool × RwSem
down_read t s =
    if not (is_negative s.count) && list_empty s.write_wait_queue
    then (true, record s { count = increment s.count })
    else (false, record s { read_wait_queue = s.read_wait_queue ++ (t ∷ []) })

-- One round of the loop of `down_write`.
pub down_write : ℕ → RwSem → Bool × RwSem
down_write t s =
    if is_zero s.count
    then (true, record s { count = negsuc 0; owner = some t })
    else (false, record s { write_wait_queue = s.write_wait_queue ++ (t ∷ []) })

-- The wake-up of `up_read` and `up_write`: the first writer, else the first reader.
pub wake_one : RwSem → Option ℕ × RwSem
wake_one s = elim s.write_wait_queue [
  | waiter ∷ rest ↦ (some waiter, record s { write_wait_queue = rest })
  | [] ↦ elim s.read_wait_queue [
    | waiter ∷ rest ↦ (some waiter, record s { read_wait_queue = rest })
    | [] ↦ (none, s)
  ]
]

-- The thread that is made ready, and the semaphore.
pub up_read : RwSem → Option ℕ × RwSem
up_read s =
    let s' = record s { count = decrement s.count } in
    if is_zero (decrement s.count) then wake_one s' else (none, s')

pub up_write : RwSem → Option ℕ × RwSem
up_write s = wake_one (record s { count = pos 0; owner = none })

pub downgrade_write : RwSem → RwSem
downgrade_write s = record s { count = pos 1; owner = none }

-- Where a thread stands. A thread that was woken stands before the next round of its loop.
pub data Pc : Type 0 where
  idle reads writes asleep_read asleep_write retry_read retry_write : Pc

pub record System : Type 0 where
  pub sem : RwSem
  pub pc : ℕ → Pc

abbrev pub woken : Pc → Pc
woken asleep_read = retry_read
woken asleep_write = retry_write
woken p = p

abbrev pub wake : Option ℕ → (ℕ → Pc) → ℕ → Pc
wake none pc = pc
wake (some j) pc = update pc j (woken (pc j))

abbrev pub start : System
start = record { sem = rwsem_init; pc = λ _. idle }

abbrev pub after_down_read : ℕ → System → System
after_down_read i s =
    let (got, sem) = down_read i s.sem in
    record { sem = sem; pc = update s.pc i (if got then reads else asleep_read) }

abbrev pub after_down_write : ℕ → System → System
after_down_write i s =
    let (got, sem) = down_write i s.sem in
    record { sem = sem; pc = update s.pc i (if got then writes else asleep_write) }

abbrev pub after_up_read : ℕ → System → System
after_up_read i s =
    let (waiter, sem) = up_read s.sem in record { sem = sem; pc = wake waiter (update s.pc i idle) }

abbrev pub after_up_write : ℕ → System → System
after_up_write i s =
    let (waiter, sem) = up_write s.sem in
    record { sem = sem; pc = wake waiter (update s.pc i idle) }

abbrev pub after_downgrade : ℕ → System → System
after_downgrade i s = record { sem = downgrade_write s.sem; pc = update s.pc i reads }

-- One critical section of one of `n` threads.
pub data Step (n : ℕ) (s : System) : System → Type 0 where
  to_read :
      (i : ℕ) → i < n → (s.pc i ≡ idle) ⊎ (s.pc i ≡ retry_read) → Step n s (after_down_read i s)
  to_write :
      (i : ℕ) → i < n → (s.pc i ≡ idle) ⊎ (s.pc i ≡ retry_write) → Step n s (after_down_write i s)
  end_read : (i : ℕ) → i < n → s.pc i ≡ reads → Step n s (after_up_read i s)
  end_write : (i : ℕ) → i < n → s.pc i ≡ writes → Step n s (after_up_write i s)
  downgrade : (i : ℕ) → i < n → s.pc i ≡ writes → Step n s (after_downgrade i s)

pub data Reach (n : ℕ) : System → Type 0 where
  init : Reach n start
  next : {s t : System} → Reach n s → Step n s t → Reach n t
