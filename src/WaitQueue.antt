-- ===== src/WaitQueue.antt =====
-- include/kernel/wait.h: wait queues, as lists of threads, oldest first.
use doppio.Prelude.{ℕ, Bool, true, false, List, [], ◌∷◌, ◌++◌, ◌==◌, if◌then◌else◌}

unfoldable pub is_queued : List ℕ → ℕ → Bool
is_queued [] t = false
is_queued (x ∷ xs) t = if x == t then true else is_queued xs t

-- For a thread that is on no other queue
unfoldable pub add_wait_queue : List ℕ → ℕ → List ℕ
add_wait_queue q t = if is_queued q t then q else q ++ (t ∷ [])

unfoldable pub remove_wait_queue : List ℕ → ℕ → List ℕ
remove_wait_queue [] t = []
remove_wait_queue (x ∷ xs) t = if x == t then xs else x ∷ remove_wait_queue xs t

-- The thread that `wake_up` makes ready, and the queue after it
unfoldable pub wake_up : List ℕ → List ℕ × List ℕ
wake_up [] = ([], [])
wake_up (x ∷ xs) = (x ∷ [], xs)

-- The threads that `wake_up_all` makes ready, and the queue after it
unfoldable pub wake_up_all : List ℕ → List ℕ × List ℕ
wake_up_all q = (q, [])
