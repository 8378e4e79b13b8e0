-- ===== src/Pipe/Tests.antt =====
-- Runs of a pipe.
use doppio.Prelude.{ℕ, ◌≡◌, refl, Bool, true, false, Option, some, List, [], ◌∷◌, take, drop, arith}
use doppio.Pipe.{
  PipeBuffer, new_pipe, put_bytes, take_bytes, read_round, write_round, pipe_read, pipe_write,
  at_most, moved, put,
}
use doppio.WaitQueue.{remove_wait_queue, wake_up}
use doppio.Pipe.Ring.{IsValid, new_pipe-IsValid, put_bytes_back}
use doppio.Pipe.Read.{ReadRun, pipe_read-ReadRun, Lost, pipe_read-Lost}
use doppio.Pipe.Write.{WriteRun, pipe_write-WriteRun}
use doppio.Pipe.Flow.{Reaches, made, by_write, by_read, Fifo, Reaches-Fifo}

abbrev bytes : List ℕ
bytes = 104 ∷ 105 ∷ 33 ∷ []

-- A pipe with three bytes in it.
abbrev three : PipeBuffer
three = put_bytes bytes new_pipe

three-IsValid : IsValid three
unfolding new_pipe
three-IsValid = (put_bytes_back bytes new_pipe new_pipe-IsValid (omega arith)).1

three_size : three.size ≡ 3
unfolding new_pipe put_bytes
three_size = refl

user_takes : ℕ → ℕ → Bool
user_takes off k = true

user_refuses : ℕ → ℕ → Bool
user_refuses off k = false

user_gives : ℕ → ℕ → Option (List ℕ)
user_gives off k = some (take k (drop off bytes))

pipe_read-ReadRun_example : ReadRun 2 0 three (pipe_read true user_takes 7 2 three)
unfolding user_takes
pipe_read-ReadRun_example = pipe_read-ReadRun user_takes 7 2 three (λ off k. refl) three-IsValid

pipe_read-Lost_example : Lost 2 three (pipe_read true user_refuses 7 2 three)
unfolding user_refuses
pipe_read-Lost_example =
    pipe_read-Lost user_refuses 7 2 three three-IsValid (omega arith) (omega (arith, three_size))
      refl

pipe_write-WriteRun_example : WriteRun bytes 0 new_pipe (pipe_write true user_gives 7 3 new_pipe)
unfolding user_gives
pipe_write-WriteRun_example =
    pipe_write-WriteRun user_gives bytes 7 new_pipe (λ off k h. refl) new_pipe-IsValid

-- One writer puts three bytes, then a reader takes two.
hi : Reaches bytes (104 ∷ 105 ∷ []) (take_bytes 2 three).1
unfolding write_round read_round put_bytes take_bytes at_most new_pipe wake_up remove_wait_queue
hi =
    by_read bytes [] three 7 2 (moved (104 ∷ 105 ∷ [])) [] (take_bytes 2 three).1
      (by_write [] [] new_pipe bytes 8 (put bytes) [] three made refl) (omega arith) refl

Reaches-Fifo_example : Fifo bytes (104 ∷ 105 ∷ []) (take_bytes 2 three).1
Reaches-Fifo_example = Reaches-Fifo bytes (104 ∷ 105 ∷ []) (take_bytes 2 three).1 hi
