-- ===== src/Pipe/Flow.antt =====
-- A pipe under any interleaving of the rounds of its readers and writers.
use doppio.Prelude.{
  ℕ, ◌<◌, ◌≡◌, ap, ◌∙◌, sym, Bool, true, false, List, [], ◌++◌, append_assoc, append_nil, arith,
}
use mathlib.Core.Path.{subst}
use doppio.Pipe.{
  PipeBuffer, Round, moved, asleep, closed, fault, WriteRound, put, full, broken, new_pipe,
  read_round, write_round, pipe_inactive,
}
use doppio.Pipe.Ring.{contents, new_pipe_empty, IsValid, new_pipe-IsValid}
use doppio.Pipe.Read.{ReadStep, read_round-ReadStep}
use doppio.Pipe.Write.{WriteStep, write_round-WriteStep}

abbrev pub read_bytes : Round → List ℕ
read_bytes (moved bs) = bs
read_bytes asleep = []
read_bytes closed = []
read_bytes fault = []

abbrev pub written_bytes : WriteRound → List ℕ
written_bytes (put bs) = bs
written_bytes full = []
written_bytes broken = []

-- The user memory of a reader that takes every byte.
abbrev pub all_writable : ℕ → Bool
all_writable k = true

-- `Reaches w r p`: from the new pipe, rounds of any threads in any order, reads into user memory
-- that takes every byte, and a close that does not free the pipe, have put the bytes `w`, taken the bytes `r` and left the pipe `p`.
pub data Reaches : List ℕ → List ℕ → PipeBuffer → Type 0 where
  made : Reaches [] [] new_pipe
  by_read :
      (w r : List ℕ) (p : PipeBuffer) (me want : ℕ) (round : Round) (ready : List ℕ)
      (q : PipeBuffer)
      → Reaches w r p
      → 0 < want
      → read_round all_writable me want p ≡ (round, ready, q)
      → Reaches w (r ++ read_bytes round) q
  by_write :
      (w r : List ℕ) (p : PipeBuffer) (kbuf : List ℕ) (me : ℕ) (round : WriteRound) (ready : List ℕ)
      (q : PipeBuffer)
      → Reaches w r p
      → write_round kbuf me p ≡ (round, ready, q)
      → Reaches (w ++ written_bytes round) r q
  by_close :
      (w r : List ℕ) (p : PipeBuffer) (ready : List ℕ) (q : PipeBuffer)
      → Reaches w r p
      → pipe_inactive p ≡ (ready, false, q)
      → Reaches w r q

-- What is in a pipe is what was put and not yet taken, in order.
abbrev pub Fifo : List ℕ → List ℕ → PipeBuffer → Type 0
Fifo w r p = IsValid p × (w ≡ r ++ contents p)

module _ (w r : List ℕ) (p : PipeBuffer) (inv : Fifo w r p) where
  Fifo-read :
      (want : ℕ) (round : Round) (ready : List ℕ) (q : PipeBuffer)
      → ReadStep all_writable want p (round, ready, q)
      → Fifo w (r ++ read_bytes round) q
  Fifo-read want (moved bs) ready q (v, _, (leaves, _, _, _)) =
      (v, inv.1 ∙ ap (λ c. r ++ c) leaves ∙ sym (append_assoc r bs (contents q)))
  Fifo-read want asleep ready q (v, _, (_, _, _, same)) =
      (v, inv.1 ∙ ap (λ c. r ++ c) (sym same) ∙ ap (λ x. x ++ contents q) (sym (append_nil r)))
  Fifo-read want closed ready q (v, _, (_, _, _, same)) =
      (v, inv.1 ∙ ap (λ c. r ++ c) (sym same) ∙ ap (λ x. x ++ contents q) (sym (append_nil r)))
  Fifo-read want fault ready q (v, _, (_, _, _, _, refused)) = absurd (ground arith)

  Fifo-write :
      (kbuf : List ℕ) (round : WriteRound) (ready : List ℕ) (q : PipeBuffer)
      → WriteStep kbuf p (round, ready, q)
      → Fifo (w ++ written_bytes round) r q
  Fifo-write kbuf (put bs) ready q (v, _, (_, enters, _)) =
      (v, ap (λ x. x ++ bs) inv.1 ∙ append_assoc r (contents p) bs ∙ ap (λ c. r ++ c) (sym enters))
  Fifo-write kbuf full ready q (v, _, (same, _, _, _)) =
      (v, append_nil w ∙ inv.1 ∙ ap (λ c. r ++ c) (sym same))
  Fifo-write kbuf broken ready q (v, _, (same, _)) =
      (v, append_nil w ∙ inv.1 ∙ ap (λ c. r ++ c) (sym same))

  Fifo-close : Fifo w r (pipe_inactive p).2
  unfolding pipe_inactive
  Fifo-close = (
    record {
      room = inv.0.room;
      head_in = inv.0.head_in;
      tail_at = inv.0.tail_at;
      size_in = inv.0.size_in;
    },
    inv.1,
  )

-- A pipe whose readers have user memory that takes every byte is a first-in first-out queue under
-- any interleaving of reading and writing rounds of any threads, and of closes: the bytes put are
-- the bytes taken, then the bytes in the pipe, in order; none is lost, made twice or reordered. The
-- pipe stays valid, at most 4096 bytes long.
pub Reaches-Fifo : (w r : List ℕ) (p : PipeBuffer) → Reaches w r p → Fifo w r p
Reaches-Fifo _ _ _ made = (new_pipe-IsValid, new_pipe_empty)
Reaches-Fifo _ _ _ (by_read w r p me want round ready q before wants e) =
    let inv : Fifo w r p = Reaches-Fifo w r p before in
    Fifo-read w r p inv want round ready q (
      subst (ReadStep all_writable want p) e
        (read_round-ReadStep all_writable me want p inv.0 wants))
Reaches-Fifo _ _ _ (by_write w r p kbuf me round ready q before e) =
    let inv : Fifo w r p = Reaches-Fifo w r p before in
    Fifo-write w r p inv kbuf round ready q
      (subst (WriteStep kbuf p) e (write_round-WriteStep kbuf me p inv.0))
Reaches-Fifo _ _ _ (by_close w r p ready q before e) =
    subst (λ out. Fifo w r out.2) e (Fifo-close w r p (Reaches-Fifo w r p before))
