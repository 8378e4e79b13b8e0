-- ===== src/Pipe.antt =====
-- kernel/sys/sys_pipe.c: the ring of a pipe and its reads and writes. A critical section under the lock of the pipe is one step.
pub mod Ring
pub mod Read
pub mod Write
pub mod Flow
mod Tests
use doppio.Prelude.{
  ℕ, zero, suc, ◌+◌, ◌-◌, ◌%◌, ◌^◌, Bool, true, false, not, ◌&&◌, Option, none, some, List, [], ◌∷◌,
  ◌++◌, ltb, leb, ◌==◌, if◌then◌else◌, length, get_or, set, take, replicate,
}
use doppio.WaitQueue.{add_wait_queue, remove_wait_queue, wake_up}
use doppio.Errno.{Result, ok, err, einval, efault, epipe}

abbrev pub pipe_buf_size : ℕ
pipe_buf_size = 4096

-- `sizeof(kbuf)`
abbrev pub kbuf_size : ℕ
kbuf_size = 256

-- `struct pipe_buffer`; the wait queues hold threads, oldest first.
pub record PipeBuffer : Type 0 where
  pub buf : List ℕ
  pub head : ℕ
  pub tail : ℕ
  pub size : ℕ
  pub refcnt : ℕ
  pub rwaitq : List ℕ
  pub wwaitq : List ℕ

-- The pipe that `sys_pipe2` makes: zeroed, with two references.
pub new_pipe : PipeBuffer
new_pipe = record {
  buf = replicate pipe_buf_size 0;
  head = 0;
  tail = 0;
  size = 0;
  refcnt = 2;
  rwaitq = [];
  wwaitq = [];
}

-- The copying loop of `pipe_read`
pub take_bytes : ℕ → PipeBuffer → List ℕ × PipeBuffer
take_bytes zero p = ([], p)
take_bytes (suc k) p =
    let (bs, q) =
      take_bytes k
        (record p { head = (p.head + 1) % pipe_buf_size; size = (p.size + 2 ^ 64 - 1) % 2 ^ 64 }) in
    (get_or p.buf p.head 0 ∷ bs, q)

-- The copying loop of `pipe_write`
pub put_bytes : List ℕ → PipeBuffer → PipeBuffer
put_bytes [] p = p
put_bytes (b ∷ bs) p = put_bytes bs (record p {
  buf = set p.buf p.tail b;
  tail = (p.tail + 1) % pipe_buf_size;
  size = (p.size + 1) % 2 ^ 64;
})

pub at_most : ℕ → ℕ → ℕ
at_most limit n = if ltb limit n then limit else n

-- How the body of a loop ends: bytes are moved, the thread sleeps and will run the body again,
-- the other end is closed, or user memory faults.
pub data Round : Type 0 where
  moved : List ℕ → Round
  asleep closed fault : Round

-- The same for `pipe_write`, where user memory is read before.
pub data WriteRound : Type 0 where
  put : List ℕ → WriteRound
  full broken : WriteRound

-- What a call has done when it returns or sleeps.
pub data Ended : Type 0 where
  returned : Result ℕ → Ended
  sleeping out_of_fuel : Ended

pub record Run : Type 0 where
  pub ended : Ended
  pub bytes : List ℕ
  pub ready : List ℕ
  pub pipe : PipeBuffer

-- The body of the loop of `pipe_read`, with `want` bytes to go: its outcome, the threads it makes
-- ready and the pipe. `writable` is false where `copy_to_user` fails on a number of bytes.
pub read_round : (ℕ → Bool) → ℕ → ℕ → PipeBuffer → Round × List ℕ × PipeBuffer
read_round writable me want p =
    if p.size == 0 && leb 2 p.refcnt
    then (asleep, [], record p { wwaitq = add_wait_queue p.wwaitq me })
    else let p = record p { wwaitq = remove_wait_queue p.wwaitq me } in
      if p.size == 0
      then (closed, [], p)
      else let chunk = at_most kbuf_size (at_most p.size want) in
        let (bs, q) = take_bytes chunk p in
        if writable chunk
        then (moved bs, (wake_up q.rwaitq).0, record q { rwaitq = (wake_up q.rwaitq).1 })
        else (fault, [], q)

-- The count that a call returns when it stops early: an error only if nothing was moved.
pub partial_count : ℕ → Result ℕ → Result ℕ
partial_count done e = if ltb 0 done then ok done else e

-- What follows a round of a read, where `again` is the rest of the loop
pub after_read : (List ℕ → PipeBuffer → Run) → ℕ → Round → List ℕ → PipeBuffer → Run
after_read again done (moved bs) ready q =
    let r = again bs q in record r { bytes = bs ++ r.bytes; ready = ready ++ r.ready }
after_read again done asleep ready q = record {
  ended = sleeping;
  bytes = [];
  ready = ready;
  pipe = q;
}
after_read again done closed ready q = record {
  ended = returned (ok done);
  bytes = [];
  ready = ready;
  pipe = q;
}
after_read again done fault ready q = record {
  ended = returned (partial_count done (err efault));
  bytes = [];
  ready = ready;
  pipe = q;
}

pub read_loop : ℕ → (ℕ → ℕ → Bool) → ℕ → ℕ → ℕ → PipeBuffer → Run
read_loop zero writable me n done p = record {
  ended = out_of_fuel;
  bytes = [];
  ready = [];
  pipe = p;
}
read_loop (suc fuel) writable me n done p =
    if ltb done n
    then (let (round, ready, q) = read_round (writable done) me (n - done) p in
        after_read (λ bs p'. read_loop fuel writable me n (done + length bs) p') done round ready q)
    else record { ended = returned (ok done); bytes = []; ready = []; pipe = p }

-- `pipe_read`, up to where it returns or sleeps. `attached` is false where `vp->data` is null.
pub pipe_read : Bool → (ℕ → ℕ → Bool) → ℕ → ℕ → PipeBuffer → Run
pipe_read attached writable me n p =
    if attached
    then read_loop (n + 1) writable me n 0 p
    else record { ended = returned (err einval); bytes = []; ready = []; pipe = p }

-- The body of the loop of `pipe_write`, on the chunk `kbuf` that it has copied
pub write_round : List ℕ → ℕ → PipeBuffer → WriteRound × List ℕ × PipeBuffer
write_round kbuf me p =
    if leb 2 p.refcnt && ltb (pipe_buf_size - p.size) (length kbuf)
    then (full, [], record p { rwaitq = add_wait_queue p.rwaitq me })
    else let p = record p { rwaitq = remove_wait_queue p.rwaitq me } in
      if ltb p.refcnt 2
      then (broken, [], p)
      else let bs = take (at_most (pipe_buf_size - p.size) (length kbuf)) kbuf in
        let q = put_bytes bs p in
        (put bs, (wake_up q.wwaitq).0, record q { wwaitq = (wake_up q.wwaitq).1 })

pub after_write : (List ℕ → PipeBuffer → Run) → ℕ → WriteRound → List ℕ → PipeBuffer → Run
after_write again done (put bs) ready q =
    let r = again bs q in record r { bytes = bs ++ r.bytes; ready = ready ++ r.ready }
after_write again done full ready q = record {
  ended = sleeping;
  bytes = [];
  ready = ready;
  pipe = q;
}
after_write again done broken ready q = record {
  ended = returned (partial_count done (err epipe));
  bytes = [];
  ready = ready;
  pipe = q;
}

-- `user` reads a number of bytes at an offset, and is `none` where `copy_from_user` fails.
pub write_loop : ℕ → (ℕ → ℕ → Option (List ℕ)) → ℕ → ℕ → ℕ → PipeBuffer → Run
write_loop zero user me n done p = record { ended = out_of_fuel; bytes = []; ready = []; pipe = p }
write_loop (suc fuel) user me n done p =
    if ltb done n
    then elim (user done (at_most kbuf_size (n - done))) [
      | none ↦ record {
        ended = returned (partial_count done (err efault));
        bytes = [];
        ready = [];
        pipe = p;
      }
      | some kbuf ↦
          let (round, ready, q) = write_round kbuf me p in
          after_write (λ bs p'. write_loop fuel user me n (done + length bs) p') done round ready q
    ]
    else record { ended = returned (ok done); bytes = []; ready = []; pipe = p }

-- `pipe_write`, up to where it returns or sleeps
pub pipe_write : Bool → (ℕ → ℕ → Option (List ℕ)) → ℕ → ℕ → PipeBuffer → Run
pipe_write attached user me n p =
    if attached
    then write_loop (n + 1) user me n 0 p
    else record { ended = returned (err einval); bytes = []; ready = []; pipe = p }

-- `pipe_inactive` on a vnode with a pipe: the threads made ready, whether the pipe is freed, and
-- the pipe.
pub pipe_inactive : PipeBuffer → List ℕ × Bool × PipeBuffer
pipe_inactive p =
    let refcnt = p.refcnt - 1 in
    (p.rwaitq ++ p.wwaitq, refcnt == 0, record p { refcnt = refcnt; rwaitq = []; wwaitq = [] })
