-- ===== src/Pipe/Read.antt =====
-- `pipe_read`: one round of its loop, and the loop run alone.
use doppio.Prelude.{
  ℕ, zero, suc, ◌+◌, ◌-◌, ◌<◌, ◌≤◌, ◌≡◌, refl, ap, ◌∙◌, sym, ◌⊎◌, inl, inr, Bool, true, false, List,
  [], ◌++◌, ltb, leb, ◌==◌, length, length-append, append_assoc, Bool-cases, arith,
}
use doppio.Errno.{ok, err, efault}
use doppio.Pipe.{
  PipeBuffer, kbuf_size, at_most, take_bytes, Round, moved, asleep, closed, fault, returned,
  sleeping, Run, read_round, read_loop, pipe_read, partial_count, after_read,
}
use doppio.WaitQueue.{add_wait_queue, remove_wait_queue, wake_up}
use doppio.Pipe.Ring.{contents, IsValid, take_bytes_front}

-- Bytes leave the queue of a pipe at its front.
abbrev pub Leaves : List ℕ → PipeBuffer → PipeBuffer → Type 0
Leaves bs p q = contents p ≡ bs ++ contents q

pub at_most_le : (a n : ℕ) → (at_most a n ≤ a) × (at_most a n ≤ n)
unfolding at_most
at_most_le a n = (ground arith, ground arith)

pub at_most_pos : (a n : ℕ) → 0 < a → 0 < n → 0 < at_most a n
unfolding at_most
at_most_pos a n h k = ground arith

-- How many bytes a round of a read takes.
abbrev pub read_chunk : ℕ → PipeBuffer → ℕ
read_chunk want p = at_most kbuf_size (at_most p.size want)

-- What a round of a read with `want` bytes to go does to the pipe, by its outcome.
abbrev pub ReadDone : (ℕ → Bool) → ℕ → PipeBuffer → PipeBuffer → Round → Type 0
ReadDone ok_to want p q (moved bs) =
    Leaves bs p q × (length bs ≡ read_chunk want p) × (0 < length bs) × (length bs ≤ want)
ReadDone ok_to want p q asleep =
    (p.size ≡ 0) × (q.size ≡ 0) × (2 ≤ p.refcnt) × (contents q ≡ contents p)
ReadDone ok_to want p q closed =
    (p.size ≡ 0) × (q.size ≡ 0) × (p.refcnt < 2) × (contents q ≡ contents p)
ReadDone ok_to want p q fault =
    (bs : List ℕ) × Leaves bs p q
    × (length bs ≡ read_chunk want p)
    × (0 < length bs)
    × (ok_to (read_chunk want p) ≡ false)

-- The outcome of a round and the pipe after it.
abbrev pub ReadStep : (ℕ → Bool) → ℕ → PipeBuffer → Round × List ℕ × PipeBuffer → Type 0
ReadStep ok_to want p out =
    IsValid (out.2) × (out.2.refcnt ≡ p.refcnt) × ReadDone ok_to want p out.2 out.0

pub requeued :
    (p : PipeBuffer) (r w : List ℕ) → IsValid p → IsValid (record p { rwaitq = r; wwaitq = w })
requeued p r w v = record {
  room = v.room;
  head_in = v.head_in;
  tail_at = v.tail_at;
  size_in = v.size_in;
}

module _ (writable : ℕ → Bool) (me want : ℕ) (p : PipeBuffer) (v : IsValid p)
    (wants : 0 < want) where
  abbrev unqueued : PipeBuffer
  unqueued = record p { wwaitq = remove_wait_queue p.wwaitq me }

  abbrev drained : PipeBuffer
  drained = (take_bytes (read_chunk want p) unqueued).1

  read_sleeps :
      p.size ≡ 0
      → leb 2 p.refcnt ≡ true
      → read_round writable me want p
        ≡ (asleep, [], record p { wwaitq = add_wait_queue p.wwaitq me })
  unfolding read_round
  read_sleeps e opened = ground arith

  read_closes :
      p.size ≡ 0 → leb 2 p.refcnt ≡ false → read_round writable me want p ≡ (closed, [], unqueued)
  unfolding read_round
  read_closes e shut = ground arith

  -- What a round does where there are bytes, by whether user memory takes them.
  read_moves :
      0 < p.size
      → writable (read_chunk want p) ≡ true
      → read_round writable me want p ≡ (
        moved (take_bytes (read_chunk want p) unqueued).0,
        (wake_up drained.rwaitq).0,
        record drained { rwaitq = (wake_up drained.rwaitq).1 },
      )
  unfolding read_round
  read_moves h w = ground arith

  read_faults :
      0 < p.size
      → writable (read_chunk want p) ≡ false
      → read_round writable me want p ≡ (fault, [], drained)
  unfolding read_round
  read_faults h w = ground arith

  pub read_round-ReadStep : ReadStep writable want p (read_round writable me want p)
  read_round-ReadStep = elim (Bool-cases (p.size == 0)) [
    | inl empty ↦ elim (Bool-cases (leb 2 p.refcnt)) [
      | inl opened ↦ rw (read_sleeps (ground arith) opened) (
        requeued p p.rwaitq (add_wait_queue p.wwaitq me) v,
        refl,
        (ground arith, ground arith, ground arith, refl),
      )
      | inr shut ↦ rw (read_closes (ground arith) shut) (
        requeued p p.rwaitq unqueued.wwaitq v,
        refl,
        (ground arith, ground arith, ground arith, refl),
      )
    ]
    | inr some_bytes ↦
        let le : read_chunk want p ≤ p.size =
          omega (arith, at_most_le kbuf_size (at_most p.size want), at_most_le p.size want) in
        let (leaves, size, v', (_, _, _, _, cnt, _, _)) =
          take_bytes_front (read_chunk want p) unqueued (requeued p p.rwaitq unqueued.wwaitq v)
            le in
        let some_size : 0 < p.size = ground arith in
        let positive : 0 < read_chunk want p =
          at_most_pos kbuf_size (at_most p.size want) (omega arith)
            (at_most_pos p.size want some_size wants) in
        elim (Bool-cases (writable (read_chunk want p))) [
          | inl w ↦ rw (read_moves some_size w) (
            requeued drained (wake_up drained.rwaitq).1 drained.wwaitq v',
            cnt,
            (
              leaves,
              size,
              omega arith,
              omega (arith, at_most_le kbuf_size (at_most p.size want), at_most_le p.size want),
            ),
          )
          | inr w ↦
              rw (read_faults some_size w) (
                v',
                cnt,
                ((take_bytes (read_chunk want p) unqueued).0, leaves, size, omega arith, w),
              )
        ]
  ]

-- How a read ends that is run alone on a pipe, with user memory that takes every byte, when `done`
-- of `n` bytes were read before it.
abbrev pub ReadEnded : ℕ → ℕ → PipeBuffer → Run → Type 0
ReadEnded n done p r =
    ((r.ended ≡ returned (ok (done + length r.bytes)))
      × ((done + length r.bytes ≡ n) ⊎ ((r.pipe.size ≡ 0) × (p.refcnt < 2))))
    ⊎ ((r.ended ≡ sleeping) × (done + length r.bytes < n) × (r.pipe.size ≡ 0) × (2 ≤ p.refcnt))

abbrev pub ReadRun : ℕ → ℕ → PipeBuffer → Run → Type 0
ReadRun n done p r =
    Leaves r.bytes p r.pipe × IsValid r.pipe × (r.pipe.refcnt ≡ p.refcnt) × ReadEnded n done p r

module _ (writable : ℕ → Bool) (n done : ℕ) (p : PipeBuffer) (more : done < n)
    (takes : (k : ℕ) → writable k ≡ true) (again : List ℕ → PipeBuffer → Run) where
  after_read-ReadRun :
      (round : Round) (ready : List ℕ) (q : PipeBuffer)
      → ReadStep writable (n - done) p (round, ready, q)
      → ((bs : List ℕ)
          → IsValid q
          → (0 < length bs)
          → (length bs ≤ n - done)
          → ReadRun n (done + length bs) q (again bs q))
      → ReadRun n done p (after_read again done round ready q)
  unfolding after_read
  after_read-ReadRun fault ready q (v, cnt, (bs, leaves, size, some_bytes, refused)) rest =
      absurd (ground (arith, takes (read_chunk (n - done) p)))
  after_read-ReadRun asleep ready q (v, cnt, (a, b, c, same)) rest =
      (sym same, v, cnt, inr (refl, omega arith, b, c))
  after_read-ReadRun closed ready q (v, cnt, (a, b, c, same)) rest =
      (sym same, v, cnt, inl (ap (λ k. returned (ok k)) (omega arith), inr (b, c)))
  after_read-ReadRun (moved bs) ready q (v, cnt, (leaves, size, some_bytes, few)) rest =
      let (leaves', v', cnt', end) = rest bs v some_bytes few in
      let r : Run = again bs q in
      let total : done + length bs + length r.bytes ≡ done + length (bs ++ r.bytes) =
        omega (arith, length-append bs r.bytes) in
      (
        leaves ∙ ap (λ w. bs ++ w) leaves' ∙ sym (append_assoc bs r.bytes (contents r.pipe)),
        v',
        cnt' ∙ cnt,
        elim end [
          | inl (e, inl all) ↦ inl (e ∙ ap (λ k. returned (ok k)) total, inl (omega arith))
          | inl (e, inr (a, b)) ↦ inl (e ∙ ap (λ k. returned (ok k)) total, inr (a, omega arith))
          | inr (e, a, b, c) ↦ inr (e, omega arith, b, omega arith)
        ],
      )

module _ (writable : ℕ → ℕ → Bool) (takes : (off k : ℕ) → writable off k ≡ true) (me n : ℕ) where
  read_loop-ReadRun :
      (fuel done : ℕ) (p : PipeBuffer)
      → IsValid p
      → done ≤ n
      → n < done + fuel
      → ReadRun n done p (read_loop fuel writable me n done p)
  unfolding read_loop
  read_loop-ReadRun zero done p v h f = absurd (omega arith)
  read_loop-ReadRun (suc fuel) done p v h f = elim (Bool-cases (ltb done n)) [
    | inl more ↦ rw more (
        let (round, ready, q) = read_round (writable done) me (n - done) p in
        after_read-ReadRun (writable done) n done p (ground arith) (takes done)
          (λ bs p'. read_loop fuel writable me n (done + length bs) p') round ready q
          (read_round-ReadStep (writable done) me (n - done) p v (ground arith))
          λ bs v' some_bytes few.
            read_loop-ReadRun fuel (done + length bs) q v' (omega arith) (omega arith))
    | inr all ↦
        rw all (refl, v, refl, inl (ap (λ k. returned (ok k)) (omega arith), inl (ground arith)))
  ]

-- A read of `n` bytes that no other thread interrupts, into user memory that takes every byte,
-- on a valid pipe: it returns or sleeps, never runs out of rounds; what it has read is the front of
-- the queue, in order, and the rest stays. It returns how many bytes it has read, which are
-- `n`, or fewer if the pipe is empty and its other end is closed; and it sleeps, short of `n`
-- bytes, exactly where it has emptied the pipe and the other end is open.
pub pipe_read-ReadRun :
    (writable : ℕ → ℕ → Bool) (me n : ℕ) (p : PipeBuffer)
    → ((off k : ℕ) → writable off k ≡ true)
    → IsValid p
    → ReadRun n 0 p (pipe_read true writable me n p)
unfolding pipe_read
pipe_read-ReadRun writable me n p takes v =
    read_loop-ReadRun writable takes me n (n + 1) 0 p v (omega arith) (omega arith)

-- How a read ends whose first chunk user memory refuses.
abbrev pub Lost : ℕ → PipeBuffer → Run → Type 0
Lost n p r =
    (r.ended ≡ returned (err efault))
    × (r.bytes ≡ [])
    × ((lost : List ℕ) × (0 < length lost) × (length lost ≡ read_chunk n p) × Leaves lost p r.pipe)

module _ (writable : ℕ → ℕ → Bool) (me n : ℕ) (p : PipeBuffer) (v : IsValid p) (wants : 0 < n)
    (some_bytes : 0 < p.size) (refused : writable 0 (read_chunk n p) ≡ false) where
  after_read-Lost :
      (again : List ℕ → PipeBuffer → Run) (round : Round) (ready : List ℕ) (q : PipeBuffer)
      → round ≡ fault
      → ReadStep (writable 0) n p (round, ready, q)
      → Lost n p (after_read again 0 round ready q)
  unfolding after_read partial_count
  after_read-Lost again fault ready q e (v', cnt, (bs, leaves, size, positive, refuses)) =
      (refl, refl, (bs, positive, size, leaves))
  after_read-Lost again asleep ready q e step = absurd (ground arith)
  after_read-Lost again closed ready q e step = absurd (ground arith)
  after_read-Lost again (moved bs) ready q e step = absurd (ground arith)

  read_loop-Lost : (fuel : ℕ) → 0 < fuel → Lost n p (read_loop fuel writable me n 0 p)
  unfolding read_loop
  read_loop-Lost zero h = absurd (omega arith)
  read_loop-Lost (suc fuel) h =
      let more : ltb 0 n ≡ true = ground arith in
      let rest : n - 0 ≡ n = omega arith in
      rw (more, rest)
        (let (round, ready, q) = read_round (writable 0) me n p in
          after_read-Lost (λ bs p'. read_loop fuel writable me n (0 + length bs) p') round ready q
            (ap (λ out. out.0) (read_faults (writable 0) me n p v wants some_bytes refused))
            (read_round-ReadStep (writable 0) me n p v wants))

-- A read of a pipe with bytes in it, into user memory that refuses the first chunk, returns
-- EFAULT with nothing read, and the chunk is gone from the pipe: the bytes are lost.
pub pipe_read-Lost :
    (writable : ℕ → ℕ → Bool) (me n : ℕ) (p : PipeBuffer)
    → IsValid p
    → 0 < n
    → 0 < p.size
    → writable 0 (read_chunk n p) ≡ false
    → Lost n p (pipe_read true writable me n p)
unfolding pipe_read
pipe_read-Lost writable me n p v wants some_bytes refused =
    read_loop-Lost writable me n p v wants some_bytes refused (n + 1) (omega arith)
