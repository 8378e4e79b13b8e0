-- ===== src/Pipe/Write.antt =====
-- `pipe_write`: one round of its loop, and the loop run alone.
use doppio.Prelude.{
  ℕ, zero, suc, ◌+◌, ◌-◌, ◌<◌, ◌≤◌, ◌≡◌, refl, ap, ◌∙◌, sym, ◌⊎◌, inl, inr, true, false, Option,
  some, List, [], ◌++◌, ltb, leb, length, length-append, append_assoc, append_nil, take, drop,
  take_all, take_add, drop_add, length-take, length-drop, Bool-cases, arith,
}
use doppio.Errno.{ok, err, epipe}
use doppio.Pipe.{
  PipeBuffer, kbuf_size, pipe_buf_size, at_most, put_bytes, WriteRound, put, full, broken, returned,
  sleeping, Run, write_round, write_loop, pipe_write, partial_count, after_write,
}
use doppio.WaitQueue.{add_wait_queue, remove_wait_queue, wake_up}
use doppio.Pipe.Ring.{contents, IsValid, put_bytes_back}
use doppio.Pipe.Read.{requeued, at_most_le, at_most_pos}

-- Bytes enter the queue of a pipe at its back.
abbrev pub Enters : List ℕ → PipeBuffer → PipeBuffer → Type 0
Enters bs p q = contents q ≡ contents p ++ bs

-- What a round of a write of `kbuf` does to the pipe, by its outcome.
abbrev pub WriteDone : List ℕ → PipeBuffer → PipeBuffer → WriteRound → Type 0
WriteDone kbuf p q (put bs) = (bs ≡ kbuf) × Enters bs p q × (2 ≤ p.refcnt)
WriteDone kbuf p q full =
    (contents q ≡ contents p)
    × (q.size ≡ p.size)
    × (2 ≤ p.refcnt)
    × (pipe_buf_size < p.size + length kbuf)
WriteDone kbuf p q broken = (contents q ≡ contents p) × (p.refcnt < 2)

abbrev pub WriteStep : List ℕ → PipeBuffer → WriteRound × List ℕ × PipeBuffer → Type 0
WriteStep kbuf p out = IsValid (out.2) × (out.2.refcnt ≡ p.refcnt) × WriteDone kbuf p out.2 out.0

module _ (kbuf : List ℕ) (me : ℕ) (p : PipeBuffer) (v : IsValid p) where
  abbrev unqueued : PipeBuffer
  unqueued = record p { rwaitq = remove_wait_queue p.rwaitq me }

  abbrev filled : PipeBuffer
  filled = put_bytes kbuf unqueued

  write_sleeps :
      leb 2 p.refcnt ≡ true
      → ltb (pipe_buf_size - p.size) (length kbuf) ≡ true
      → write_round kbuf me p ≡ (full, [], record p { rwaitq = add_wait_queue p.rwaitq me })
  unfolding write_round
  write_sleeps opened none_free = ground arith

  write_breaks : leb 2 p.refcnt ≡ false → write_round kbuf me p ≡ (broken, [], unqueued)
  unfolding write_round
  write_breaks shut = ground arith

  write_puts :
      leb 2 p.refcnt ≡ true
      → ltb (pipe_buf_size - p.size) (length kbuf) ≡ false
      → write_round kbuf me p ≡ (
        put kbuf,
        (wake_up filled.wwaitq).0,
        record filled { wwaitq = (wake_up filled.wwaitq).1 },
      )
  unfolding write_round at_most
  write_puts opened free =
      let two : ltb p.refcnt 2 ≡ false = ground arith in rw (opened, free, two, take_all kbuf) refl

  pub write_round-WriteStep : WriteStep kbuf p (write_round kbuf me p)
  write_round-WriteStep = elim (Bool-cases (leb 2 p.refcnt)) [
    | inr shut ↦
        rw (write_breaks shut) (requeued p unqueued.rwaitq p.wwaitq v, refl, (refl, ground arith))
    | inl opened ↦ elim (Bool-cases (ltb (pipe_buf_size - p.size) (length kbuf))) [
      | inl none_free ↦ rw (write_sleeps opened none_free) (
        requeued p (add_wait_queue p.rwaitq me) p.wwaitq v,
        refl,
        (refl, refl, ground arith, ground arith),
      )
      | inr free ↦
          let (enters, v', size, (cnt, _, _)) =
            put_bytes_back kbuf unqueued (requeued p unqueued.rwaitq p.wwaitq v)
              (ground (arith, v.size_in)) in
          rw (write_puts opened free) (
            requeued filled filled.rwaitq (wake_up filled.wwaitq).1 v',
            cnt,
            (refl, enters, ground arith),
          )
    ]
  ]

-- How a write ends that is run alone on a pipe, when `done` of `n` bytes were written before it.
abbrev pub WriteEnded : ℕ → ℕ → PipeBuffer → Run → Type 0
WriteEnded n done p r =
    ((r.ended ≡ returned (ok n)) × (done + length r.bytes ≡ n))
    ⊎ (((r.ended ≡ returned (partial_count done (err epipe))) × (r.bytes ≡ []) × (p.refcnt < 2))
        ⊎ ((r.ended ≡ sleeping)
            × (done + length r.bytes < n)
            × (2 ≤ p.refcnt)
            × (pipe_buf_size < r.pipe.size + at_most kbuf_size (n - (done + length r.bytes)))))

-- The bytes written come from the user's bytes, from offset `done` on, in order.
abbrev pub WriteRun : List ℕ → ℕ → PipeBuffer → Run → Type 0
WriteRun src done p r =
    Enters r.bytes p r.pipe
    × (r.bytes ≡ take (length r.bytes) (drop done src))
    × IsValid r.pipe
    × (r.pipe.refcnt ≡ p.refcnt)
    × WriteEnded (length src) done p r

-- The part of the user's bytes that a round copies.
abbrev pub next_chunk : List ℕ → ℕ → List ℕ
next_chunk src done = take (at_most kbuf_size (length src - done)) (drop done src)

joined :
    (bs cs xs : List ℕ)
    → bs ≡ take (length bs) xs
    → cs ≡ take (length cs) (drop (length bs) xs)
    → bs ++ cs ≡ take (length (bs ++ cs)) xs
joined bs cs xs e f =
    ap (λ w. w ++ cs) e
    ∙ ap (λ w. take (length bs) xs ++ w) f
    ∙ sym (ap (λ k. take k xs) (length-append bs cs) ∙ take_add (length bs) (length cs) xs)

module _ (src : List ℕ) (done : ℕ) (p : PipeBuffer) (more : done < length src)
    (again : List ℕ → PipeBuffer → Run) where
  chunk_size : length (next_chunk src done) ≡ at_most kbuf_size (length src - done)
  chunk_size =
      length-take (at_most kbuf_size (length src - done)) (drop done src)
        (omega (arith, length-drop done src, at_most_le kbuf_size (length src - done)))

  after_write-WriteRun :
      (round : WriteRound) (ready : List ℕ) (q : PipeBuffer)
      → WriteStep (next_chunk src done) p (round, ready, q)
      → ((bs : List ℕ)
          → IsValid q
          → (length bs ≡ at_most kbuf_size (length src - done))
          → WriteRun src (done + length bs) q (again bs q))
      → WriteRun src done p (after_write again done round ready q)
  unfolding after_write
  after_write-WriteRun broken ready q (v, cnt, (same, closed)) rest =
      (same ∙ sym (append_nil (contents p)), refl, v, cnt, inr (inl (refl, refl, closed)))
  after_write-WriteRun full ready q (v, cnt, (same, size, opened, none_free)) rest = (
    same ∙ sym (append_nil (contents p)),
    refl,
    v,
    cnt,
    inr (
        inr (
          refl,
          omega arith,
          opened,
          let e : length src - (done + 0) ≡ length src - done = omega arith in
              let big : pipe_buf_size < q.size + at_most kbuf_size (length src - done) =
                omega (arith, chunk_size) in
              rw e big,
        )),
  )
  after_write-WriteRun (put bs) ready q (v, cnt, (whole, enters, opened)) rest =
      let (enters', from, v', cnt', end) = rest bs v (ap length whole ∙ chunk_size) in
      let r : Run = again bs q in
      let total : done + length bs + length r.bytes ≡ done + length (bs ++ r.bytes) =
        omega (arith, length-append bs r.bytes) in
      (
        enters' ∙ ap (λ w. w ++ r.bytes) enters ∙ append_assoc (contents p) bs r.bytes,
        joined bs r.bytes (drop done src)
            (whole ∙ ap (λ k. take k (drop done src)) (sym (ap length whole ∙ chunk_size)))
            (from ∙ ap (take (length r.bytes)) (drop_add done (length bs) src)),
        v',
        cnt' ∙ cnt,
        elim end [
          | inl (e, all) ↦ inl (e, omega arith)
          | inr (inl (e, _, shut)) ↦ absurd (omega arith)
          | inr (inr (e, short, _, none_free)) ↦
              inr (inr (e, omega arith, opened, rw (sym total) none_free))
        ],
      )

module _ (user : ℕ → ℕ → Option (List ℕ)) (src : List ℕ)
    (reads : (off k : ℕ) → off + k ≤ length src → user off k ≡ some (take k (drop off src)))
    (me : ℕ) where
  user_chunk :
      (done : ℕ)
      → done < length src
      → user done (at_most kbuf_size (length src - done)) ≡ some (next_chunk src done)
  user_chunk done more =
      reads done (at_most kbuf_size (length src - done))
        (omega (arith, at_most_le kbuf_size (length src - done)))

  write_loop-WriteRun :
      (fuel done : ℕ) (p : PipeBuffer)
      → IsValid p
      → done ≤ length src
      → length src < done + fuel
      → WriteRun src done p (write_loop fuel user me (length src) done p)
  unfolding write_loop
  write_loop-WriteRun zero done p v h f = absurd (omega arith)
  write_loop-WriteRun (suc fuel) done p v h f = elim (Bool-cases (ltb done (length src))) [
    | inl more ↦
        let kbuf : List ℕ = next_chunk src done in
        let some_left : done < length src = ground arith in
        rw (more, user_chunk done some_left)
          (let (round, ready, q) = write_round kbuf me p in
            after_write-WriteRun src done p some_left
              (λ bs p'. write_loop fuel user me (length src) (done + length bs) p') round ready q
              (write_round-WriteStep kbuf me p v)
              λ bs v' size.
                write_loop-WriteRun fuel (done + length bs) q v'
                  (omega (arith, at_most_le kbuf_size (length src - done)))
                  (omega (arith, at_most_pos kbuf_size (length src - done))))
    | inr all ↦ rw all (
      sym (append_nil (contents p)),
      refl,
      v,
      refl,
      inl (ap (λ k. returned (ok k)) (ground arith), ground arith),
    )
  ]

-- A write of the bytes `src`, all of which can be read from user memory, that no other thread
-- interrupts, on a valid pipe: it returns or sleeps, never runs out of rounds; what it has written
-- is a front part of `src`, in order, behind what was in the pipe. It returns the whole length with all of `src` written, or
-- EPIPE with nothing written where the other end is closed, or sleeps where the next chunk (256
-- bytes, or what is left) does not fit the free space.
pub pipe_write-WriteRun :
    (user : ℕ → ℕ → Option (List ℕ)) (src : List ℕ) (me : ℕ) (p : PipeBuffer)
    → ((off k : ℕ) → off + k ≤ length src → user off k ≡ some (take k (drop off src)))
    → IsValid p
    → WriteRun src 0 p (pipe_write true user me (length src) p)
unfolding pipe_write
pipe_write-WriteRun user src me p reads v =
    write_loop-WriteRun user src reads me (length src + 1) 0 p v (omega arith) (omega arith)
