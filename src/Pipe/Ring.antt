-- ===== src/Pipe/Ring.antt =====
-- kernel/sys/sys_pipe.c: the ring of a pipe as a queue of bytes.
use doppio.Prelude.{
  ℕ, zero, suc, ◌+◌, ◌-◌, ◌%◌, ◌^◌, ◌<◌, ◌≤◌, ◌≡◌, refl, ap, ◌∙◌, sym, List, [], ◌∷◌, ◌++◌, length,
  length-set, length-replicate, get_or, set, get_or-set_self, get_or-set_ne, append_nil,
  append_assoc, arith,
}
use doppio.Pipe.{PipeBuffer, pipe_buf_size, new_pipe, take_bytes, put_bytes}

-- `k` bytes of a ring, from index `i` on.
pub window : List ℕ → ℕ → ℕ → List ℕ
window buf i zero = []
window buf i (suc k) = get_or buf (i % pipe_buf_size) 0 ∷ window buf (i + 1) k

-- The bytes in a pipe, oldest first.
abbrev pub contents : PipeBuffer → List ℕ
contents p = window p.buf p.head p.size

pub record IsValid (p : PipeBuffer) : Type 0 where
  pub room : length p.buf ≡ pipe_buf_size
  pub head_in : p.head < pipe_buf_size
  pub tail_at : p.tail ≡ (p.head + p.size) % pipe_buf_size
  pub size_in : p.size ≤ pipe_buf_size

pub length-window : (buf : List ℕ) (i k : ℕ) → length (window buf i k) ≡ k
unfolding window
length-window buf i zero = refl
length-window buf i (suc k) = ap suc (length-window buf (i + 1) k)

window_mod :
    (buf : List ℕ) (i j k : ℕ)
    → i % pipe_buf_size ≡ j % pipe_buf_size
    → window buf i k ≡ window buf j k
unfolding window
window_mod buf i j zero e = refl
window_mod buf i j (suc k) e =
    let next : window buf (i + 1) k ≡ window buf (j + 1) k =
      window_mod buf (i + 1) (j + 1) k (omega arith) in
    rw next (ap (λ n. get_or buf n 0 ∷ window buf (j + 1) k) e)

window_add :
    (buf : List ℕ) (i a b : ℕ) → window buf i (a + b) ≡ window buf i a ++ window buf (i + a) b
unfolding window
window_add buf i zero b =
    let e : i ≡ i + 0 = omega arith in
    let e' : 0 + b ≡ b = omega arith in ap (window buf i) e' ∙ ap (λ j. window buf j b) e
window_add buf i (suc a) b =
    let e : i + 1 + a ≡ i + suc a = omega arith in
    let whole : suc a + b ≡ suc (a + b) = omega arith in
    ap (window buf i) whole
    ∙ ap (λ w. get_or buf (i % pipe_buf_size) 0 ∷ w)
        (window_add buf (i + 1) a b ∙ ap (λ j. window buf (i + 1) a ++ window buf j b) e)

-- A write outside a window does not change it.
window-set :
    (buf : List ℕ) (i k t v : ℕ)
    → i + k ≤ t
    → t < i + pipe_buf_size
    → window (set buf (t % pipe_buf_size) v) i k ≡ window buf i k
unfolding window
window-set buf i zero t v h r = refl
window-set buf i (suc k) t v h r =
    let here : get_or (set buf (t % pipe_buf_size) v) (i % pipe_buf_size) 0
        ≡ get_or buf (i % pipe_buf_size) 0 =
      get_or-set_ne buf (t % pipe_buf_size) (i % pipe_buf_size) v 0 (λ e. omega arith) in
    let rest : window (set buf (t % pipe_buf_size) v) (i + 1) k ≡ window buf (i + 1) k =
      window-set buf (i + 1) k t v (omega arith) (omega arith) in
    rw (here, rest) refl

-- What `k` rounds of the copying loop of a read leave.
abbrev pub Taken : ℕ → PipeBuffer → PipeBuffer → Type 0
Taken k p q =
    (q.buf ≡ p.buf)
    × (q.head ≡ (p.head + k) % pipe_buf_size)
    × (q.tail ≡ p.tail)
    × (q.size + k ≡ p.size)
    × (q.refcnt ≡ p.refcnt)
    × (q.rwaitq ≡ p.rwaitq)
    × (q.wwaitq ≡ p.wwaitq)

take_bytes_lem :
    (k : ℕ) (p : PipeBuffer)
    → p.head < pipe_buf_size
    → p.size ≤ pipe_buf_size
    → k ≤ p.size
    → let (bs, q) = take_bytes k p in (bs ≡ window p.buf p.head k) × Taken k p q
unfolding take_bytes window
take_bytes_lem zero p h s r = (refl, (refl, omega arith, refl, omega arith, refl, refl, refl))
take_bytes_lem (suc k) p h s r =
    let p' : PipeBuffer = record p {
      head = (p.head + 1) % pipe_buf_size;
      size = (p.size + 2 ^ 64 - 1) % 2 ^ 64;
    } in
    let (bytes, (buf, head, tail, size, cnt, rq, wq)) =
      take_bytes_lem k p' (omega arith) (omega arith) (omega arith) in
    let here : p.head ≡ p.head % pipe_buf_size = omega arith in
    (
      ap (λ n. get_or p.buf n 0 ∷ (take_bytes k p').0) here
          ∙ ap (λ w. get_or p.buf (p.head % pipe_buf_size) 0 ∷ w)
              (bytes
                ∙ window_mod p.buf ((p.head + 1) % pipe_buf_size) (p.head + 1) k (omega arith)),
      (buf, omega arith, tail, omega arith, cnt, rq, wq),
    )

-- Bytes are taken from the front of the queue.
pub take_bytes_front :
    (k : ℕ) (p : PipeBuffer)
    → IsValid p
    → k ≤ p.size
    → let (bs, q) = take_bytes k p in
      (contents p ≡ bs ++ contents q) × (length bs ≡ k) × IsValid q × Taken k p q
take_bytes_front k p v r =
    let (bytes, (buf, head, tail, size, cnt, rq, wq)) = take_bytes_lem k p v.head_in v.size_in r in
    let (bs, q) = take_bytes k p in
    let split : p.size ≡ k + q.size = omega arith in
    let rest : window p.buf (p.head + k) q.size ≡ contents q =
      window_mod p.buf (p.head + k) ((p.head + k) % pipe_buf_size) q.size (omega arith)
      ∙ ap (λ i. window p.buf i q.size) (sym head)
      ∙ ap (λ b. window b q.head q.size) (sym buf) in
    (
      ap (window p.buf p.head) split
          ∙ window_add p.buf p.head k q.size
          ∙ ap (λ w. window p.buf p.head k ++ w) rest
          ∙ ap (λ w. w ++ contents q) (sym bytes),
      ap length bytes ∙ length-window p.buf p.head k,
      record {
        room = ap length buf ∙ v.room;
        head_in = omega arith;
        tail_at = omega (arith, v.tail_at);
        size_in = omega (arith, v.size_in);
      },
      (buf, head, tail, size, cnt, rq, wq),
    )

-- What the copying loop of a write does not touch.
abbrev pub Kept : PipeBuffer → PipeBuffer → Type 0
Kept p q = (q.refcnt ≡ p.refcnt) × (q.rwaitq ≡ p.rwaitq) × (q.wwaitq ≡ p.wwaitq)

window_snoc :
    (buf : List ℕ) (i k : ℕ)
    → window buf i (k + 1) ≡ window buf i k ++ (get_or buf ((i + k) % pipe_buf_size) 0 ∷ [])
unfolding window
window_snoc buf i k = window_add buf i k 1

-- Bytes are appended to the queue.
pub put_bytes_back :
    (bs : List ℕ) (p : PipeBuffer)
    → IsValid p
    → p.size + length bs ≤ pipe_buf_size
    → let q = put_bytes bs p in
      (contents q ≡ contents p ++ bs) × IsValid q × (q.size ≡ p.size + length bs) × Kept p q
unfolding put_bytes
put_bytes_back [] p v r = (sym (append_nil (contents p)), v, omega arith, (refl, refl, refl))
put_bytes_back (b ∷ bs) p v r =
    let p' : PipeBuffer = record p {
      buf = set p.buf p.tail b;
      tail = (p.tail + 1) % pipe_buf_size;
      size = (p.size + 1) % 2 ^ 64;
    } in
    let grown : p'.size ≡ p.size + 1 = omega arith in
    let kept : window p'.buf p.head p.size ≡ contents p =
      ap (λ t. window (set p.buf t b) p.head p.size) v.tail_at
      ∙ window-set p.buf p.head p.size (p.head + p.size) b (omega arith) (omega arith) in
    let new : get_or p'.buf ((p.head + p.size) % pipe_buf_size) 0 ≡ b =
      ap (λ t. get_or p'.buf t 0) (sym v.tail_at)
      ∙ get_or-set_self p.buf p.tail b 0 (omega (arith, v.tail_at, v.room)) in
    let one : contents p' ≡ contents p ++ (b ∷ []) =
      ap (window p'.buf p.head) grown ∙ window_snoc p'.buf p.head p.size ∙ rw (kept, new) refl in
    let v' : IsValid p' = record {
      room = length-set p.buf p.tail b ∙ v.room;
      head_in = v.head_in;
      tail_at = omega (arith, v.tail_at);
      size_in = omega arith;
    } in
    let (all, valid, size, (cnt, rq, wq)) = put_bytes_back bs p' v' (omega arith) in
    (
      all ∙ ap (λ w. w ++ bs) one ∙ append_assoc (contents p) (b ∷ []) bs,
      valid,
      omega arith,
      (cnt, rq, wq),
    )

pub new_pipe-IsValid : IsValid new_pipe
unfolding new_pipe
new_pipe-IsValid = record {
  room = length-replicate {A = ℕ} pipe_buf_size 0;
  head_in = omega arith;
  tail_at = refl;
  size_in = omega arith;
}

pub new_pipe_empty : [] ≡ contents new_pipe
unfolding new_pipe window
new_pipe_empty = refl
