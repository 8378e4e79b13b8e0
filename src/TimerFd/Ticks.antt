-- ===== src/TimerFd/Ticks.antt =====
-- kernel/sys/sys_fd.c: the expirations of a timer, and how `timerfd_update_ticks` counts them.
use native.Mathlib.Nat.{
  add-mul, add-mul-div_right, lt-div-mul-add, div-mul-le_self, div-le_self, div-eq_of_lt-le,
}
use doppio.Prelude.{
  ℕ, ◌+◌, ◌-◌, ◌*◌, ◌/◌, ◌%◌, ◌^◌, ◌<◌, ◌≤◌, ◌≡◌, refl, ap, ◌∙◌, sym, ◌⊎◌, inl, inr, List, [], ◌∷◌,
  ltb, leb, ◌==◌, if◌then◌else◌, Bool-cases, dec_lt, ℕ_discrete, arith,
}
use doppio.TimerFd.{TimerfdBuffer, update_ticks}

-- How often a timer has expired by `now` that first expires at `first` and then every `interval`,
-- or only once if `interval` is 0.
unfoldable pub expirations : ℕ → ℕ → ℕ → ℕ
expirations first interval now =
    if ltb now first then 0 else if interval == 0 then 1 else 1 + (now - first) / interval

-- When it next expires after `now`: 0 for never.
unfoldable pub next_expiry : ℕ → ℕ → ℕ → ℕ
next_expiry first interval now =
    if ltb now first
    then first
    else if interval == 0
    then 0
    else first + (1 + (now - first) / interval) * interval

-- A timer buffer that counts the expirations of such a timer, at `now`.
abbrev pub Counts : ℕ → ℕ → ℕ → TimerfdBuffer → Type 0
Counts first interval now tb =
    (tb.interval_ns ≡ interval)
    × (tb.ticks_count ≡ expirations first interval now)
    × (tb.expire_time_ns ≡ next_expiry first interval now)

-- Times in the range where no sum of the code wraps.
abbrev pub InRange : ℕ → ℕ → Type 0
InRange interval now = (interval < 2 ^ 62) × (now < 2 ^ 62)

update_idle :
    (tb : TimerfdBuffer) (now : ℕ)
    → (tb.expire_time_ns ≡ 0) ⊎ (now < tb.expire_time_ns)
    → update_ticks tb now ≡ tb
unfolding update_ticks
update_idle tb now (inl off) = ground arith
update_idle tb now (inr early) = ground arith

update_once :
    (tb : TimerfdBuffer) (now : ℕ)
    → 0 < tb.expire_time_ns
    → tb.expire_time_ns ≤ now
    → tb.interval_ns ≡ 0
    → update_ticks tb now
      ≡ record tb { ticks_count = (tb.ticks_count + 1) % 2 ^ 64; expire_time_ns = 0 }
unfolding update_ticks
update_once tb now set due single = ground arith

abbrev missed : TimerfdBuffer → ℕ → ℕ
missed tb now = (1 + (now - tb.expire_time_ns) / tb.interval_ns) % 2 ^ 64

update_periodic :
    (tb : TimerfdBuffer) (now : ℕ)
    → 0 < tb.expire_time_ns
    → tb.expire_time_ns ≤ now
    → 0 < tb.interval_ns
    → update_ticks tb now ≡ record tb {
      ticks_count = (tb.ticks_count + missed tb now) % 2 ^ 64;
      expire_time_ns = (tb.expire_time_ns + missed tb now * tb.interval_ns) % 2 ^ 64;
    }
unfolding update_ticks
update_periodic tb now set due periodic = ground arith

module _ (first interval : ℕ) (positive : 0 < first) where
  pub before_first :
      (now : ℕ)
      → now < first
      → (expirations first interval now ≡ 0) × (next_expiry first interval now ≡ first)
  unfolding expirations next_expiry
  before_first now h = (ground arith, ground arith)

  after_single :
      (now : ℕ)
      → first ≤ now
      → interval ≡ 0
      → (expirations first interval now ≡ 1) × (next_expiry first interval now ≡ 0)
  unfolding expirations next_expiry
  after_single now h e = (ground arith, ground arith)

  after_periodic :
      (now : ℕ)
      → first ≤ now
      → 0 < interval
      → (expirations first interval now ≡ 1 + (now - first) / interval)
        × (next_expiry first interval now ≡ first + (1 + (now - first) / interval) * interval)
  unfolding expirations next_expiry
  after_periodic now h p = (ground arith, ground arith)

  -- The next expiry of a periodic timer is later than now, by at most one interval.
  next_bounds :
      (now : ℕ)
      → first ≤ now
      → 0 < interval
      → let next = first + (1 + (now - first) / interval) * interval in
        (now < next) × (next ≤ now + interval)
  next_bounds now h p = omega (
    arith,
    add-mul 1 ((now - first) / interval) interval,
    lt-div-mul-add {a = now - first} p,
    div-mul-le_self (now - first) interval,
  )

  -- From one time to a later one, across `k` further expirations.
  count_on : (a x : ℕ) → 0 < interval → (x + (1 + a) * interval) / interval ≡ x / interval + (1 + a)
  count_on a x p = add-mul-div_right x (1 + a) p

  same_count :
      (now later : ℕ)
      → first ≤ now
      → now ≤ later
      → 0 < interval
      → later < first + (1 + (now - first) / interval) * interval
      → (later - first) / interval ≡ (now - first) / interval
  same_count now later h l p early =
      div-eq_of_lt-le interval (omega (arith, div-mul-le_self (now - first) interval)) (
        omega (
          arith,
          add-mul 1 ((now - first) / interval) interval,
          add-mul ((now - first) / interval) 1 interval,
        ))

-- What a call does with a periodic timer that is due, where no sum wraps.
advance :
    (tb : TimerfdBuffer) (later interval count next : ℕ)
    → tb.interval_ns ≡ interval
    → 0 < interval
    → 0 < tb.expire_time_ns
    → tb.expire_time_ns ≤ later
    → let m = 1 + (later - tb.expire_time_ns) / interval in
      count ≡ tb.ticks_count + m
      → next ≡ tb.expire_time_ns + m * interval
      → count < 2 ^ 64
      → next < 2 ^ 64
      → let tb' = update_ticks tb later in
        (tb'.interval_ns ≡ interval) × (tb'.ticks_count ≡ count) × (tb'.expire_time_ns ≡ next)
advance tb later interval count next i p set due c n small_c small_n =
    let m : ℕ = 1 + (later - tb.expire_time_ns) / interval in
    let same : missed tb later ≡ m =
      ap (λ k. (1 + (later - tb.expire_time_ns) / k) % 2 ^ 64) i ∙ omega arith in
    let product : missed tb later * tb.interval_ns ≡ m * interval =
      ap (λ k. k * tb.interval_ns) same ∙ ap (λ k. m * k) i in
    rw (update_periodic tb later set due (omega arith)) (i, omega arith, omega arith)

module _ (first interval : ℕ) (positive : 0 < first) (small_first : first < 2 ^ 62)
    (small : interval < 2 ^ 62) where
  -- A call before which the timer has not expired
  count_first :
      (now later : ℕ) (tb : TimerfdBuffer)
      → now < first
      → later < 2 ^ 62
      → now ≤ later
      → Counts first interval now tb
      → Counts first interval later (update_ticks tb later)
  count_first now later tb early bound l (i, c, n) =
      let (c0, n0) = before_first first interval positive now early in
      let at : tb.expire_time_ns ≡ first = n ∙ n0 in
      elim (dec_lt later first) [
        | yes still ↦
            let (c1, n1) = before_first first interval positive later still in
            rw (update_idle tb later (inr (omega arith))) (i, c ∙ c0 ∙ sym c1, at ∙ sym n1)
        | no due ↦ elim (ℕ_discrete interval 0) [
          | yes once ↦
              let (c1, n1) = after_single first interval positive later (omega arith) once in
              rw (update_once tb later (omega arith) (omega arith) (omega arith))
                (i, omega arith, sym n1)
          | no repeats ↦
              let (c1, n1) =
                after_periodic first interval positive later (omega arith) (omega arith) in
              let (lo, hi) =
                next_bounds first interval positive later (omega arith) (omega arith) in
              let m : ℕ → ℕ = λ e. 1 + (later - e) / interval in
              advance tb later interval (expirations first interval later)
                (next_expiry first interval later) i (omega arith) (omega arith) (omega arith)
                (c1 ∙ ap m (sym at) ∙ omega arith) (n1 ∙ ap (λ e. e + m e * interval) (sym at))
                (omega (arith, div-le_self (later - first) interval)) (omega arith)
        ]
      ]

  -- A call after the timer has expired
  count_more :
      (now later : ℕ) (tb : TimerfdBuffer)
      → first ≤ now
      → later < 2 ^ 62
      → now ≤ later
      → Counts first interval now tb
      → Counts first interval later (update_ticks tb later)
  count_more now later tb past bound l (i, c, n) = elim (ℕ_discrete interval 0) [
    | yes once ↦
        let (c0, n0) = after_single first interval positive now past once in
        let (c1, n1) = after_single first interval positive later (omega arith) once in
        rw (update_idle tb later (inl (n ∙ n0))) (i, c ∙ c0 ∙ sym c1, n ∙ n0 ∙ sym n1)
    | no repeats ↦
        let p : 0 < interval = omega arith in
        let a : ℕ = (now - first) / interval in
        let (c0, n0) = after_periodic first interval positive now past p in
        let (c1, n1) = after_periodic first interval positive later (omega arith) p in
        let (lo, hi) = next_bounds first interval positive now past p in
        let (lo', hi') = next_bounds first interval positive later (omega arith) p in
        let at : tb.expire_time_ns ≡ first + (1 + a) * interval = n ∙ n0 in
        elim (dec_lt later (first + (1 + a) * interval)) [
          | yes still ↦
              let same : (later - first) / interval ≡ a =
                same_count first interval positive now later past l p still in
              rw (update_idle tb later (inr (omega arith))) (
                i,
                c ∙ c0 ∙ ap (λ k. 1 + k) (sym same) ∙ sym c1,
                at ∙ ap (λ k. first + (1 + k) * interval) (sym same) ∙ sym n1,
              )
          | no due ↦
              let x : ℕ = later - tb.expire_time_ns in
              let split : later - first ≡ x + (1 + a) * interval = omega arith in
              let quotient : (later - first) / interval ≡ x / interval + (1 + a) =
                ap (λ k. k / interval) split ∙ count_on first interval positive a x p in
              let sum : 1 + (later - first) / interval ≡ (1 + x / interval) + (1 + a) =
                omega arith in
              let product : (1 + (later - first) / interval) * interval
                  ≡ (1 + x / interval) * interval + (1 + a) * interval =
                ap (λ k. k * interval) sum ∙ add-mul (1 + x / interval) (1 + a) interval in
              advance tb later interval (expirations first interval later)
                (next_expiry first interval later) i p (omega arith) (omega arith) (omega arith)
                (omega arith) (omega (arith, div-le_self (later - first) interval)) (omega arith)
        ]
  ]

-- A timer that counts the expirations up to `now` counts them up to any later time after a call
-- at that time, each once, however many fall between; times and interval are below 2^62 ns, which
-- is over a hundred years.
pub update_ticks-Counts :
    (first interval now later : ℕ) (tb : TimerfdBuffer)
    → 0 < first
    → first < 2 ^ 62
    → InRange interval later
    → now ≤ later
    → Counts first interval now tb
    → Counts first interval later (update_ticks tb later)
update_ticks-Counts first interval now later tb positive small_first (small, bound) l counts =
    elim (dec_lt now first) [
      | yes early ↦
          count_first first interval positive small_first small now later tb early bound l counts
      | no past ↦
          count_more first interval positive small_first small now later tb (omega arith) bound l
            counts
    ]

-- Calls at a list of times, in this order.
pub polls : TimerfdBuffer → List ℕ → TimerfdBuffer
polls tb [] = tb
polls tb (t ∷ ts) = polls (update_ticks tb t) ts

-- Times that do not go back: from `start` to `end`.
abbrev pub Ascending : ℕ → List ℕ → ℕ → Type 0
Ascending start [] end = start ≤ end
Ascending start (t ∷ ts) end = (start ≤ t) × Ascending t ts end

Ascending-le : (start : ℕ) (ts : List ℕ) (end : ℕ) → Ascending start ts end → start ≤ end
Ascending-le start [] end h = h
Ascending-le start (t ∷ ts) end (h, r) = omega (arith, Ascending-le t ts end r)

pub polls-Counts :
    (first interval start end : ℕ) (ts : List ℕ) (tb : TimerfdBuffer)
    → 0 < first
    → first < 2 ^ 62
    → InRange interval end
    → Ascending start ts end
    → Counts first interval start tb
    → (last : ℕ) × (last ≤ end) × Counts first interval last (polls tb ts)
unfolding polls
polls-Counts first interval start end [] tb p f r a counts = (start, a, counts)
polls-Counts first interval start end (t ∷ ts) tb p f r (l, a) counts =
    polls-Counts first interval t end ts (update_ticks tb t) p f r a (
      update_ticks-Counts first interval start t tb p f
        (r.0, omega (arith, Ascending-le t ts end a)) l counts)

pub update_ticks_kept :
    (tb : TimerfdBuffer) (now : ℕ)
    → ((update_ticks tb now).flags ≡ tb.flags) × ((update_ticks tb now).value ≡ tb.value)
unfolding update_ticks
update_ticks_kept tb now = elim (Bool-cases (tb.expire_time_ns == 0)) [
  | inl off ↦ rw off (refl, refl)
  | inr set ↦ elim (Bool-cases (leb tb.expire_time_ns now)) [
    | inr early ↦ rw (set, early) (refl, refl)
    | inl due ↦ elim (Bool-cases (tb.interval_ns == 0)) [
      | inl once ↦ rw (set, due, once) (refl, refl)
      | inr repeats ↦ rw (set, due, repeats) (refl, refl)
    ]
  ]
]

pub polls-flags : (tb : TimerfdBuffer) (ts : List ℕ) → (polls tb ts).flags ≡ tb.flags
unfolding polls
polls-flags tb [] = refl
polls-flags tb (t ∷ ts) = polls-flags (update_ticks tb t) ts ∙ (update_ticks_kept tb t).0
