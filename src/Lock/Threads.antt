-- ===== src/Lock/Threads.antt =====
-- Families of threads: the position of each, and how many stand at a kind of position.
use doppio.Prelude.{
  ℕ, zero, suc, ◌+◌, ◌<◌, ◌≤◌, ◌≡◌, refl, ◌≢◌, ◌==◌, if◌then◌else◌, ℕ_discrete, arith,
}

abbrev pub update {ℓ} : {P : Type ℓ} → (ℕ → P) → ℕ → P → ℕ → P
update pc i p j = if i == j then p else pc j

pub update_self {ℓ} : {P : Type ℓ} (pc : ℕ → P) (i : ℕ) (p : P) → update pc i p i ≡ p
update_self pc i p = ground arith

pub update_ne {ℓ} : {P : Type ℓ} (pc : ℕ → P) (i j : ℕ) (p : P) → i ≢ j → update pc i p j ≡ pc j
update_ne pc i j p h = ground arith

module _ {ℓ} {P : Type ℓ} (w : P → ℕ) where
  -- The sum of `w` over the positions of the threads below `n`.
  pub total : ℕ → (ℕ → P) → ℕ
  total zero pc = 0
  total (suc n) pc = w (pc n) + total n pc

  total-update_out : (n i : ℕ) (pc : ℕ → P) (p : P) → n ≤ i → total n (update pc i p) ≡ total n pc
  unfolding total
  total-update_out zero i pc p h = refl
  total-update_out (suc n) i pc p h = ground (arith, total-update_out n i pc p)

  -- Moving one thread changes the sum by what it weighs.
  pub total-update :
      (n i : ℕ) (pc : ℕ → P) (p : P) → i < n → total n (update pc i p) + w (pc i) ≡ total n pc + w p
  unfolding total
  total-update zero i pc p h = absurd (omega arith)
  total-update (suc n) i pc p h = elim (ℕ_discrete i n) [
    | yes e ↦ ground (arith, total-update_out n i pc p)
    | no ne ↦ ground (arith, total-update n i pc p)
  ]

  pub weight-le-total : (n i : ℕ) (pc : ℕ → P) → i < n → w (pc i) ≤ total n pc
  unfolding total
  weight-le-total zero i pc h = absurd (omega arith)
  weight-le-total (suc n) i pc h = elim (ℕ_discrete i n) [
    | yes e ↦ ground arith
    | no ne ↦ ground (arith, weight-le-total n i pc)
  ]

  -- Two threads together weigh at most the total.
  pub weights-le-total :
      (n i j : ℕ) (pc : ℕ → P) → i < n → j < n → i ≢ j → w (pc i) + w (pc j) ≤ total n pc
  unfolding total
  weights-le-total zero i j pc h k ne = absurd (omega arith)
  weights-le-total (suc n) i j pc h k ne = elim (ℕ_discrete i n) [
    | yes e ↦ ground (arith, weight-le-total n j pc)
    | no ni ↦ elim (ℕ_discrete j n) [
      | yes e ↦ ground (arith, weight-le-total n i pc)
      | no nj ↦ ground (arith, weights-le-total n i j pc)
    ]
  ]

pub total-zero {ℓ} :
    {P : Type ℓ} (w : P → ℕ) (n : ℕ) (pc : ℕ → P) → ((i : ℕ) → w (pc i) ≡ 0) → total w n pc ≡ 0
unfolding total
total-zero w zero pc h = refl
total-zero w (suc n) pc h = omega (arith, h n, total-zero w n pc h)
