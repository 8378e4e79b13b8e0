-- ===== src/Prelude/Lists.antt =====
-- C arrays as lists with native indices, and their laws.
use Prim.Native.Nat.{ℕ, zero, suc, ◌+◌, ◌-◌, ◌<◌, ◌≤◌}
use mathlib.Core.Path.{◌≡◌, refl, sym, ap, ◌∙◌}
use mathlib.Core.Logic.{◌≢◌}
use mathlib.Core.List.{List, [], ◌∷◌, ◌++◌}
use mathlib.Core.Logic.{inl, inr}
use mathlib.Core.Bool.{Bool, true, false}
use mathlib.Core.Option.{Option, none, some}
use native.Mathlib.Omega.{arith}
use doppio.Prelude.Tests.{if◌then◌else◌, Bool-cases, Option-cases}

module _ {ℓ} {A : Type ℓ} where
  abbrev pub length : List A → ℕ
  length [] = 0
  length (x ∷ xs) = suc (length xs)

  abbrev pub get_or : List A → ℕ → A → A
  get_or [] i d = d
  get_or (x ∷ xs) zero d = x
  get_or (x ∷ xs) (suc i) d = get_or xs i d

  -- A write out of bounds changes nothing.
  abbrev pub set : List A → ℕ → A → List A
  set [] i v = []
  set (x ∷ xs) zero v = v ∷ xs
  set (x ∷ xs) (suc i) v = x ∷ set xs i v

  abbrev pub take : ℕ → List A → List A
  take zero xs = []
  take (suc n) [] = []
  take (suc n) (x ∷ xs) = x ∷ take n xs

  abbrev pub drop : ℕ → List A → List A
  drop zero xs = xs
  drop (suc n) [] = []
  drop (suc n) (x ∷ xs) = drop n xs

  abbrev pub replicate : ℕ → A → List A
  replicate zero a = []
  replicate (suc n) a = a ∷ replicate n a

module _ {ℓ} {A : Type ℓ} where
  pub length-append : (xs ys : List A) → length (xs ++ ys) ≡ length xs + length ys
  length-append [] ys = omega arith
  length-append (x ∷ xs) ys = omega (arith, length-append xs ys)

  pub append_nil : (xs : List A) → xs ++ [] ≡ xs
  append_nil [] = refl
  append_nil (x ∷ xs) = ap (λ ys. x ∷ ys) (append_nil xs)

  pub append_assoc : (xs ys zs : List A) → (xs ++ ys) ++ zs ≡ xs ++ (ys ++ zs)
  append_assoc [] ys zs = refl
  append_assoc (x ∷ xs) ys zs = ap (λ ws. x ∷ ws) (append_assoc xs ys zs)

  pub take_all : (xs : List A) → take (length xs) xs ≡ xs
  take_all [] = refl
  take_all (x ∷ xs) = ap (λ ys. x ∷ ys) (take_all xs)

  take-nil : (n : ℕ) → take {A = A} n [] ≡ []
  take-nil zero = refl
  take-nil (suc n) = refl

  drop-nil : (n : ℕ) → drop {A = A} n [] ≡ []
  drop-nil zero = refl
  drop-nil (suc n) = refl

  pub take_add : (a b : ℕ) (xs : List A) → take (a + b) xs ≡ take a xs ++ take b (drop a xs)
  take_add zero b xs = let e : 0 + b ≡ b = omega arith in ap (λ n. take n xs) e
  take_add (suc a) b [] = take-nil (suc a + b) ∙ sym (take-nil b)
  take_add (suc a) b (x ∷ xs) =
      let e : suc a + b ≡ suc (a + b) = omega arith in
      ap (λ n. take n (x ∷ xs)) e ∙ ap (λ ys. x ∷ ys) (take_add a b xs)

  pub drop_add : (a b : ℕ) (xs : List A) → drop (a + b) xs ≡ drop b (drop a xs)
  drop_add zero b xs = let e : 0 + b ≡ b = omega arith in ap (λ n. drop n xs) e
  drop_add (suc a) b [] = drop-nil (suc a + b) ∙ sym (drop-nil b)
  drop_add (suc a) b (x ∷ xs) =
      let e : suc a + b ≡ suc (a + b) = omega arith in ap (λ n. drop n (x ∷ xs)) e ∙ drop_add a b xs

  pub length-drop : (n : ℕ) (xs : List A) → length (drop n xs) ≡ length xs - n
  length-drop zero xs = omega arith
  length-drop (suc n) [] = omega arith
  length-drop (suc n) (x ∷ xs) = length-drop n xs ∙ omega arith

  pub length-take : (n : ℕ) (xs : List A) → n ≤ length xs → length (take n xs) ≡ n
  length-take zero xs h = refl
  length-take (suc n) [] h = absurd (omega arith)
  length-take (suc n) (x ∷ xs) h = ap suc (length-take n xs (omega arith))

  pub length-replicate : (n : ℕ) (a : A) → length (replicate n a) ≡ n
  length-replicate zero a = refl
  length-replicate (suc n) a = ap suc (length-replicate n a)

  pub get_or-replicate : (n i : ℕ) (a : A) → get_or (replicate n a) i a ≡ a
  get_or-replicate zero i a = refl
  get_or-replicate (suc n) zero a = refl
  get_or-replicate (suc n) (suc i) a = get_or-replicate n i a

  pub length-set : (xs : List A) (i : ℕ) (v : A) → length (set xs i v) ≡ length xs
  length-set [] i v = refl
  length-set (x ∷ xs) zero v = refl
  length-set (x ∷ xs) (suc i) v = ap suc (length-set xs i v)

  pub get_or-set_self :
      (xs : List A) (i : ℕ) (v d : A) → i < length xs → get_or (set xs i v) i d ≡ v
  get_or-set_self [] i v d h = absurd (omega arith)
  get_or-set_self (x ∷ xs) zero v d h = refl
  get_or-set_self (x ∷ xs) (suc i) v d h = get_or-set_self xs i v d (omega arith)

  pub get_or-set_ne :
      (xs : List A) (i j : ℕ) (v d : A) → i ≢ j → get_or (set xs i v) j d ≡ get_or xs j d
  get_or-set_ne [] i j v d h = refl
  get_or-set_ne (x ∷ xs) zero zero v d h = absurd (h refl)
  get_or-set_ne (x ∷ xs) zero (suc j) v d h = refl
  get_or-set_ne (x ∷ xs) (suc i) zero v d h = refl
  get_or-set_ne (x ∷ xs) (suc i) (suc j) v d h = get_or-set_ne xs i j v d (λ e. h (ap suc e))

  pub get_or_out : (xs : List A) (i : ℕ) (d : A) → length xs ≤ i → get_or xs i d ≡ d
  get_or_out [] i d h = refl
  get_or_out (x ∷ xs) zero d h = absurd (omega arith)
  get_or_out (x ∷ xs) (suc i) d h = get_or_out xs i d (omega arith)

-- The first index of an element that passes a test, as a C loop looks for it.
module _ {ℓ} {A : Type ℓ} (p : A → Bool) where
  pub find_from : ℕ → List A → Option ℕ
  find_from i [] = none
  find_from i (x ∷ xs) = if p x then some i else find_from (i + 1) xs

  unfoldable pub find_index : List A → Option ℕ
  unfolding find_from
  find_index xs = find_from 0 xs

  find_from-some :
      (d : A) (i : ℕ) (xs : List A) (j : ℕ)
      → find_from i xs ≡ some j
      → (m : ℕ) × (j ≡ i + m) × (m < length xs) × (p (get_or xs m d) ≡ true)
  unfolding find_from
  find_from-some d i [] j e = absurd (ground arith)
  find_from-some d i (x ∷ xs) j e = elim (Bool-cases (p x)) [
    | inl hit ↦ (0, ground arith, omega arith, hit)
    | inr miss ↦
        let (m, a, b, c) = find_from-some d (i + 1) xs j (ground arith) in
        (suc m, omega arith, omega arith, c)
  ]

  find_from-none :
      (d : A) (i : ℕ) (xs : List A)
      → find_from i xs ≡ none
      → (m : ℕ) → m < length xs
      → p (get_or xs m d) ≡ false
  unfolding find_from
  find_from-none d i [] e m h = absurd (omega arith)
  find_from-none d i (x ∷ xs) e zero h = ground arith
  find_from-none d i (x ∷ xs) e (suc m) h =
      find_from-none d (i + 1) xs (ground arith) m (omega arith)

  pub find_index-some :
      (d : A) (xs : List A) (j : ℕ)
      → find_index xs ≡ some j
      → (j < length xs) × (p (get_or xs j d) ≡ true)
  unfolding find_index
  find_index-some d xs j e =
      let (m, a, b, c) = find_from-some d 0 xs j e in
      let same : j ≡ m = omega arith in rw same (b, c)

  pub find_index-none :
      (d : A) (xs : List A)
      → find_index xs ≡ none
      → (m : ℕ) → m < length xs
      → p (get_or xs m d) ≡ false
  unfolding find_index
  find_index-none d xs e m h = find_from-none d 0 xs e m h

  -- The only index that passes is the one found.
  pub find_index-only :
      (d : A) (xs : List A) (i : ℕ)
      → i < length xs
      → p (get_or xs i d) ≡ true
      → ((j : ℕ) → p (get_or xs j d) ≡ true → i ≡ j)
      → find_index xs ≡ some i
  find_index-only d xs i h hit only = elim (Option-cases (find_index xs)) [
    | inl e ↦ absurd (ground (arith, find_index-none d xs e i h))
    | inr (j, e) ↦ e ∙ ap some (sym (only j (find_index-some d xs j e).1))
  ]

-- Every element satisfies `P`.
abbrev pub All {ℓ κ} : {A : Type ℓ} → (A → Type κ) → List A → Type κ
All P [] = Unit
All P (x ∷ xs) = P x × All P xs

module _ {ℓ} {A : Type ℓ} where
  pub All-map {κ μ} :
      (P : A → Type κ) (Q : A → Type μ)
      → ((a : A) → P a → Q a)
      → (xs : List A) → All P xs
      → All Q xs
  All-map P Q f [] a = tt
  All-map P Q f (x ∷ xs) (p, a) = (f x p, All-map P Q f xs a)

  pub All-append {κ} : (P : A → Type κ) (xs ys : List A) → All P xs → All P ys → All P (xs ++ ys)
  All-append P [] ys a b = b
  All-append P (x ∷ xs) ys (p, a) b = (p, All-append P xs ys a b)

  pub All-of-append {κ} : (P : A → Type κ) (xs ys : List A) → All P (xs ++ ys) → All P xs × All P ys
  All-of-append P [] ys a = (tt, a)
  All-of-append P (x ∷ xs) ys (p, a) = let (b, c) = All-of-append P xs ys a in ((p, b), c)
