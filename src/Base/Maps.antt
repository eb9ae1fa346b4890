-- ===== src/Base/Maps.antt =====
-- A map with numbers as keys, as an association list, and families indexed by a number.
use Prim.Native.Nat.{ℕ, zero, suc, ◌+◌, ◌≤◌, ◌<◌}
use mathlib.Core.Path.{◌≡◌, refl}
use mathlib.Core.Logic.{◌≢◌, inl, inr}
use mathlib.Core.Option.{Option, none, some}
use mathlib.Core.List.{List, [], ◌∷◌}
use native.Mathlib.Omega.{arith}
use room_booking_platform.Base.Tests.{◌==◌, if◌then◌else◌, Bool-cases}

module _ {ℓ} {A : Type ℓ} where
  -- The first entry of a key.
  abbrev pub lookup : ℕ → List (ℕ × A) → Option A
  lookup key [] = none
  lookup key ((k, value) ∷ rest) = if k == key then some value else lookup key rest

  -- The value of a key that is there is replaced.
  abbrev pub insert : ℕ → A → List (ℕ × A) → List (ℕ × A)
  insert key new [] = (key, new) ∷ []
  insert key new ((k, old) ∷ rest) =
      if k == key then (k, new) ∷ rest else (k, old) ∷ insert key new rest

  pub lookup-insert :
      (key other : ℕ) (new : A) (entries : List (ℕ × A))
      → lookup other (insert key new entries)
        ≡ (if key == other then some new else lookup other entries)
  lookup-insert key other new [] = refl
  lookup-insert key other new ((k, old) ∷ rest) = ground (arith, lookup-insert key other new rest)

  -- A family with another value at one index.
  abbrev pub put : (ℕ → A) → ℕ → A → ℕ → A
  put f i a j = if i == j then a else f j

  module _ (weight : A → ℕ) where
    -- The weights of the first `n` members.
    pub sum_of : ℕ → (ℕ → A) → ℕ
    sum_of zero f = 0
    sum_of (suc n) f = weight (f n) + sum_of n f

    sum_of-put_above : (n i : ℕ) (f : ℕ → A) (a : A) → n ≤ i → sum_of n (put f i a) ≡ sum_of n f
    unfolding sum_of
    sum_of-put_above zero i f a h = refl
    sum_of-put_above (suc n) i f a h = ground (arith, sum_of-put_above n i f a)

    pub sum_of-put :
        (n i : ℕ) (f : ℕ → A) (a : A)
        → i < n
        → sum_of n (put f i a) + weight (f i) ≡ sum_of n f + weight a
    unfolding sum_of
    sum_of-put zero i f a h = absurd (omega arith)
    sum_of-put (suc n) i f a h = elim (Bool-cases (i == n)) [
      | inl last ↦ ground (arith, sum_of-put_above n i f a)
      | inr below ↦ ground (arith, sum_of-put n i f a)
    ]

    -- Where there is weight, a member has it.
    pub sum_of_positive :
        (n : ℕ) (f : ℕ → A) → 0 < sum_of n f → (i : ℕ) × (i < n) × (0 < weight (f i))
    unfolding sum_of
    sum_of_positive zero f h = absurd (omega arith)
    sum_of_positive (suc n) f h = elim (Bool-cases (weight (f n) == 0)) [
      | inl none_here ↦
          let (i, below, has) = sum_of_positive n f (ground arith) in (i, omega arith, has)
      | inr here ↦ (n, omega arith, ground arith)
    ]

    pub sum_of_zero : (n : ℕ) (f : ℕ → A) → ((i : ℕ) → weight (f i) ≡ 0) → sum_of n f ≡ 0
    unfolding sum_of
    sum_of_zero zero f h = refl
    sum_of_zero (suc n) f h = omega (arith, h n, sum_of_zero n f h)

    -- A member weighs at most what all weigh, and so do two members together.
    pub weight-le : (n i : ℕ) (f : ℕ → A) → i < n → weight (f i) ≤ sum_of n f
    unfolding sum_of
    weight-le zero i f h = absurd (omega arith)
    weight-le (suc n) i f h = elim (Bool-cases (i == n)) [
      | inl last ↦ ground arith
      | inr below ↦ ground (arith, weight-le n i f)
    ]

    pub weights-le :
        (n i j : ℕ) (f : ℕ → A) → i < n → j < n → i ≢ j → weight (f i) + weight (f j) ≤ sum_of n f
    unfolding sum_of
    weights-le zero i j f h k ne = absurd (omega arith)
    weights-le (suc n) i j f h k ne = elim (Bool-cases (i == n)) [
      | inl i_last ↦ ground (arith, weight-le n j f)
      | inr i_below ↦ elim (Bool-cases (j == n)) [
        | inl j_last ↦ ground (arith, weight-le n i f)
        | inr j_below ↦ ground (arith, weights-le n i j f)
      ]
    ]

  pub sum_of-le :
      (v w : A → ℕ) → ((a : A) → v a ≤ w a) → (n : ℕ) (f : ℕ → A) → sum_of v n f ≤ sum_of w n f
  unfolding sum_of
  sum_of-le v w h zero f = omega arith
  sum_of-le v w h (suc n) f = omega (arith, h (f n), sum_of-le v w h n f)
