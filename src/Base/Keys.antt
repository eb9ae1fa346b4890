-- ===== src/Base/Keys.antt =====
-- Rows that a number identifies: a table with a primary key.
use Prim.Native.Nat.{ℕ}
use mathlib.Core.Path.{◌≡◌, refl, sym, ◌∙◌}
use mathlib.Core.Logic.{◌≢◌, inl, inr}
use mathlib.Core.Bool.{Bool, true, false}
use mathlib.Core.Option.{some}
use mathlib.Core.List.{List, [], ◌∷◌, ◌++◌}
use native.Mathlib.Omega.{arith}
use room_booking_platform.Base.Tests.{◌==◌, Bool-cases, if◌then◌else◌}
use room_booking_platform.Base.Lists.{All, AllPairs, exists, update, find, All-append, count_if}

module _ {ℓ} {A : Type ℓ} where
  pub exists-update :
      (q p : A → Bool) (f : A → A)
      → ((x : A) → q (f x) ≡ q x)
      → (xs : List A) → exists q (update p f xs) ≡ exists q xs
  exists-update q p f same [] = refl
  exists-update q p f same (x ∷ xs) = ground (arith, same x, exists-update q p f same xs)

  pub exists-append_left :
      (q : A → Bool) (xs ys : List A) → exists q xs ≡ true → exists q (xs ++ ys) ≡ true
  exists-append_left q [] ys h = cc
  exists-append_left q (x ∷ xs) ys h = ground (arith, exists-append_left q xs ys)

  -- A row that passes a test, and what holds of all rows.
  pub exists_All {κ} :
      (P : A → Type κ) (Q : Type κ) (q : A → Bool)
      → ((x : A) → P x → q x ≡ true → Q)
      → (xs : List A) → All P xs
      → exists q xs ≡ true
      → Q
  exists_All P Q q step [] h e = cc
  exists_All P Q q step (x ∷ xs) h e = ground (arith, step x h.0, exists_All P Q q step xs h.1)

  pub exists_of_count : (q : A → Bool) (xs : List A) → count_if q xs ≡ 1 → exists q xs ≡ true
  exists_of_count q [] h = ground arith
  exists_of_count q (x ∷ xs) h = ground (arith, exists_of_count q xs)

  pub All-map {κ μ} :
      (P : A → Type κ) (Q : A → Type μ)
      → ((x : A) → P x → Q x)
      → (xs : List A) → All P xs
      → All Q xs
  All-map P Q f [] h = tt
  All-map P Q f (x ∷ xs) h = (f x h.0, All-map P Q f xs h.1)

  pub All-zip {κ μ} :
      (P : A → Type κ) (Q : A → Type μ) (xs : List A)
      → All P xs
      → All Q xs
      → All (λ x. P x × Q x) xs
  All-zip P Q [] h k = tt
  All-zip P Q (x ∷ xs) h k = ((h.0, k.0), All-zip P Q xs h.1 k.1)

  pub All-change {κ μ} :
      (P : A → Type κ) (Q : A → Type μ) (p : A → Bool) (f : A → A)
      → ((x : A) → P x → Q (if p x then f x else x))
      → (xs : List A) → All P xs
      → All Q (update p f xs)
  All-change P Q p f step [] h = tt
  All-change P Q p f step (x ∷ xs) h = (step x h.0, All-change P Q p f step xs h.1)

module _ {ℓ} {A : Type ℓ} (key : A → ℕ) where
  abbrev pub Distinct : List A → Type ℓ
  Distinct xs = AllPairs (λ x y. key x ≢ key y) xs

  pub Distinct-update :
      (p : A → Bool) (f : A → A)
      → ((x : A) → key (f x) ≡ key x)
      → (xs : List A) → Distinct xs
      → Distinct (update p f xs)
  Distinct-update p f same [] h = tt
  Distinct-update p f same (x ∷ xs) h = (
    All-change (λ y. key x ≢ key y) _ p f (λ y ne. ground (arith, same x, same y)) xs h.0,
    Distinct-update p f same xs h.1,
  )

  pub Distinct-snoc :
      (xs : List A) (y : A)
      → exists (λ x. key x == key y) xs ≡ false
      → Distinct xs
      → Distinct (xs ++ y ∷ [])
  Distinct-snoc [] y e h = (tt, tt)
  Distinct-snoc (x ∷ xs) y e h = (
    All-append (λ z. key x ≢ key z) xs (y ∷ []) h.0 ((λ same. ground arith), tt),
    Distinct-snoc xs y (ground arith) h.1,
  )

  same_as_absent :
      (k : ℕ) (y x : A) (xs : List A)
      → key x ≡ k
      → All (λ z. key x ≢ key z) xs
      → All (λ z. key z ≡ k → z ≡ y) xs
  same_as_absent k y x xs e h =
      All-map (λ z. key x ≢ key z) (λ z. key z ≡ k → z ≡ y) (λ z ne same. absurd (ground arith)) xs
        h

  -- The row that a query by the key finds is the only one with that key.
  pub Distinct-find :
      (k : ℕ) (y : A) (xs : List A)
      → Distinct xs
      → find (λ x. key x == k) xs ≡ some y
      → All (λ z. key z ≡ k → z ≡ y) xs
  Distinct-find k y [] h e = tt
  Distinct-find k y (x ∷ xs) h e = elim (Bool-cases (key x == k)) [
    | inl hit ↦ ((λ _. ground arith), same_as_absent k y x xs (ground arith) h.0)
    | inr miss ↦ ((λ same. absurd (ground arith)), Distinct-find k y xs h.1 (ground arith))
  ]

  absent_only :
      (k : ℕ) (q : A → Bool) (x : A) (xs : List A)
      → key x ≡ k
      → All (λ z. key x ≢ key z) xs
      → All (λ z. key z ≡ k → q z ≡ true) xs
  absent_only k q x xs e h =
      All-map (λ z. key x ≢ key z) (λ z. key z ≡ k → q z ≡ true)
        (λ z ne same. absurd (ground arith)) xs h

  alone :
      (k : ℕ) (q : A → Bool)
      → ((x : A) → q x ≡ true → key x ≡ k)
      → (x : A) (xs : List A) → key x ≡ k
      → All (λ z. key x ≢ key z) xs
      → exists q xs ≡ true
      → ⊥
  alone k q own x xs e h ex =
      exists_All (λ z. key x ≢ key z) ⊥ q (λ z ne hit. ne (e ∙ sym (own z hit))) xs h ex

  -- A row that passes a test is the only one with its key.
  pub Distinct-only :
      (k : ℕ) (q : A → Bool)
      → ((x : A) → q x ≡ true → key x ≡ k)
      → (xs : List A) → Distinct xs
      → exists q xs ≡ true
      → All (λ z. key z ≡ k → q z ≡ true) xs
  Distinct-only k q own [] h e = tt
  Distinct-only k q own (x ∷ xs) h e = elim (Bool-cases (q x)) [
    | inl hit ↦ ((λ _. hit), absent_only k q x xs (own x hit) h.0)
    | inr miss ↦
        let rest : exists q xs ≡ true = ground arith in
        ((λ same. absurd (alone k q own x xs same h.0 rest)), Distinct-only k q own xs h.1 rest)
  ]

  -- Two rows with one key are the same row.
  pub Distinct-same :
      (xs : List A) → Distinct xs → All (λ x. All (λ y. key y ≡ key x → y ≡ x) xs) xs
  Distinct-same [] h = tt
  Distinct-same (x ∷ xs) h = (
    (
      (λ _. refl),
      All-map (λ z. key x ≢ key z) (λ y. key y ≡ key x → y ≡ x) (λ z ne e. absurd (ne (sym e))) xs
          h.0,
    ),
    All-map _ _ (λ z k. ((λ e. absurd (k.0 e)), k.1)) xs
        (All-zip _ _ xs h.0 (Distinct-same xs h.1)),
  )
