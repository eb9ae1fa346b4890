-- ===== src/Availability/Dates.antt =====
-- GenerateSlots against the calendar: which dates of a range get slots.
use room_booking_platform.Base.{
  ℕ, zero, suc, ◌+◌, ◌*◌, ◌/◌, ◌%◌, ◌≤◌, ◌<◌, ◌≡◌, inl, inr, Bool, true, none, some, List, [], ◌∷◌,
  ◌++◌, arith, ◌==◌, if◌then◌else◌, All, exists, Bool-cases,
}
use mathlib.Core.Path.{subst}
use room_booking_platform.Clock.{minute, half_hour, day, midnight, add_days, weekday, parse_clock}
use room_booking_platform.Availability.Tables.{Schedule, Db}
use room_booking_platform.Availability.Generation.{Env, on_day, generate_slots}
use room_booking_platform.Availability.Coverage.{half_hours, wanted}
use room_booking_platform.Availability.Insertion.{has_start, generate_slots-wanted}

-- The number of a weekday by ISO 8601, from 1 for Monday to 7 for Sunday: the first day of 1970 was
-- a Thursday, 4.
abbrev pub iso_weekday : ℕ → ℕ
iso_weekday date = (date / day + 3) % 7 + 1

-- A schedule is kept on this date.
abbrev pub is_open_on : Schedule → ℕ → Bool
is_open_on schedule date = exists (λ d. d == iso_weekday date) schedule.days

All-left : (P : ℕ → Type 0) (xs ys : List ℕ) → All P (xs ++ ys) → All P xs
All-left P [] ys h = tt
All-left P (x ∷ xs) ys h = (h.0, All-left P xs ys h.1)

All-right : (P : ℕ → Type 0) (xs ys : List ℕ) → All P (xs ++ ys) → All P ys
All-right P [] ys h = h
All-right P (x ∷ xs) ys h = All-right P xs ys h.1

half_hours_at :
    (P : ℕ → Type 0) (k start j : ℕ)
    → j < k
    → All P (half_hours k start)
    → P (start + j * half_hour)
half_hours_at P zero start j lt h = absurd (omega arith)
half_hours_at P (suc k) start zero lt h = subst P (omega arith) h.0
half_hours_at P (suc k) start (suc j) lt h =
    subst P (omega arith) (half_hours_at P k (start + half_hour) j (omega arith) h.1)

-- daysSet has a date if the schedule has its ISO number.
is_on_day :
    (date : ℕ) (days : List ℕ)
    → exists (λ d. d == iso_weekday date) days ≡ true
    → exists (λ d. d % 7 == weekday date) days ≡ true
is_on_day date [] h = cc
is_on_day date (d ∷ days) h = elim (Bool-cases (d == iso_weekday date)) [
  | inl y ↦ ground arith
  | inr n ↦ ground (arith, is_on_day date days)
]

module _ (env : Env) (schedule : Schedule) where
  wanted_at :
      (P : ℕ → Type 0) (k a n date i j : ℕ)
      → i < n
      → is_open_on schedule (date + i * day) ≡ true
      → j < k
      → All P (wanted env schedule k a n date)
      → P (midnight (date + i * day) + a * minute + j * half_hour)
  wanted_at P k a zero date i j li open_ lj h = absurd (omega arith)
  wanted_at P k a (suc n) date zero j li open_ lj h =
      let here : date + 0 * day ≡ date = omega arith in
      let on =
        is_on_day date schedule.days (subst (λ x. is_open_on schedule x ≡ true) here open_) in
      let slots = half_hours k (midnight date + a * minute) in
      let first : All P (if on_day env schedule date then slots else []) = All-left P _ _ h in
      rw here (half_hours_at P k (midnight date + a * minute) j lj (rw on at first))
  wanted_at P k a (suc n) date (suc i) j li open_ lj h =
      let later : date + suc i * day ≡ add_days 1 date + i * day = omega arith in
      rw later (
        wanted_at P k a n (add_days 1 date) i j (omega arith)
          (subst (λ x. is_open_on schedule x ≡ true) later open_) lj (All-right P _ _ h))

  -- On a schedule whose times parse and lie `k` half hours apart, at most 48, after a run over `n`
  -- dates that ends without an error: on every one of these dates whose ISO weekday is one of the
  -- days of the schedule, the room has a slot from each of the `k` half hours after the opening
  -- time.
  pub generate_slots_covers :
      (n k a b from until : ℕ) (db : Db)
      → parse_clock schedule.start_time ≡ some a
      → parse_clock schedule.end_time ≡ some b
      → k ≤ 48
      → b ≡ a + 30 * k
      → until ≤ from + n * day
      → from + n * day < until + day
      → (generate_slots env schedule from until db).failure ≡ none
      → (i j : ℕ) → i < n
      → is_open_on schedule (from + i * day) ≡ true
      → j < k
      → has_start env schedule
          (midnight (from + i * day) + a * minute + j * half_hour)
          (generate_slots env schedule from until db).db
        ≡ true
  generate_slots_covers n k a b from until db ea eb kh e lo hi h i j li open_ lj =
      wanted_at
        (λ t. has_start env schedule t (generate_slots env schedule from until db).db ≡ true) k a n
        from i j li open_ lj
        (generate_slots-wanted env schedule n k a b from until db ea eb kh e lo hi h)
