-- ===== src/Availability/Scheduled.antt =====
-- What GenerateSlots adds: only half hours of the schedule, behind the slots that were there.
use room_booking_platform.Base.{
  ℕ, zero, suc, ◌+◌, ◌*◌, ◌%◌, ◌≤◌, ◌<◌, ◌≡◌, refl, sym, ◌∙◌, ap, inl, inr, Bool, true, false, ◌&&◌,
  ◌||◌, not, none, some, List, [], ◌∷◌, ◌++◌, arith, Exec, ◌==◌, if◌then◌else◌, All, All-append,
  exists, Bool-cases, Option-cases,
}
use mathlib.Core.List.{append-nil, append_assoc}
use mathlib.Core.Path.{subst}
use room_booking_platform.Clock.{minute, half_hour, day, midnight, add_days, weekday, parse_clock}
use room_booking_platform.Availability.Tables.{Slot, free, Schedule, Db, has_id, at_start}
use room_booking_platform.Availability.Generation.{
  Env, Progress, insert_row, new_slot, put_slot, on_day, generate_slots, start_progress, refers,
  overlaps,
}
use room_booking_platform.Availability.Coverage.{
  half_hours, wanted, put_all, put_all-cons, generate_slots-eq-put_all,
}
use room_booking_platform.Availability.Dates.{iso_weekday, is_open_on}

-- The days of a schedule that was accepted: 1 to 7.
abbrev pub AreDays : List ℕ → Type 0
AreDays days = All (λ d. (1 ≤ d) × (d ≤ 7)) days

is_iso_day :
    (date : ℕ) (days : List ℕ)
    → AreDays days
    → exists (λ d. d % 7 == weekday date) days ≡ true
    → exists (λ d. d == iso_weekday date) days ≡ true
is_iso_day date [] v h = cc
is_iso_day date (d ∷ days) v h = elim (Bool-cases (d % 7 == weekday date)) [
  | inl y ↦ ground (arith, v.0)
  | inr n ↦ ground (arith, is_iso_day date days v.1)
]

half_hours_All :
    (P : ℕ → Type 0) (k start : ℕ)
    → ((j : ℕ) → j < k → P (start + j * half_hour))
    → All P (half_hours k start)
half_hours_All P zero start h = tt
half_hours_All P (suc k) start h = (
  subst P (omega arith) (h 0 (omega arith)),
  half_hours_All P k (start + half_hour) (λ j lt. subst P (omega arith) (h (suc j) (omega arith))),
)

module _ (env : Env) (schedule : Schedule) where
  -- A free slot of half an hour of the room, which begins at one of the `k` half hours after the
  -- opening time `a`, on one of `n` dates from `from` on whose ISO weekday is a day of the schedule.
  pub record IsScheduled (k a n from : ℕ) (s : Slot) : Type 0 where
    pub date : ℕ
    pub number : ℕ
    pub in_range : date < n
    pub is_open : is_open_on schedule (from + date * day) ≡ true
    pub in_hours : number < k
    pub begins : s.start_at ≡ midnight (from + date * day) + a * minute + number * half_hour
    pub lasts : s.end_at ≡ s.start_at + half_hour
    pub room : s.room ≡ schedule.room
    pub status : s.status ≡ free
    pub booking : s.booking ≡ none

  wanted_All :
      (P : ℕ → Type 0) (k a n from : ℕ)
      → AreDays schedule.days
      → ((i j : ℕ)
          → i < n
          → is_open_on schedule (from + i * day) ≡ true
          → j < k
          → P (midnight (from + i * day) + a * minute + j * half_hour))
      → All P (wanted env schedule k a n from)
  wanted_All P k a zero from v h = tt
  wanted_All P k a (suc n) from v h =
      let here : from + 0 * day ≡ from = omega arith in
      let later : (i : ℕ) → add_days 1 from + i * day ≡ from + suc i * day = λ i. omega arith in
      let slots = half_hours k (midnight from + a * minute) in
      let today : All P (if on_day env schedule from then slots else []) =
        elim (Bool-cases (on_day env schedule from)) [
          | inl y ↦ rw y (
              half_hours_All P k (midnight from + a * minute) (λ j lt.
                subst (λ x. P (midnight x + a * minute + j * half_hour)) here
                  (h 0 j (omega arith)
                    (subst (λ x. is_open_on schedule x ≡ true) (sym here)
                      (is_iso_day from schedule.days v y))
                    lt)))
          | inr n ↦ rw n tt
        ] in
      All-append P _ _ today (
        wanted_All P k a n (add_days 1 from) v (λ i j lt open_ lj.
          subst (λ x. P (midnight x + a * minute + j * half_hour)) (sym (later i))
            (h (suc i) j (omega arith) (subst (λ x. is_open_on schedule x ≡ true) (later i) open_)
              lj)))

  abbrev adds : ℕ → Progress → Bool
  adds t p =
      elim (env.insert t) [ Exec.done ↦ true | Exec.failed ↦ false | Exec.lost ↦ true ]
      && not (exists (at_start schedule.room t) p.db.slots)
      && not (
          exists (has_id (env.new_id t)) p.db.slots
          || exists (overlaps (new_slot env schedule t)) p.db.slots)
      && exists (refers (new_slot env schedule t)) p.db.schedules

  slots-put_slot :
      (t : ℕ) (p : Progress)
      → (put_slot env schedule t p).db.slots
        ≡ p.db.slots ++ (if adds t p then new_slot env schedule t ∷ [] else [])
  unfolding put_slot insert_row
  slots-put_slot t p = ground (arith, append-nil p.db.slots)

  -- The slots after a run are the old ones, unchanged, and new ones behind them.
  abbrev Extends : (Slot → Type 0) → List Slot → List Slot → Type 0
  Extends P old slots = (new : List Slot) × (slots ≡ old ++ new) × All P new

  put_slot-Extends :
      (P : Slot → Type 0) (t : ℕ) (p : Progress)
      → P (new_slot env schedule t)
      → Extends P p.db.slots (put_slot env schedule t p).db.slots
  put_slot-Extends P t p h = elim (Bool-cases (adds t p)) [
    | inl y ↦ (new_slot env schedule t ∷ [], slots-put_slot t p ∙ rw y refl, (h, tt))
    | inr n ↦ ([], slots-put_slot t p ∙ rw n refl, tt)
  ]

  put_all-Extends :
      (P : Slot → Type 0) (ts : List ℕ) (p : Progress)
      → All (λ t. P (new_slot env schedule t)) ts
      → Extends P p.db.slots (put_all env schedule ts p).db.slots
  unfolding put_all
  put_all-Extends P [] p h = ([], sym (append-nil p.db.slots), tt)
  put_all-Extends P (t ∷ ts) p h =
      let q = put_slot env schedule t p in
      let (new, grown, each) = put_slot-Extends P t p h.0 in
      elim (Option-cases q.failure) [
        | inl n ↦
            let (rest, more, all) = put_all-Extends P ts q h.1 in
            (
              new ++ rest,
              ap (λ r. r.db.slots) (put_all-cons env schedule t ts p n)
                  ∙ more
                  ∙ ap (λ x. x ++ rest) grown
                  ∙ append_assoc p.db.slots new rest,
              All-append P new rest each all,
            )
        | inr (x, n) ↦ (new, rw n grown, each)
      ]

  -- On a schedule with days from 1 to 7, whose times parse and lie `k` half hours apart, at most
  -- 48: however a run over `n` dates ends, the slots are those that were there, unchanged and in
  -- their order, followed by free slots of half an hour that each begin at one of the `k` half hours
  -- after the opening time, on one of these dates whose ISO weekday is a day of the schedule.
  pub generate_slots-IsScheduled :
      (n k a b from until : ℕ) (db : Db)
      → AreDays schedule.days
      → parse_clock schedule.start_time ≡ some a
      → parse_clock schedule.end_time ≡ some b
      → k ≤ 48
      → b ≡ a + 30 * k
      → until ≤ from + n * day
      → from + n * day < until + day
      → (new : List Slot) × ((generate_slots env schedule from until db).db.slots ≡ db.slots ++ new)
        × All (IsScheduled k a n from) new
  generate_slots-IsScheduled n k a b from until db v ea eb kh e lo hi =
      rw (generate_slots-eq-put_all env schedule n k a b from until db ea eb kh e lo hi) (
        put_all-Extends (IsScheduled k a n from) (wanted env schedule k a n from)
          (start_progress db)
          (wanted_All (λ t. IsScheduled k a n from (new_slot env schedule t)) k a n from v
            (λ i j li open_ lj. record {
              date = i;
              number = j;
              in_range = li;
              is_open = open_;
              in_hours = lj;
              begins = refl;
              lasts = refl;
              room = refl;
              status = refl;
              booking = refl;
            })))
