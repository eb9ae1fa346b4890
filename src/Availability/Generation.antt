-- ===== src/Availability/Generation.antt =====
-- repository.go: GenerateSlots.
use room_booking_platform.Base.{
  ℕ, zero, suc, ◌+◌, ◌-◌, ◌*◌, ◌/◌, ◌%◌, Bool, true, false, ◌&&◌, ◌||◌, Option, none, some, [], ◌∷◌,
  ◌++◌, Result, ok, err, Exec, done, failed, lost, ltb, ◌==◌, if◌then◌else◌, exists,
}
use room_booking_platform.Clock.{minute, half_hour, day, midnight, add_days, weekday, parse_clock}
use room_booking_platform.Availability.Tables.{
  free, Slot, ScheduleRow, Schedule, Db, Error, bad_time, database, has_id, at_start,
}

-- What the environment gives to a run: the UUID made for the slot that begins at an instant, and
-- how the INSERT of that slot ends.
pub record Env : Type 0 where
  pub new_id : ℕ → ℕ
  pub insert : ℕ → Exec

-- The exclusion constraint: two half-open ranges of one room that overlap.
abbrev pub overlaps : Slot → Slot → Bool
overlaps a b = b.room == a.room && ltb a.start_at b.end_at && ltb b.start_at a.end_at

abbrev pub refers : Slot → ScheduleRow → Bool
refers s r = r.id == s.schedule

abbrev pub add_slot : Slot → Db → Db
add_slot s db = record db { slots = db.slots ++ s ∷ [] }

-- INSERT INTO slots … ON CONFLICT (room_id, start_at) DO NOTHING, with the number of rows.
unfoldable pub insert_row : Slot → Db → Result Error ℕ × Db
insert_row s db =
    if exists (at_start s.room s.start_at) db.slots
    then (ok 0, db)
    else if exists (has_id s.id) db.slots || exists (overlaps s) db.slots
    then (err database, db)
    else if exists (refers s) db.schedules
    then (ok 1, add_slot s db)
    else (err database, db)

insert_slot : Exec → Slot → Db → Result Error ℕ × Db
insert_slot done s db = insert_row s db
insert_slot failed s db = (err database, db)
insert_slot lost s db = (err database, (insert_row s db).1)

-- The count so far, the error that ended the run, and the tables.
pub record Progress : Type 0 where
  pub count : ℕ
  pub failure : Option Error
  pub db : Db

abbrev add_rows : ℕ → Result Error ℕ × Db → Progress
add_rows n (ok k, db) = record { count = n + k; failure = none; db = db }
add_rows n (err e, db) = record { count = n; failure = some e; db = db }

-- A round that fails ends the run with what it has done.
abbrev pub or_stop : Progress → (Progress → Progress) → Progress
or_stop p next = elim p.failure [ some _ ↦ p | none ↦ next p ]

module _ (env : Env) (schedule : Schedule) where
  abbrev pub new_slot : ℕ → Slot
  new_slot start = record {
    id = env.new_id start;
    room = schedule.room;
    schedule = schedule.id;
    start_at = start;
    end_at = start + half_hour;
    status = free;
    booking = none;
  }

  -- One round of the inner loop.
  unfoldable pub put_slot : ℕ → Progress → Progress
  unfolding insert_slot
  put_slot start p = add_rows p.count (insert_slot (env.insert start) (new_slot start) p.db)

  -- The inner loop, `for slotStart.Before(dayEnd)`.
  unfoldable pub fill_day : ℕ → ℕ → ℕ → Progress → Progress
  fill_day zero start day_end p = p
  fill_day (suc fuel) start day_end p = elim (ltb start day_end) [
    | false ↦ p
    | true ↦ or_stop (put_slot start p) (fill_day fuel (start + half_hour) day_end)
  ]

  -- daysSet, where 7 stands for Sunday
  abbrev pub on_day : ℕ → Bool
  on_day date = exists (λ d. d % 7 == weekday date) schedule.days

  -- Each date has at most 48 half hours.
  unfoldable pub visit_day : ℕ → ℕ → ℕ → Progress → Progress
  visit_day open_at close_at date p =
      if on_day date
      then fill_day 48 (midnight date + open_at * minute) (midnight date + close_at * minute) p
      else p

  -- The outer loop, `for date := from; date.Before(until)`.
  unfoldable pub fill_days : ℕ → ℕ → ℕ → ℕ → ℕ → Progress → Progress
  fill_days zero open_at close_at date until p = p
  fill_days (suc fuel) open_at close_at date until p = elim (ltb date until) [
    | false ↦ p
    | true ↦
        or_stop (visit_day open_at close_at date p)
          (fill_days fuel open_at close_at (add_days 1 date) until)
  ]

abbrev pub start_progress : Db → Progress
start_progress db = record { count = 0; failure = none; db = db }

abbrev stopped : Error → Db → Progress
stopped e db = record { count = 0; failure = some e; db = db }

-- Enough rounds of the outer loop.
abbrev pub rounds : ℕ → ℕ → ℕ
rounds from until = (until - from) / day + 1

parsed_slots : Env → Schedule → ℕ → ℕ → Option ℕ → Option ℕ → Db → Progress
parsed_slots env s from until none _ db = stopped bad_time db
parsed_slots env s from until (some a) none db = stopped bad_time db
parsed_slots env s from until (some a) (some b) db =
    fill_days env s (rounds from until) a b from until (start_progress db)

-- GenerateSlots
unfoldable pub generate_slots : Env → Schedule → ℕ → ℕ → Db → Progress
unfolding parsed_slots
generate_slots env s from until db =
    parsed_slots env s from until (parse_clock s.start_time) (parse_clock s.end_time) db
