-- ===== src/Availability/Schedules.antt =====
-- repository.go: schedules and the state of the slot generation.
use room_booking_platform.Base.{
  lookup, insert, ℕ, ◌*◌, ◌/◌, Bool, ◌||◌, Option, none, some, List, [], ◌∷◌, ◌++◌, map, Result, ok,
  err, Exec, done, failed, lost, ltb, ◌==◌, if◌then◌else◌, take, find, exists,
}
use room_booking_platform.Text.{Chars}
use room_booking_platform.Clock.{day}
use room_booking_platform.Availability.Tables.{
  ScheduleRow, Schedule, Db, Error, schedule_exists, schedule_not_found, database, TimeColumn,
}

module _ (t : TimeColumn) where
  -- The scan of a row: `::text`, cut to HH:MM.
  unfoldable pub scan_schedule : ScheduleRow → Schedule
  scan_schedule r = record {
    id = r.id;
    room = r.room;
    days = r.days;
    start_time = take 5 (t.time_out r.start_time);
    end_time = take 5 (t.time_out r.end_time);
  }

-- The unique violations, 23505: of the primary key and of room_id.
abbrev pub clashes : ScheduleRow → ScheduleRow → Bool
clashes r s = s.id == r.id || s.room == r.room

abbrev pub add_schedule : ScheduleRow → Db → Db
add_schedule r db = record db { schedules = db.schedules ++ r ∷ [] }

insert_schedule : ScheduleRow → Db → Result Error (Unit {0}) × Db
insert_schedule r db =
    if ltb r.start_time r.end_time
    then (if exists (clashes r) db.schedules
        then (err schedule_exists, db)
        else (ok tt, add_schedule r db))
    else (err database, db)

abbrev make_row : ℕ → ℕ → List ℕ → Option ℕ → Option ℕ → Option ScheduleRow
make_row id room days (some a) (some b) =
    some (record { id = id; room = room; days = days; start_time = a; end_time = b })
make_row id room days _ none = none
make_row id room days none (some _) = none

abbrev returning :
    TimeColumn → ScheduleRow → Result Error (Unit {0}) × Db → Result Error Schedule × Db
returning t r (ok _, db) = (ok (scan_schedule t r), db)
returning t r (err e, db) = (err e, db)

insert_made : TimeColumn → Exec → Option ScheduleRow → Db → Result Error Schedule × Db
unfolding insert_schedule
insert_made t f none db = (err database, db)
insert_made t done (some r) db = returning t r (insert_schedule r db)
insert_made t failed (some r) db = (err database, db)
insert_made t lost (some r) db = (err database, (insert_schedule r db).1)

-- CreateSchedule
unfoldable pub create_schedule :
    TimeColumn → Exec → ℕ → ℕ → List ℕ → Chars → Chars → Db → Result Error Schedule × Db
unfolding insert_made
create_schedule t f id room days start_time end_time db =
    insert_made t f (make_row id room days (t.time_in start_time) (t.time_in end_time)) db

abbrev found_schedule : TimeColumn → Option ScheduleRow → Result Error Schedule
found_schedule t none = err schedule_not_found
found_schedule t (some r) = ok (scan_schedule t r)

abbrev pub of_room : ℕ → ScheduleRow → Bool
of_room room r = r.room == room

-- GetScheduleByRoomID
unfoldable pub get_schedule_by_room_id : TimeColumn → Bool → ℕ → Db → Result Error Schedule
get_schedule_by_room_id t fails room db =
    if fails then err database else found_schedule t (find (of_room room) db.schedules)

-- GetAllSchedules
unfoldable pub get_all_schedules : TimeColumn → Bool → Db → Result Error (List Schedule)
get_all_schedules t fails db =
    if fails then err database else ok (map (scan_schedule t) db.schedules)

abbrev pub midnight_of : Option ℕ → Option ℕ
midnight_of none = none
midnight_of (some d) = some (d * day)

-- GetGenerationState: a DATE is scanned as its midnight.
unfoldable pub get_generation_state : Bool → ℕ → Db → Result Error (Option ℕ)
get_generation_state fails room db =
    if fails then err database else ok (midnight_of (lookup room db.generated))

abbrev pub set_generated : ℕ → ℕ → Db → Db
set_generated room until db = record db { generated = insert room (until / day) db.generated }

-- UpsertGenerationState
unfoldable pub upsert_generation_state : Exec → ℕ → ℕ → Db → Result Error (Unit {0}) × Db
upsert_generation_state done room until db = (ok tt, set_generated room until db)
upsert_generation_state failed room until db = (err database, db)
upsert_generation_state lost room until db = (err database, set_generated room until db)
