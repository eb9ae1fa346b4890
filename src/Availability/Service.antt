-- ===== src/Availability/Service.antt =====
-- services/availability-service/internal/service/service.go
use room_booking_platform.Base.{
  ℕ, ◌+◌, ◌-◌, ◌*◌, ◌%◌, Bool, true, false, ◌&&◌, Option, none, some, List, [], ◌∷◌, Result, ok,
  err, Exec, ltb, leb, ◌==◌, if◌then◌else◌, select,
}
use room_booking_platform.Text.{Chars, ℤ, pos, negsuc, trim_space, split, atoi}
use room_booking_platform.Clock.{midnight, add_days}
use room_booking_platform.Availability.Tables.{Slot, SlotMeta, Schedule, Db, TimeColumn}
use room_booking_platform.Availability.Tables
use room_booking_platform.Availability.Slots.{
  BookFaults, book_slot, release_slot, get_slot_by_id, get_free_slots,
}
use room_booking_platform.Availability.Schedules.{
  create_schedule, get_schedule_by_room_id, get_all_schedules, get_generation_state,
  upsert_generation_state,
}
use room_booking_platform.Availability.Generation.{Env, Progress, generate_slots}

-- `failed` is any other error, among them those of the repository that are passed on.
pub data Error : Type 0 where
  invalid_request schedule_exists room_not_found failed : Error

abbrev pub slot_generation_days : ℕ
slot_generation_days = 30

pub record CreateScheduleRequest : Type 0 where
  pub id : Option ℕ
  pub room : ℕ
  pub days : List ℤ
  pub start_time : Chars
  pub end_time : Chars

-- How the GET of /internal/rooms/{id} ends; `skipped` where no room service is configured.
pub data RoomReply : Type 0 where
  skipped unreachable : RoomReply
  status : ℕ → RoomReply

-- checkRoomExists
unfoldable pub check_room_exists : RoomReply → Result Error (Unit {0})
check_room_exists skipped = ok tt
check_room_exists unreachable = err failed
check_room_exists (status code) =
    if code == 404 then err room_not_found else if code == 200 then ok tt else err failed

-- A number that Atoi read, if it lies between 0 and a bound.
abbrev pub up_to : ℕ → Option ℤ → Option ℕ
up_to bound (some (pos n)) = if leb n bound then some n else none
up_to bound (some (negsuc n)) = none
up_to bound none = none

abbrev pub join_time : Option ℕ → Option ℕ → Option ℕ
join_time (some h) (some m) = some (60 * h + m)
join_time (some h) none = none
join_time none _ = none

abbrev pub time_of_parts : List Chars → Option ℕ
time_of_parts (h ∷ m ∷ []) = join_time (up_to 23 (atoi h)) (up_to 59 (atoi m))
time_of_parts _ = none

-- parseTime, as the minute of the day
unfoldable pub parse_time : Chars → Option ℕ
parse_time s = time_of_parts (split b':' (trim_space s))

abbrev pub cons_day : ℕ → Option (List ℕ) → Option (List ℕ)
cons_day d none = none
cons_day d (some ds) = some (d ∷ ds)

abbrev pub day_value : ℤ → Option ℕ
day_value (pos n) = if leb 1 n && leb n 7 then some n else none
day_value (negsuc n) = none

-- The loop over req.DaysOfWeek.
unfoldable pub check_days : List ℤ → Option (List ℕ)
check_days [] = some []
check_days (d ∷ ds) = elim (day_value d) [ none ↦ none | some n ↦ cons_day n (check_days ds) ]

-- The length in minutes of a time range that is accepted.
abbrev pub check_range : Option ℕ → Option ℕ → Bool
check_range (some a) (some b) = ltb a b && (b - a) % 30 == 0
check_range (some a) none = false
check_range none _ = false

infixl 5 ◌>>=◌
abbrev ◌>>=◌ {ℓ κ} :
    {A : Type ℓ} {B : Type κ} → Result Error A → (A → Result Error B) → Result Error B
ok a >>= f = f a
err e >>= f = err e

abbrev pub or_invalid {ℓ} : {A : Type ℓ} → Option A → Result Error A
or_invalid none = err invalid_request
or_invalid (some a) = ok a

abbrev pub guard : Bool → Result Error (Unit {0})
guard true = ok tt
guard false = err invalid_request

abbrev pub not_empty {ℓ} : {A : Type ℓ} → List A → Bool
not_empty [] = false
not_empty (_ ∷ _) = true

-- The checks of CreateSchedule, in its order, with the days as the repository takes them.
unfoldable pub validate : RoomReply → ℕ → CreateScheduleRequest → Result Error (List ℕ)
unfolding check_room_exists
validate reply path_room req = do
  _ ← guard (req.room == path_room)
  _ ← check_room_exists reply
  _ ← guard (not_empty req.days)
  days ← or_invalid (check_days req.days)
  _ ← guard (check_range (parse_time req.start_time) (parse_time req.end_time))
  ok days

-- What the environment gives to CreateSchedule.
pub record CreateEnv : Type 0 where
  pub room_reply : RoomReply
  pub new_id : ℕ
  pub insert : Exec
  pub now : ℕ
  pub generation : Env
  pub upsert : Exec

abbrev id_or : Option ℕ → ℕ → ℕ
id_or none d = d
id_or (some i) d = i

-- The generation state is only written after a run with no error.
abbrev record_state : Exec → ℕ → ℕ → Progress → Db
record_state f room until p = elim p.failure [
  | some _ ↦ p.db
  | none ↦ (upsert_generation_state f room until p.db).1
]

abbrev generated : CreateEnv → ℕ → Schedule → Db → Db
generated e room s db =
    let until = add_days slot_generation_days (midnight e.now) in
    record_state e.upsert room until (generate_slots e.generation s (midnight e.now) until db)

abbrev schedule_error : Tables.Error → Error
schedule_error Tables.Error.schedule_exists = schedule_exists
schedule_error _ = failed

abbrev after_insert : CreateEnv → ℕ → Result Tables.Error Schedule × Db → Result Error Schedule × Db
after_insert e room (ok s, db) = (ok s, generated e room s db)
after_insert e room (err x, db) = (err (schedule_error x), db)

abbrev insert_checked :
    TimeColumn
    → CreateEnv
    → ℕ
    → CreateScheduleRequest
    → Result Error (List ℕ)
    → Db
    → Result Error Schedule × Db
insert_checked t e room req (err x) db = (err x, db)
insert_checked t e room req (ok days) db =
    after_insert e room
      (create_schedule t e.insert (id_or req.id e.new_id) room days req.start_time req.end_time db)

-- AvailabilityService.CreateSchedule. A failed generation is only logged.
unfoldable pub create :
    TimeColumn → CreateEnv → ℕ → CreateScheduleRequest → Db → Result Error Schedule × Db
create t e room req db = insert_checked t e room req (validate e.room_reply room req) db

-- What the environment gives to GetFreeSlots.
pub record ListEnv : Type 0 where
  pub room_reply : RoomReply
  pub schedule_fails : Bool
  pub query_fails : Bool
  pub now : ℕ

abbrev pub future : ℕ → Result Tables.Error (List Slot) → Result Error (List Slot)
future now (err _) = err failed
future now (ok slots) = ok (select (λ s. ltb now s.start_at) slots)

abbrev pub list_of_schedule :
    ListEnv → ℕ → ℕ → Db → Result Tables.Error Schedule → Result Error (List Slot)
list_of_schedule e room date db (ok _) = future e.now (get_free_slots e.query_fails room date db)
list_of_schedule e room date db (err Tables.Error.schedule_not_found) = ok []
list_of_schedule e room date db (err _) = err failed

-- AvailabilityService.GetFreeSlots, at the date that time.Parse read.
unfoldable pub list_free : TimeColumn → ListEnv → ℕ → Option ℕ → Db → Result Error (List Slot)
unfolding check_room_exists
list_free t e room date db = do
  d ← or_invalid date
  _ ← check_room_exists e.room_reply
  list_of_schedule e room d db (get_schedule_by_room_id t e.schedule_fails room db)

-- AvailabilityService.BookSlot, ReleaseSlot and GetSlot
unfoldable pub book : BookFaults → ℕ → ℕ → ℕ → Db → Result Tables.Error SlotMeta × Db
book f now slot booking db = book_slot f now slot booking db

unfoldable pub release : Exec → ℕ → ℕ → Db → Result Tables.Error (Unit {0}) × Db
release f slot booking db = release_slot f slot booking db

unfoldable pub get_slot : Bool → ℕ → Db → Result Tables.Error Slot
get_slot fails slot db = get_slot_by_id fails slot db

-- What the environment gives to ExtendSlots, room by room.
pub record ExtendEnv : Type 0 where
  pub schedules_fail : Bool
  pub now : ℕ
  pub state_fails : ℕ → Bool
  pub generation : ℕ → Env
  pub upsert : ℕ → Exec

abbrev pub later_of : ℕ → Option ℕ → ℕ
later_of from none = from
later_of from (some t) = if ltb from t then t else from

-- The tables, and the number of errors that ExtendSlots joins.
abbrev pub Extended : Type 0
Extended = ℕ × Db

abbrev pub upserted : Result Tables.Error (Unit {0}) × Db → Extended
upserted (ok _, db) = (0, db)
upserted (err _, db) = (1, db)

abbrev pub extended_on : ExtendEnv → ℕ → ℕ → Db → Option Tables.Error → Extended
extended_on e room target db (some _) = (1, db)
extended_on e room target db none =
    upserted (upsert_generation_state (e.upsert room) room target db)

abbrev pub extended : ExtendEnv → ℕ → ℕ → Progress → Extended
extended e room target p = extended_on e room target p.db p.failure

abbrev pub extend_from : ExtendEnv → Schedule → ℕ → ℕ → Db → Extended
extend_from e s from target db =
    if ltb from target
    then extended e s.room target (generate_slots (e.generation s.room) s from target db)
    else (0, db)

abbrev pub extend_at : ExtendEnv → Schedule → Result Tables.Error (Option ℕ) → Db → Extended
extend_at e s (err _) db = (1, db)
extend_at e s (ok state) db =
    extend_from e s (later_of (midnight e.now) state)
      (add_days slot_generation_days (midnight e.now)) db

-- One round of the loop over the schedules.
unfoldable pub extend_room : ExtendEnv → Schedule → Db → Extended
extend_room e s db = extend_at e s (get_generation_state (e.state_fails s.room) s.room db) db

unfoldable pub extend_rooms : ExtendEnv → List Schedule → Db → Extended
extend_rooms e [] db = (0, db)
extend_rooms e (s ∷ ss) db =
    let (n, db') = extend_room e s db in let (m, db'') = extend_rooms e ss db' in (n + m, db'')

abbrev pub extend_all : ExtendEnv → Result Tables.Error (List Schedule) → Db → Extended
extend_all e (err _) db = (1, db)
extend_all e (ok ss) db = extend_rooms e ss db

-- AvailabilityService.ExtendSlots
unfoldable pub extend_slots : TimeColumn → ExtendEnv → Db → Extended
unfolding extend_rooms
extend_slots t e db = extend_all e (get_all_schedules t e.schedules_fail db) db
