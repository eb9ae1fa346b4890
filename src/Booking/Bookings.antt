-- ===== src/Booking/Bookings.antt =====
-- repository.go: the bookings.
use room_booking_platform.Base.{
  ℕ, ◌-◌, ◌*◌, ◌%◌, ◌^◌, Bool, true, false, ◌&&◌, ◌||◌, Option, none, some, List, [], ◌∷◌, ◌++◌,
  Result, ok, err, Exec, done, failed, lost, Commit, acked, rolled_back, unknown, leb, ltb, ◌==◌,
  if◌then◌else◌, length, take, drop, select, find, exists, update,
}
use room_booking_platform.Booking.Tables.{
  Status, active, cancelled, Conference, Booking, JobStatus, Job, Db, Error, booking_not_found,
  commit_unknown, database, has_id, is_for,
}

abbrev pub is_active : Status → Bool
is_active active = true
is_active cancelled = false

pub record CreateFaults : Type 0 where
  pub begin_fails : Bool
  pub insert_fails : Bool
  pub job_fails : Bool
  pub commit : Commit

abbrev pub no_faults : CreateFaults
no_faults = record { begin_fails = false; insert_fails = false; job_fails = false; commit = acked }

-- The primary key, and the unique index on the slots of active bookings.
abbrev pub clashes : Booking → Booking → Bool
clashes b c = c.id == b.id || (is_active b.status && is_active c.status && c.slot == b.slot)

abbrev pub add_booking : Booking → Db → Db
add_booking b db = record db { bookings = db.bookings ++ b ∷ [] }

abbrev pub new_job : ℕ → ℕ → Job
new_job now id = record {
  booking = id;
  status = JobStatus.pending;
  attempts = 0;
  next_retry = none;
  last_error = none;
  locked_at = none;
  created_at = now;
}

abbrev pub add_job : Job → Db → Db
add_job j db = record db { jobs = db.jobs ++ j ∷ [] }

-- The statements of the transaction; `none` where one of them fails.
create_rows : CreateFaults → ℕ → Booking → Db → Option Db
create_rows f now b db =
    if f.insert_fails || exists (clashes b) db.bookings
    then none
    else if b.requested
    then (if f.job_fails || exists (is_for b.id) db.jobs
        then none
        else some (add_job (new_job now b.id) (add_booking b db)))
    else some (add_booking b db)

abbrev commit_create : Commit → Booking → Db → Option Db → Result Error Booking × Db
commit_create c b db none = (err database, db)
commit_create acked b db (some new) = (ok b, new)
commit_create rolled_back b db (some new) = (err database, db)
commit_create (unknown applied) b db (some new) = (err commit_unknown, if applied then new else db)

abbrev pub stamped : ℕ → Booking → Booking
stamped now b = record b { created_at = now; updated_at = now }

-- CreateWithConferenceJob; the booking comes back with the columns that the database filled.
unfoldable pub create_with_conference_job :
    CreateFaults → ℕ → Booking → Db → Result Error Booking × Db
unfolding create_rows
create_with_conference_job f now b db =
    if f.begin_fails
    then (err database, db)
    else commit_create f.commit (stamped now b) db (create_rows f now (stamped now b) db)

abbrev pub found : Option Booking → Result Error Booking
found none = err booking_not_found
found (some b) = ok b

-- GetByID
unfoldable pub get_by_id : Bool → ℕ → Db → Result Error Booking
get_by_id fails id db = if fails then err database else found (find (has_id id) db.bookings)

-- The SET clause of Cancel.
abbrev pub cancel_row : ℕ → Booking → Booking
cancel_row now b = record b {
  status = cancelled;
  cancelled_at = some now;
  conference = if b.requested then Conference.not_requested else b.conference;
  link = none;
  updated_at = now;
}

abbrev pub cancel_rows : ℕ → ℕ → Db → Db
cancel_rows now id db = record db { bookings = update (has_id id) (cancel_row now) db.bookings }

-- Cancel
unfoldable pub cancel : Exec → ℕ → ℕ → Db → Result Error Booking × Db
cancel done now id db =
    let new = cancel_rows now id db in (found (find (has_id id) new.bookings), new)
cancel failed now id db = (err database, db)
cancel lost now id db = (err database, cancel_rows now id db)

-- ORDER BY, on a key
abbrev pub insert_by : (Booking → Booking → Bool) → Booking → List Booking → List Booking
insert_by before b [] = b ∷ []
insert_by before b (c ∷ cs) = if before b c then b ∷ c ∷ cs else c ∷ insert_by before b cs

abbrev pub order_by : (Booking → Booking → Bool) → List Booking → List Booking
order_by before [] = []
order_by before (b ∷ bs) = insert_by before b (order_by before bs)

abbrev pub is_upcoming : ℕ → ℕ → Booking → Bool
is_upcoming now user b = b.user == user && is_active b.status && leb now b.slot_start

-- ListByUser
unfoldable pub list_by_user : Bool → ℕ → ℕ → Db → Result Error (List Booking)
list_by_user fails now user db =
    if fails
    then err database
    else ok (
        order_by (λ b c. leb b.slot_start c.slot_start) (select (is_upcoming now user) db.bookings))

-- The offset of a page, an int of 64 bits; PostgreSQL refuses a negative one.
abbrev pub page_at : ℕ → ℕ → List Booking → Option (List Booking)
page_at offset size bs = if ltb offset (2 ^ 63) then some (take size (drop offset bs)) else none

abbrev pub with_total : Option (List Booking) → ℕ → Result Error (List Booking × ℕ)
with_total none total = err database
with_total (some page) total = ok (page, total)

-- ListAll, on a page number and a page size of at least 1: the page, and the number of bookings.
unfoldable pub list_all : Bool → Bool → ℕ → ℕ → Db → Result Error (List Booking × ℕ)
list_all count_fails query_fails page size db =
    if count_fails
    then err database
    else if query_fails
    then err database
    else with_total
        (page_at ((page - 1) * size % 2 ^ 64) size
          (order_by (λ b c. leb c.created_at b.created_at) db.bookings))
        (length db.bookings)
