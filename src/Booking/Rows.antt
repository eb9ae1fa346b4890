-- ===== src/Booking/Rows.antt =====
-- What of a booking matters to its slot, and which statements of booking_db change it.
use room_booking_platform.Base.{
  ℕ, ◌≡◌, refl, ap, ◌∙◌, ◌≢◌, ◌⊎◌, inl, inr, Bool, false, String, Option, none, some, List, Result,
  ok, err, Exec, ◌==◌, find, find-update, change, update, arith, Option-cases, Bool-cases, zero,
  suc, ◌+◌,
}
use room_booking_platform.Booking.Tables.{Booking, Conference, Db, has_id}
use room_booking_platform.Booking.Tables
use room_booking_platform.Booking.Bookings.{is_active, cancel, cancel_row}
use room_booking_platform.Booking.Creation.{Stored}
use room_booking_platform.Booking.Jobs.{
  active_with, ConferenceJob, ClaimEnv, FinishFaults, claim_conference_jobs, finish_conference_job,
  complete_conference_job, fail_conference_job, reschedule_conference_job, discard_conference_job,
}
use room_booking_platform.Booking.Worker.{JobEnv, settle_link}

pub record Row : Type 0 where
  pub slot : ℕ
  pub user : ℕ
  pub active : Bool

abbrev pub as_row : Booking → Row
as_row b = record { slot = b.slot; user = b.user; active = is_active b.status }

abbrev pub row_of : Option Booking → Option Row
row_of none = none
row_of (some b) = some (as_row b)

abbrev pub row : ℕ → Db → Option Row
row id db = row_of (find (has_id id) db.bookings)

abbrev pub SameRows : Db → Db → Type 0
SameRows db db' = (j : ℕ) → row j db' ≡ row j db

row_of-change :
    (p : Booking → Bool) (f : Booking → Booking)
    → ((b : Booking) → as_row (f b) ≡ as_row b)
    → (o : Option Booking) → row_of (change p f o) ≡ row_of o
row_of-change p f same none = refl
row_of-change p f same (some b) = ground (arith, same b)

update-SameRows :
    (p : Booking → Bool) (f : Booking → Booking)
    → ((b : Booking) → as_row (f b) ≡ as_row b)
    → ((b : Booking) → (f b).id ≡ b.id)
    → (bs : List Booking) (j : ℕ)
    → row_of (find (has_id j) (update p f bs)) ≡ row_of (find (has_id j) bs)
update-SameRows p f same same_id bs j =
    ap row_of (find-update (has_id j) p f (λ b. ap (λ i. i == j) (same_id b)) bs)
    ∙ row_of-change p f same (find (has_id j) bs)

pub claim_conference_jobs-SameRows :
    (c : ClaimEnv) (limit lease : ℕ) (db : Db)
    → SameRows db (claim_conference_jobs c limit lease db).1
unfolding claim_conference_jobs
claim_conference_jobs-SameRows c zero lease db j = refl
claim_conference_jobs-SameRows c (suc limit) lease db j = ground arith

finish-SameRows :
    (f : FinishFaults) (id : ℕ) (which : Booking → Bool) (g : Booking → Booking)
    (st : Tables.JobStatus) (n : ℕ) (x : Option String) (db : Db)
    → ((b : Booking) → as_row (g b) ≡ as_row b)
    → ((b : Booking) → (g b).id ≡ b.id)
    → SameRows db (finish_conference_job f id which g st n x db).1
unfolding finish_conference_job
finish-SameRows f id which g st n x db same same_id j =
    ground (arith, update-SameRows which g same same_id db.bookings j)

pub discard_conference_job-SameRows :
    (f : FinishFaults) (now id n : ℕ) (db : Db)
    → SameRows db (discard_conference_job f now id n db).1
unfolding discard_conference_job
discard_conference_job-SameRows f now id n db =
    finish-SameRows f id _ _ _ n _ db (λ b. refl) (λ b. refl)

pub settle_link-SameRows :
    (e : JobEnv) (job : ConferenceJob) (r : Result String String) (db : Db)
    → SameRows db (settle_link e job r db).1
unfolding complete_conference_job fail_conference_job reschedule_conference_job
settle_link-SameRows e job (ok l) db j =
    finish-SameRows e.finish job.booking _ _ _ _ _ db (λ b. refl) (λ b. refl) j
settle_link-SameRows e job (err x) db j = ground (
  arith,
  finish-SameRows e.finish job.booking (active_with job.booking)
      (λ b. record b { conference = Conference.failed; updated_at = e.now }) Tables.JobStatus.failed
      (job.attempts + 1) (some x) db (λ b. refl) (λ b. refl) j,
)

-- A row of which at most the activity has ended.
abbrev pub Closes : Option Row → Option Row → Type 0
Closes o o' = (o' ≡ o) ⊎ ((r : Row) × (o ≡ some r) × (o' ≡ some (record r { active = false })))

closed_row :
    (now id : ℕ) (o : Option Booking)
    → Closes (row_of o) (row_of (change (has_id id) (cancel_row now) o))
closed_row now id none = inl refl
closed_row now id (some b) = elim (Bool-cases (b.id == id)) [
  | inl y ↦ inr (as_row b, refl, rw y refl)
  | inr n ↦ inl (rw n refl)
]

pub cancel-Closes :
    (f : Exec) (now id j : ℕ) (db : Db) → Closes (row j db) (row j (cancel f now id db).1)
unfolding cancel
cancel-Closes Exec.done now id j db =
    rw (find-update (has_id j) (has_id id) (cancel_row now) (λ b. refl) db.bookings)
      (closed_row now id (find (has_id j) db.bookings))
cancel-Closes Exec.failed now id j db = inl refl
cancel-Closes Exec.lost now id j db =
    rw (find-update (has_id j) (has_id id) (cancel_row now) (λ b. refl) db.bookings)
      (closed_row now id (find (has_id j) db.bookings))

-- A booking that is stored beside the rows that were there.
pub record Saved (id : ℕ) (r : Row) (db db' : Db) : Type 0 where
  pub here : row id db' ≡ some r
  pub others : (j : ℕ) → j ≢ id → row j db' ≡ row j db

pub Stored-Saved : (b : Booking) (db db' : Db) → Stored b db db' → Saved b.id (as_row b) db db'
Stored-Saved b db db' st = record {
  here = ap row_of st.here;
  others = λ j ne. ap row_of (st.others j ne);
}

pub row-none : (id : ℕ) (db : Db) → row id db ≡ none → find (has_id id) db.bookings ≡ none
row-none id db h = elim (Option-cases (find (has_id id) db.bookings)) [
  | inl e ↦ e
  | inr (b, e) ↦ cc
]
