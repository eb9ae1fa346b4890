-- ===== src/Booking/Jobs.antt =====
-- repository.go: the conference jobs.
use room_booking_platform.Base.{
  ℕ, zero, suc, ◌+◌, String, Bool, true, false, ◌&&◌, ◌||◌, not, Option, none, some, List, [], ◌∷◌,
  Result, ok, err, Exec, Commit, acked, rolled_back, unknown, leb, ◌==◌, if◌then◌else◌, take,
  select, exists, update, count_if,
}
use room_booking_platform.Booking.Tables.{
  Conference, Booking, JobStatus, pending, processing, done, failed, Job, Db, Error, database,
  has_id, is_for,
}
use room_booking_platform.Booking.Bookings.{is_active}

-- A claimed job, as the repository returns it.
pub record ConferenceJob : Type 0 where
  pub booking : ℕ
  pub attempts : ℕ

abbrev pub is_processing : JobStatus → Bool
is_processing processing = true
is_processing _ = false

abbrev pub is_due : Option ℕ → ℕ → Bool
is_due none now = true
is_due (some t) now = leb t now

-- The WHERE clause of the claim: a pending job whose retry is due, or one in processing whose lease
-- has run out.
abbrev pub claimable_as : ℕ → ℕ → JobStatus → Job → Bool
claimable_as lease now pending j = is_due j.next_retry now
claimable_as lease now processing j = elim j.locked_at [
  | none ↦ true
  | some t ↦ leb (t + lease) now
]
claimable_as lease now done j = false
claimable_as lease now failed j = false

abbrev pub claimable : ℕ → ℕ → Job → Bool
claimable lease now j = claimable_as lease now j.status j

-- ORDER BY created_at
abbrev pub insert_by_creation : Job → List Job → List Job
insert_by_creation j [] = j ∷ []
insert_by_creation j (k ∷ ks) =
    if leb j.created_at k.created_at then j ∷ k ∷ ks else k ∷ insert_by_creation j ks

abbrev pub order_by_creation : List Job → List Job
order_by_creation [] = []
order_by_creation (j ∷ js) = insert_by_creation j (order_by_creation js)

-- The CTE; `locked` tells the rows that another transaction has locked, which are skipped.
unfoldable pub candidates : ℕ → ℕ → ℕ → (ℕ → Bool) → Db → List Job
candidates limit lease now locked db =
    take limit
      (order_by_creation (select (λ j. claimable lease now j && not (locked j.booking)) db.jobs))

abbrev pub chosen : List Job → Job → Bool
chosen cs j = exists (is_for j.booking) cs

abbrev pub lock_row : ℕ → Job → Job
lock_row now j = record j { status = processing; locked_at = some now }

abbrev pub lock_rows : ℕ → List Job → Db → Db
lock_rows now cs db = record db { jobs = update (chosen cs) (lock_row now) db.jobs }

abbrev pub returned : List Job → List ConferenceJob
returned [] = []
returned (j ∷ js) = record { booking = j.booking; attempts = j.attempts } ∷ returned js

abbrev commit_claim : Commit → List ConferenceJob → Db → Db → Result Error (List ConferenceJob) × Db
commit_claim acked js old new = (ok js, new)
commit_claim rolled_back js old new = (err database, old)
commit_claim (unknown applied) js old new = (err database, if applied then new else old)

pub record ClaimEnv : Type 0 where
  pub begin_fails : Bool
  pub query_fails : Bool
  pub commit : Commit
  pub now : ℕ
  pub locked : ℕ → Bool

-- ClaimConferenceJobs
unfoldable pub claim_conference_jobs :
    ClaimEnv → ℕ → ℕ → Db → Result Error (List ConferenceJob) × Db
claim_conference_jobs e zero lease db = (ok [], db)
claim_conference_jobs e (suc limit) lease db =
    let cs = candidates (suc limit) lease e.now e.locked db in
    if e.begin_fails || e.query_fails
    then (err database, db)
    else commit_claim e.commit (returned (select (chosen cs) db.jobs)) db (lock_rows e.now cs db)

-- WHERE booking_id = $1 AND status = 'processing'
abbrev pub in_processing : ℕ → Job → Bool
in_processing id j = j.booking == id && is_processing j.status

abbrev pub reschedule_row : ℕ → ℕ → String → Job → Job
reschedule_row attempts next_retry last_error j = record j {
  status = pending;
  attempts = attempts;
  next_retry = some next_retry;
  last_error = some last_error;
  locked_at = none;
}

abbrev pub set_jobs : ℕ → (Job → Job) → Db → Db
set_jobs id f db = record db { jobs = update (in_processing id) f db.jobs }

-- expectOne, on the number of rows
abbrev pub expect_one : ℕ → Result Error (Unit {0})
expect_one n = if n == 1 then ok tt else err database

-- RescheduleConferenceJob
unfoldable pub reschedule_conference_job :
    Exec → ℕ → ℕ → ℕ → String → Db → Result Error (Unit {0}) × Db
reschedule_conference_job Exec.done id attempts next_retry last_error db = (
  expect_one (count_if (in_processing id) db.jobs),
  set_jobs id (reschedule_row attempts next_retry last_error) db,
)
reschedule_conference_job Exec.failed id attempts next_retry last_error db = (err database, db)
reschedule_conference_job Exec.lost id attempts next_retry last_error db =
    (err database, set_jobs id (reschedule_row attempts next_retry last_error) db)

pub record FinishFaults : Type 0 where
  pub begin_fails : Bool
  pub booking_fails : Bool
  pub job_fails : Bool
  pub commit : Commit

abbrev pub finish_row : JobStatus → ℕ → Option String → Job → Job
finish_row status attempts last_error j = record j {
  status = status;
  attempts = attempts;
  next_retry = none;
  last_error = last_error;
  locked_at = none;
}

abbrev commit_finish : Commit → Db → Db → Result Error (Unit {0}) × Db
commit_finish acked old new = (ok tt, new)
commit_finish rolled_back old new = (err database, old)
commit_finish (unknown applied) old new = (err database, if applied then new else old)

-- finishConferenceJob: `which` and `change` are the UPDATE of the booking.
unfoldable pub finish_conference_job :
    FinishFaults
    → ℕ
    → (Booking → Bool)
    → (Booking → Booking)
    → JobStatus
    → ℕ
    → Option String
    → Db
    → Result Error (Unit {0}) × Db
finish_conference_job f id which change status attempts last_error db =
    let linked = record db { bookings = update which change db.bookings } in
    if f.begin_fails || f.booking_fails || f.job_fails
    then (err database, db)
    else if count_if (in_processing id) db.jobs == 1
    then commit_finish f.commit db (set_jobs id (finish_row status attempts last_error) linked)
    else (err database, db)

abbrev pub active_with : ℕ → Booking → Bool
active_with id b = b.id == id && is_active b.status

-- CompleteConferenceJob
unfoldable pub complete_conference_job :
    FinishFaults → ℕ → ℕ → String → ℕ → Db → Result Error (Unit {0}) × Db
unfolding finish_conference_job
complete_conference_job f now id link attempts db =
    finish_conference_job f id (active_with id)
      (λ b. record b { link = some link; conference = Conference.ready; updated_at = now }) done
      attempts none db

-- FailConferenceJob
unfoldable pub fail_conference_job :
    FinishFaults → ℕ → ℕ → ℕ → String → Db → Result Error (Unit {0}) × Db
unfolding finish_conference_job
fail_conference_job f now id attempts last_error db =
    finish_conference_job f id (active_with id)
      (λ b. record b { conference = Conference.failed; updated_at = now }) failed attempts
      (some last_error) db

-- DiscardConferenceJob
unfoldable pub discard_conference_job : FinishFaults → ℕ → ℕ → ℕ → Db → Result Error (Unit {0}) × Db
unfolding finish_conference_job
discard_conference_job f now id attempts db =
    finish_conference_job f id (has_id id)
      (λ b. record b { conference = Conference.not_requested; updated_at = now }) done attempts none
      db
