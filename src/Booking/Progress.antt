-- ===== src/Booking/Progress.antt =====
-- processJob where the database works: the job ends, or its next attempt is the following one.
use room_booking_platform.Base.{
  ℕ, ◌+◌, ◌*◌, ◌^◌, ◌<◌, ◌≡◌, refl, ap, ◌∙◌, ◌≢◌, ◌⊎◌, inl, inr, String, Bool, true, false, Option,
  none, some, List, [], ◌∷◌, Result, ok, err, Exec, acked, if◌then◌else◌, ◌==◌, leb, find,
  find-update, find_passes, exists, update, change, count_if, arith, All, find_All, Distinct,
  Bool-cases,
}
use room_booking_platform.Booking.Tables.{Booking, Conference, Job, JobStatus, Db, has_id, is_for}
use room_booking_platform.Booking.Tables
use room_booking_platform.Booking.Bookings.{get_by_id, is_active, found}
use room_booking_platform.Booking.Jobs.{
  ConferenceJob, FinishFaults, active_with, in_processing, finish_row, reschedule_row,
  finish_conference_job, reschedule_conference_job, complete_conference_job, fail_conference_job,
  discard_conference_job,
}
use room_booking_platform.Booking.Worker.{
  JobEnv, backoff, max_attempts, request_conference_link, settle_link, process_found, process_job,
}
use room_booking_platform.Booking.Consistency.{IsConsistent}

abbrev pub no_faults : FinishFaults
no_faults = record { begin_fails = false; booking_fails = false; job_fails = false; commit = acked }

-- A database that serves every statement of processJob.
pub record IsServed (e : JobEnv) : Type 0 where
  pub lookup : e.lookup_fails ≡ false
  pub finish : e.finish ≡ no_faults
  pub reschedule : e.reschedule ≡ Exec.done

abbrev pub is_finished : JobStatus → Bool
is_finished JobStatus.done = true
is_finished JobStatus.failed = true
is_finished _ = false

-- The row of a job after an attempt that was made on `j` at `now`, in nanoseconds: finished, or
-- waiting for the next one of at most five.
abbrev pub Advances : ℕ → Job → Job → Type 0
Advances now j j' =
    (is_finished j'.status ≡ true)
    ⊎ ((j'.status ≡ JobStatus.pending)
        × (j'.attempts ≡ j.attempts + 1)
        × (j'.attempts < 5)
        × (j'.next_retry ≡ some (now + 2 ^ j'.attempts * 1_000_000_000)))

none_running :
    (id : ℕ) (j : Job) (js : List Job)
    → j.booking ≡ id
    → All (λ k. j.booking ≢ k.booking) js
    → count_if (in_processing id) js ≡ 0
none_running id j [] e h = refl
none_running id j (k ∷ js) e h = ground (arith, none_running id j js e h.1, h.0)

one_running :
    (id : ℕ) (j : Job) (js : List Job)
    → Distinct (λ k. k.booking) js
    → find (is_for id) js ≡ some j
    → j.status ≡ JobStatus.processing
    → count_if (in_processing id) js ≡ 1
one_running id j [] d h st = cc
one_running id j (k ∷ js) d h st = elim (Bool-cases (k.booking == id)) [
  | inl y ↦ ground (arith, none_running id k js, d.0)
  | inr n ↦ ground (arith, one_running id j js d.1)
]

module _ (id : ℕ) (j : Job) (db : Db) (distinct : Distinct (λ k. k.booking) db.jobs)
    (at : find (is_for id) db.jobs ≡ some j) (running : j.status ≡ JobStatus.processing) where
  set_jobs_row :
      (f : Job → Job)
      → ((k : Job) → (f k).booking ≡ k.booking)
      → find (is_for id) (update (in_processing id) f db.jobs) ≡ some (f j)
  set_jobs_row f same =
      find-update (is_for id) (in_processing id) f (λ k. ap (λ b. b == id) (same k)) db.jobs
      ∙ ap (change (in_processing id) f) at
      ∙ ground (arith, find_passes (is_for id) db.jobs j at)

  finished_row :
      (f : FinishFaults) (which : Booking → Bool) (g : Booking → Booking) (st : JobStatus) (n : ℕ)
      (x : Option String)
      → f ≡ no_faults
      → find (is_for id) (finish_conference_job f id which g st n x db).1.jobs
        ≡ some (finish_row st n x j)
  unfolding finish_conference_job
  finished_row f which g st n x e =
      rw (e, one_running id j db.jobs distinct at running)
        (set_jobs_row (finish_row st n x) (λ k. refl))

  module _ (e : JobEnv) (served : IsServed e) where
    abbrev Ends : Db → Type 0
    Ends db' = (j' : Job) × (find (is_for id) db'.jobs ≡ some j') × Advances e.now j j'

    discard-Ends : (now n : ℕ) → Ends (discard_conference_job e.finish now id n db).1
    unfolding discard_conference_job
    discard-Ends now n = (
      finish_row JobStatus.done n none j,
      finished_row e.finish (has_id id)
          (λ b. record b { conference = Conference.not_requested; updated_at = now }) JobStatus.done
          n none served.finish,
      inl refl,
    )

    complete-Ends :
        (now : ℕ) (link : String) (n : ℕ)
        → Ends (complete_conference_job e.finish now id link n db).1
    unfolding complete_conference_job
    complete-Ends now link n = (
      finish_row JobStatus.done n none j,
      finished_row e.finish (active_with id)
          (λ b. record b { link = some link; conference = Conference.ready; updated_at = now })
          JobStatus.done n none served.finish,
      inl refl,
    )

    fail-Ends : (now n : ℕ) (x : String) → Ends (fail_conference_job e.finish now id n x db).1
    unfolding fail_conference_job
    fail-Ends now n x = (
      finish_row JobStatus.failed n (some x) j,
      finished_row e.finish (active_with id)
          (λ b. record b { conference = Conference.failed; updated_at = now }) JobStatus.failed n
          (some x) served.finish,
      inl refl,
    )

    reschedule-Ends :
        (x : String)
        → j.attempts + 1 < 5
        → Ends
            (reschedule_conference_job e.reschedule id
              (j.attempts + 1)
              (e.now + backoff (j.attempts + 1))
              x
              db).1
    unfolding reschedule_conference_job
    reschedule-Ends x lt = (
      reschedule_row (j.attempts + 1) (e.now + backoff (j.attempts + 1)) x j,
      rw served.reschedule (
          set_jobs_row (reschedule_row (j.attempts + 1) (e.now + backoff (j.attempts + 1)) x)
            (λ k. refl)),
      inr (refl, refl, lt, refl),
    )

    abbrev job : ConferenceJob
    job = record { booking = id; attempts = j.attempts }

    settle-Ends : (r : Result String String) → Ends (settle_link e job r db).1
    settle-Ends (ok l) = complete-Ends e.now l (j.attempts + 1)
    settle-Ends (err x) = elim (Bool-cases (leb max_attempts (j.attempts + 1))) [
      | inl last ↦ rw last (fail-Ends e.now (j.attempts + 1) x)
      | inr more ↦ rw more (reschedule-Ends x (ground arith))
    ]

    found-Ends : (b : Booking) → Ends (process_found e job (ok b) db).1
    found-Ends b = elim (Bool-cases (is_active b.status)) [
      | inl y ↦ rw y (settle-Ends (request_conference_link e.is_https e.reply))
      | inr n ↦ rw n (discard-Ends e.now j.attempts)
    ]

    exists_found :
        (bs : List Booking)
        → exists (has_id id) bs ≡ true
        → (b : Booking) × (find (has_id id) bs ≡ some b)
    exists_found [] h = cc
    exists_found (b ∷ bs) h = elim (Bool-cases (b.id == id)) [
      | inl y ↦ (b, rw y refl)
      | inr n ↦ let (c, there) = exists_found bs (rw n at h) in (c, rw n there)
    ]

    lookup-Ends :
        (fails : Bool) (o : Option Booking) (b : Booking)
        → fails ≡ false
        → o ≡ some b
        → Ends (process_found e job (if fails then err Tables.Error.database else found o) db).1
    lookup-Ends true o b f h = cc
    lookup-Ends false none b f h = cc
    lookup-Ends false (some c) b f h = found-Ends c

    processed-Ends : exists (has_id id) db.bookings ≡ true → Ends (process_job e job db).1
    unfolding process_job get_by_id
    processed-Ends h =
        let (b, there) = exists_found db.bookings h in
        lookup-Ends e.lookup_fails (find (has_id id) db.bookings) b served.lookup there

-- From consistent tables, with a job in processing, and on a database that serves every statement:
-- processJob of that job, with the attempts of its row, ends it as done or failed, or leaves it
-- pending with one attempt more, which is below five, and with its retry due 2 ^ n seconds from now,
-- where n is the new number of attempts.
pub process_job_ends :
    (e : JobEnv) (id : ℕ) (j : Job) (db : Db)
    → IsConsistent db
    → IsServed e
    → find (is_for id) db.jobs ≡ some j
    → j.status ≡ JobStatus.processing
    → (j' : Job) × (find
          (is_for id)
          (process_job e (record { booking = id; attempts = j.attempts }) db).1.jobs
        ≡ some j')
      × Advances e.now j j'
process_job_ends e id j db h served at running =
    processed-Ends id j db h.jobs_distinct at running e served
      (owner (find_All _ (is_for id) db.jobs j h.owned at))
  where
    owner : exists (has_id j.booking) db.bookings ≡ true → exists (has_id id) db.bookings ≡ true
    owner o =
        let same : j.booking ≡ id = ground (arith, find_passes (is_for id) db.jobs j at) in
        rw (← same) o
