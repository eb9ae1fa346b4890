-- ===== src/Booking/Processing.antt =====
-- A tick of the conference worker keeps the tables consistent.
use room_booking_platform.Base.{ℕ, ◌+◌, ◌≤◌, String, List, [], ◌∷◌, Result, ok, err, arith, All}
use room_booking_platform.Booking.Tables.{Booking, Db, Error}
use room_booking_platform.Booking.Bookings.{get_by_id}
use room_booking_platform.Booking.Jobs.{ClaimEnv, ConferenceJob, claim_conference_jobs}
use room_booking_platform.Booking.Worker.{
  JobEnv, process_job, process_all, process_conference_jobs, settle_link, process_found,
  request_conference_link, backoff, process_claimed, batch_size, lease,
}
use room_booking_platform.Booking.Consistency.{IsConsistent}
use room_booking_platform.Booking.Closing.{
  complete_conference_job-IsConsistent, fail_conference_job-IsConsistent,
  discard_conference_job-IsConsistent,
}
use room_booking_platform.Booking.Claims.{
  HasAttempts, claim_conference_jobs-HasAttempts, claim_conference_jobs-IsConsistent,
  reschedule_conference_job-IsConsistent,
}

settle_link-IsConsistent :
    (e : JobEnv) (job : ConferenceJob) (r : Result String String) (db : Db)
    → job.attempts ≤ 4
    → IsConsistent db
    → IsConsistent (settle_link e job r db).1
settle_link-IsConsistent e job (ok l) db a h =
    complete_conference_job-IsConsistent e.finish e.now job.booking l (job.attempts + 1) db
      (omega arith) h
settle_link-IsConsistent e job (err x) db a h = ground (
  arith,
  fail_conference_job-IsConsistent e.finish e.now job.booking (job.attempts + 1) x db,
  reschedule_conference_job-IsConsistent e.reschedule job.booking (job.attempts + 1)
      (e.now + backoff (job.attempts + 1)) x db,
)

process_found-IsConsistent :
    (e : JobEnv) (job : ConferenceJob) (r : Result Error Booking) (db : Db)
    → job.attempts ≤ 4
    → IsConsistent db
    → IsConsistent (process_found e job r db).1
process_found-IsConsistent e job (err x) db a h = h
process_found-IsConsistent e job (ok b) db a h =
    let kept = settle_link-IsConsistent e job (request_conference_link e.is_https e.reply) db a h in
    ground (
      arith,
      kept,
      discard_conference_job-IsConsistent e.finish e.now job.booking job.attempts db (omega arith)
          h,
    )

-- Processing a job that has made at most four attempts keeps consistent tables consistent,
-- whatever the conference service answers and whatever statement fails.
pub process_job-IsConsistent :
    (e : JobEnv) (job : ConferenceJob) (db : Db)
    → job.attempts ≤ 4
    → IsConsistent db
    → IsConsistent (process_job e job db).1
unfolding process_job
process_job-IsConsistent e job db a h =
    process_found-IsConsistent e job (get_by_id e.lookup_fails job.booking db) db a h

process_all-IsConsistent :
    (e : ℕ → JobEnv) (jobs : List ConferenceJob) (db : Db)
    → All (λ j. j.attempts ≤ 4) jobs
    → IsConsistent db
    → IsConsistent (process_all e jobs db).1
unfolding process_all
process_all-IsConsistent e [] db a h = h
process_all-IsConsistent e (job ∷ jobs) db a h =
    process_all-IsConsistent e jobs (process_job (e job.booking) job db).1 a.1
      (process_job-IsConsistent (e job.booking) job db a.0 h)

process_claimed-IsConsistent :
    (e : ℕ → JobEnv) (c : Result Error (List ConferenceJob) × Db)
    → HasAttempts c.0
    → IsConsistent c.1
    → IsConsistent (process_claimed e c).1
process_claimed-IsConsistent e (ok jobs, db) a h = process_all-IsConsistent e jobs db a h
process_claimed-IsConsistent e (err x, db) a h = h

-- From consistent tables, a tick of the conference worker leaves consistent tables: every booking
-- whose conference is pending still has an unfinished job, no cancelled booking has a link, and no
-- job passes five attempts, whatever fails on the way.
pub process_conference_jobs-IsConsistent :
    (c : ClaimEnv) (e : ℕ → JobEnv) (db : Db)
    → IsConsistent db
    → IsConsistent (process_conference_jobs c e db).1
unfolding process_conference_jobs
process_conference_jobs-IsConsistent c e db h =
    process_claimed-IsConsistent e (claim_conference_jobs c batch_size lease db)
      (claim_conference_jobs-HasAttempts c batch_size lease db h)
      (claim_conference_jobs-IsConsistent c batch_size lease db h)
