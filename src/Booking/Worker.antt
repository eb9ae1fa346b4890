-- ===== src/Booking/Worker.antt =====
-- service.go: the conference jobs of one tick.
use room_booking_platform.Base.{
  ℕ, ◌+◌, ◌*◌, ◌^◌, String, Bool, List, [], ◌∷◌, Result, ok, err, Exec, leb, if◌then◌else◌,
}
use room_booking_platform.Clock.{second}
use room_booking_platform.Booking.Tables.{Booking, Db}
use room_booking_platform.Booking.Tables
use room_booking_platform.Booking.Bookings.{get_by_id, is_active}
use room_booking_platform.Booking.Jobs.{
  ConferenceJob, ClaimEnv, FinishFaults, claim_conference_jobs, reschedule_conference_job,
  complete_conference_job, fail_conference_job, discard_conference_job,
}

abbrev pub batch_size : ℕ
batch_size = 10

-- Five minutes.
abbrev pub lease : ℕ
lease = 300 * second

abbrev pub max_attempts : ℕ
max_attempts = 5

-- How the conference service answers: the call fails, another status, a body that is no JSON of the
-- form, or a link. The texts are those of the errors.
pub data LinkReply : Type 0 where
  unreachable bad_body : String → LinkReply
  status : ℕ → String → LinkReply
  link : String → LinkReply

-- requestConferenceLink; `is_https` stands for the tests on the URL that was parsed.
unfoldable pub request_conference_link : (String → Bool) → LinkReply → Result String String
request_conference_link is_https (unreachable e) = err e
request_conference_link is_https (bad_body e) = err e
request_conference_link is_https (status code e) = err e
request_conference_link is_https (link l) =
    if is_https l then ok l else err "conference service returned an invalid HTTPS link"

-- What the environment gives to the processing of one job.
pub record JobEnv : Type 0 where
  pub lookup_fails : Bool
  pub now : ℕ
  pub is_https : String → Bool
  pub reply : LinkReply
  pub finish : FinishFaults
  pub reschedule : Exec

-- The pause before attempt number `attempts` + 1.
abbrev pub backoff : ℕ → ℕ
backoff attempts = 2 ^ attempts * second

-- The answer of the call is taken: the link is recorded, or the attempt has failed.
abbrev pub settle_link :
    JobEnv → ConferenceJob → Result String String → Db → Result Tables.Error (Unit {0}) × Db
settle_link e job (ok l) db =
    complete_conference_job e.finish e.now job.booking l (job.attempts + 1) db
settle_link e job (err x) db =
    if leb max_attempts (job.attempts + 1)
    then fail_conference_job e.finish e.now job.booking (job.attempts + 1) x db
    else reschedule_conference_job e.reschedule job.booking (job.attempts + 1)
        (e.now + backoff (job.attempts + 1)) x db

abbrev pub process_found :
    JobEnv → ConferenceJob → Result Tables.Error Booking → Db → Result Tables.Error (Unit {0}) × Db
process_found e job (err x) db = (err x, db)
process_found e job (ok b) db =
    if is_active b.status
    then settle_link e job (request_conference_link e.is_https e.reply) db
    else discard_conference_job e.finish e.now job.booking job.attempts db

-- processJob
unfoldable pub process_job : JobEnv → ConferenceJob → Db → Result Tables.Error (Unit {0}) × Db
process_job e job db = process_found e job (get_by_id e.lookup_fails job.booking db) db

abbrev error_count : Result Tables.Error (Unit {0}) → ℕ
error_count (ok _) = 0
error_count (err _) = 1

-- The loop of ProcessConferenceJobs, with the number of errors that are joined.
unfoldable pub process_all : (ℕ → JobEnv) → List ConferenceJob → Db → ℕ × Db
process_all e [] db = (0, db)
process_all e (job ∷ jobs) db =
    let (r, db') = process_job (e job.booking) job db in
    let (n, db'') = process_all e jobs db' in (error_count r + n, db'')

abbrev pub process_claimed : (ℕ → JobEnv) → Result Tables.Error (List ConferenceJob) × Db → ℕ × Db
process_claimed e (err _, db) = (1, db)
process_claimed e (ok jobs, db) = process_all e jobs db

-- ProcessConferenceJobs
unfoldable pub process_conference_jobs : ClaimEnv → (ℕ → JobEnv) → Db → ℕ × Db
process_conference_jobs c e db = process_claimed e (claim_conference_jobs c batch_size lease db)
