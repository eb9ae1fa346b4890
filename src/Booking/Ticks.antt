-- ===== src/Booking/Ticks.antt =====
-- services/booking-service/internal/worker/worker.go: a run of ProcessConferenceJobs at every tick
-- until the context is cancelled. Its errors are only logged.
use room_booking_platform.Base.{ℕ, List, [], ◌∷◌}
use room_booking_platform.Booking.Tables.{Db}
use room_booking_platform.Booking.Jobs.{ClaimEnv}
use room_booking_platform.Booking.Worker.{JobEnv, process_conference_jobs}
use room_booking_platform.Booking.Consistency.{IsConsistent}
use room_booking_platform.Booking.Processing.{process_conference_jobs-IsConsistent}

-- ConferenceWorker.Start, on what each tick finds.
unfoldable pub start : List (ClaimEnv × (ℕ → JobEnv)) → Db → Db
start [] db = db
start ((c, e) ∷ ticks) db = start ticks (process_conference_jobs c e db).1

-- From consistent tables, the conference worker leaves consistent tables after any number of ticks:
-- every booking whose conference is pending still has an unfinished job, no cancelled booking has a
-- link, and no job passes five attempts, whatever fails on the way.
pub start-IsConsistent :
    (ticks : List (ClaimEnv × (ℕ → JobEnv))) (db : Db)
    → IsConsistent db
    → IsConsistent (start ticks db)
unfolding start
start-IsConsistent [] db h = h
start-IsConsistent ((c, e) ∷ ticks) db h =
    start-IsConsistent ticks (process_conference_jobs c e db).1
      (process_conference_jobs-IsConsistent c e db h)
