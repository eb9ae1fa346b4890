-- ===== src/Tests/Jobs.antt =====
-- The theorems on conference jobs, at one booking whose conference is pending.
use room_booking_platform.Base.{
  some, find, ◌≡◌, refl, arith, ℕ, [], ◌∷◌, false, Exec, acked, same_text,
}
use room_booking_platform.Clock.{second}
use room_booking_platform.Booking.Jobs.{ClaimEnv, FinishFaults, lock_row}
use room_booking_platform.Booking.Bookings.{new_job}
use room_booking_platform.Booking.Tables.{Job, Db, is_for}
use room_booking_platform.Booking.Worker.{JobEnv, LinkReply, process_job}
use room_booking_platform.Booking.Consistency.{IsConsistent}
use room_booking_platform.Booking.Progress.{Advances, process_job_ends}
use room_booking_platform.Booking.Ticks.{start, start-IsConsistent}
use room_booking_platform.Tests.Bookings.{one_booking, one_booking-IsConsistent}

abbrev claims : ClaimEnv
claims = record {
  begin_fails = false;
  query_fails = false;
  commit = acked;
  now = second;
  locked = λ b. false;
}

abbrev no_faults : FinishFaults
no_faults = record { begin_fails = false; booking_fails = false; job_fails = false; commit = acked }

abbrev answers : ℕ → JobEnv
answers job = record {
  lookup_fails = false;
  now = second;
  is_https = λ l. same_text l "https://meet.example/9";
  reply = LinkReply.link "https://meet.example/9";
  finish = no_faults;
  reschedule = Exec.done;
}

start-IsConsistent_example :
    IsConsistent (start ((claims, answers) ∷ (claims, answers) ∷ []) one_booking)
start-IsConsistent_example =
    start-IsConsistent ((claims, answers) ∷ (claims, answers) ∷ []) one_booking
      one_booking-IsConsistent

-- The job of the booking, in processing.
abbrev running : Job
running = lock_row 0 (new_job 0 9)

abbrev claimed : Db
claimed = record one_booking { jobs = running ∷ [] }

claimed-IsConsistent : IsConsistent claimed
claimed-IsConsistent = record {
  bookings_distinct = (tt, tt);
  jobs_distinct = (tt, tt);
  linked = one_booking-IsConsistent.linked;
  counted = (ground arith, tt);
  owned = (refl, tt);
  serving = ((ground arith, tt), tt);
  tracked = ((λ c. refl), tt);
}

-- The conference service is down.
abbrev down : JobEnv
down = record (answers 9) { reply = LinkReply.unreachable "refused" }

process_job_ends_example :
    (j' : Job) × (find
        (is_for 9)
        (process_job down (record { booking = 9; attempts = 0 }) claimed).1.jobs
      ≡ some j')
    × Advances second running j'
process_job_ends_example =
    process_job_ends down 9 running claimed claimed-IsConsistent
      (record { lookup = refl; finish = refl; reschedule = refl }) refl refl
