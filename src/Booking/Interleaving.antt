-- ===== src/Booking/Interleaving.antt =====
-- booking-service under load: requests and the worker, whose calls interleave in any order.
use room_booking_platform.Base.{ℕ, ◌≡◌, String, Option, none, some, [], Result, put}
use room_booking_platform.Booking.Tables.{Db}
use room_booking_platform.Booking.Jobs.{
  ConferenceJob, ClaimEnv, claim_conference_jobs, discard_conference_job,
}
use room_booking_platform.Booking.Worker.{JobEnv, settle_link}
use room_booking_platform.Booking.SlotService.{SlotService}
use room_booking_platform.Booking.Service.{CreateBookingRequest, World, CreateEnv, CancelEnv}
use room_booking_platform.Booking.Requests.{
  Creation, idle, Cancellation, quiet, looking, cleared, create_called, create_step, cancel_step,
}

-- Which bookings have had a releaseSlot from a CancelBooking, and of which user. The code keeps no
-- such record; a step only writes it.
abbrev pub Withdrawn : Type 0
Withdrawn = ℕ → Option ℕ

abbrev pub note : Cancellation → Withdrawn → Withdrawn
note (cleared id user slot) wd = put wd id (some user)
note _ wd = wd

module _ (s : SlotService) where
  -- The databases, the creations by the UUID of their booking, and the cancellations by a number.
  pub record System : Type 0 where
    pub world : World s
    pub creation : ℕ → Creation
    pub cancellation : ℕ → Cancellation
    pub withdrawn : Withdrawn

  abbrev pub with_db : Db → System → System
  with_db db m = record m { world = record m.world { db = db } }

  abbrev pub after_create : ℕ → Creation × World s → System → System
  after_create id (p, w) m = record m { world = w; creation = put m.creation id p }

  abbrev pub after_cancel : ℕ → Cancellation × World s → System → System
  after_cancel k (p, w) m = record m {
    world = w;
    cancellation = put m.cancellation k p;
    withdrawn = note (m.cancellation k) m.withdrawn;
  }

  pub data Step (m : System) : System → Type 0 where
    -- A request arrives; a creation makes a UUID that no creation before it has made.
    call_create :
        (id user : ℕ) (role : String) (req : CreateBookingRequest)
        → m.creation id ≡ idle
        → Step m (record m { creation = put m.creation id (create_called s user role req) })
    call_cancel :
        (k id user : ℕ)
        → m.cancellation k ≡ quiet
        → Step m (record m { cancellation = put m.cancellation k (looking id user) })
    -- A request makes its next call.
    create :
        (e : CreateEnv s)
        → Step m (after_create e.booking_id (create_step s e (m.creation e.booking_id) m.world) m)
    cancel :
        (k : ℕ) (e : CancelEnv s)
        → Step m (after_cancel k (cancel_step s e (m.cancellation k) m.world) m)
    -- The slot service works by itself.
    work :
        (x : s.Work)
        → Step m (record m { world = record m.world { slots = s.work x m.world.slots } })
    -- The worker claims jobs, and ends one, on a link or an error that it has got before.
    claim :
        (c : ClaimEnv) (limit lease : ℕ)
        → Step m (with_db (claim_conference_jobs c limit lease m.world.db).1 m)
    settle :
        (e : JobEnv) (job : ConferenceJob) (r : Result String String)
        → Step m (with_db (settle_link e job r m.world.db).1 m)
    discard :
        (e : JobEnv) (job : ConferenceJob)
        → Step m (
            with_db (discard_conference_job e.finish e.now job.booking job.attempts m.world.db).1 m)

  -- The start: no booking, no job and no request, over the slots that there are.
  abbrev pub start : s.State → System
  start slots = record {
    world = record { slots = slots; db = record { bookings = []; jobs = [] } };
    creation = λ _. idle;
    cancellation = λ _. quiet;
    withdrawn = λ _. none;
  }

  pub data Reach (slots : s.State) : System → Type 0 where
    begin : Reach slots (start slots)
    next : {m m' : System} → Reach slots m → Step m m' → Reach slots m'
