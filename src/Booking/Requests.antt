-- ===== src/Booking/Requests.antt =====
-- service.go: CreateBooking and CancelBooking as requests that are served at the same time. Between
-- two calls of a database or of availability-service a request stands at a place; a step runs one
-- call of one request.
use room_booking_platform.Base.{
  ℕ, zero, suc, String, not, Result, ok, err, if◌then◌else◌, ◌==◌, same_text,
}
use room_booking_platform.Booking.Tables.{Booking, Db, commit_unknown, database}
use room_booking_platform.Booking.Tables
use room_booking_platform.Booking.Bookings.{create_with_conference_job, get_by_id, is_active}
use room_booking_platform.Booking.Bookings
use room_booking_platform.Booking.SlotService.{SlotService, SlotMeta}
use room_booking_platform.Booking.Service.{
  Error, BookingResponse, CreateBookingRequest, World, CreateEnv, CancelEnv, to_response,
  new_booking, book_slot, release_slot,
}

-- Where a CreateBooking stands. Its booking is named by the UUID that it makes.
pub data Creation : Type 0 where
  idle : Creation
  -- before bookSlot, and after it
  asking : (user : ℕ) (req : CreateBookingRequest) → Creation
  holding : (user : ℕ) (req : CreateBookingRequest) (meta : SlotMeta) → Creation
  -- before the lookup after an unknown commit, and before the compensation
  unsure compensating : (slot : ℕ) → Creation
  created : Result Error BookingResponse → Creation

-- Where a CancelBooking stands.
pub data Cancellation : Type 0 where
  quiet : Cancellation
  -- before GetByID, before releaseSlot, and before Cancel
  looking : (id user : ℕ) → Cancellation
  cleared : (id user slot : ℕ) → Cancellation
  freed : (id user : ℕ) → Cancellation
  cancelled : Result Error BookingResponse → Cancellation

module _ (s : SlotService) where
  -- The checks before the first call.
  abbrev pub create_called : ℕ → String → CreateBookingRequest → Creation
  create_called user role req =
      if same_text role "admin"
      then created (err Error.admin_cannot_book)
      else if req.slot == 0
      then created (err Error.failed)
      else asking user req

  abbrev pub booked :
      ℕ → CreateBookingRequest → Result Error SlotMeta × World s → Creation × World s
  booked user req (err x, w) = (created (err x), w)
  booked user req (ok meta, w) = (holding user req meta, w)

  abbrev pub stored : ℕ → Result Tables.Error Booking × Db → World s → Creation × World s
  stored slot (ok b, db) w = (created (ok (to_response b)), record w { db = db })
  stored slot (err Tables.Error.commit_unknown, db) w = (unsure slot, record w { db = db })
  stored slot (err _, db) w = (compensating slot, record w { db = db })

  abbrev pub looked_up : ℕ → Result Tables.Error Booking → Creation
  looked_up slot (ok b) = created (ok (to_response b))
  looked_up slot (err Tables.Error.booking_not_found) = compensating slot
  looked_up slot (err _) = created (err Error.failed)

  -- The next call of a CreateBooking.
  unfoldable pub create_step : CreateEnv s → Creation → World s → Creation × World s
  create_step e idle w = (idle, w)
  create_step e (asking user req) w =
      booked user req (book_slot s e.book_net e.book_env req.slot e.booking_id w)
  create_step e (holding user req meta) w =
      stored req.slot
        (create_with_conference_job e.create e.now (new_booking e.booking_id user req meta) w.db) w
  create_step e (unsure slot) w = (looked_up slot (get_by_id e.lookup_fails e.booking_id w.db), w)
  create_step e (compensating slot) w = (
    created (err Error.failed),
    (release_slot s e.release_net e.release_env slot e.booking_id w).1,
  )
  create_step e (created r) w = (created r, w)

  abbrev pub found : ℕ → ℕ → Result Tables.Error Booking → Cancellation
  found id user (err Tables.Error.booking_not_found) = cancelled (err Error.booking_not_found)
  found id user (err _) = cancelled (err Error.failed)
  found id user (ok b) =
      if not (b.user == user)
      then cancelled (err Error.forbidden)
      else if not (is_active b.status)
      then cancelled (ok (to_response b))
      else cleared id user b.slot

  abbrev pub released : ℕ → ℕ → Result Error (Unit {0}) × World s → Cancellation × World s
  released id user (err _, w) = (cancelled (err Error.failed), w)
  released id user (ok _, w) = (freed id user, w)

  abbrev pub closed : Result Tables.Error Booking × Db → World s → Cancellation × World s
  closed (ok b, db) w = (cancelled (ok (to_response b)), record w { db = db })
  closed (err _, db) w = (cancelled (err Error.failed), record w { db = db })

  -- The next call of a CancelBooking.
  unfoldable pub cancel_step : CancelEnv s → Cancellation → World s → Cancellation × World s
  cancel_step e quiet w = (quiet, w)
  cancel_step e (looking id user) w = (found id user (get_by_id e.lookup_fails id w.db), w)
  cancel_step e (cleared id user slot) w =
      released id user (release_slot s e.release_net e.release_env slot id w)
  cancel_step e (freed id user) w = closed (Bookings.cancel e.cancel e.now id w.db) w
  cancel_step e (cancelled r) w = (cancelled r, w)

  -- A number of steps with nothing in between.
  abbrev pub create_steps : ℕ → CreateEnv s → Creation × World s → Creation × World s
  create_steps zero e p = p
  create_steps (suc n) e p = create_steps n e (create_step e p.0 p.1)

  abbrev pub cancel_steps : ℕ → CancelEnv s → Cancellation × World s → Cancellation × World s
  cancel_steps zero e p = p
  cancel_steps (suc n) e p = cancel_steps n e (cancel_step e p.0 p.1)
