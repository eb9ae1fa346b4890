-- ===== src/Booking/Alone.antt =====
-- A request that is served alone: the steps in a row are the service's functions.
use room_booking_platform.Base.{
  ℕ, ◌≡◌, refl, String, Result, ok, err, ◌==◌, same_text, Bool-cases, inl, inr,
}
use room_booking_platform.Booking.Tables.{Booking, Db, commit_unknown, database}
use room_booking_platform.Booking.Tables
use room_booking_platform.Booking.Bookings
use room_booking_platform.Booking.Bookings.{create_with_conference_job, get_by_id, cancel}
use room_booking_platform.Booking.SlotService.{SlotService, SlotMeta}
use room_booking_platform.Booking.Service.{
  Error, BookingResponse, CreateBookingRequest, World, CreateEnv, CancelEnv, reserved, stored,
  settle, cancel_answer, cancel_found, cancel_released, new_booking, book_slot, release_slot,
  create_booking, cancel_booking,
}
use room_booking_platform.Booking.Requests.{
  Creation, created, Cancellation, looking, cancelled, create_called, create_step, cancel_step,
  create_steps, cancel_steps,
}
use room_booking_platform.Booking.Requests

module _ (s : SlotService) where
  -- Where a request has ended with a result.
  abbrev pub create_done : Result Error BookingResponse × World s → Creation × World s
  create_done (r, w) = (created r, w)

  abbrev pub cancel_done : Result Error BookingResponse × World s → Cancellation × World s
  cancel_done (r, w) = (cancelled r, w)

  module _ (e : CreateEnv s) (user : ℕ) (req : CreateBookingRequest) where
    settle_steps :
        (slot : ℕ) (o : Result Tables.Error Booking) (w : World s)
        → create_steps s 1 e (Requests.looked_up s slot o, w) ≡ create_done (settle s e slot o w)
    unfolding create_step
    settle_steps slot (ok b) w = refl
    settle_steps slot (err Tables.Error.booking_not_found) w = refl
    settle_steps slot (err Tables.Error.commit_unknown) w = refl
    settle_steps slot (err Tables.Error.database) w = refl

    stored_steps :
        (slot : ℕ) (q : Result Tables.Error Booking × Db) (w : World s)
        → create_steps s 2 e (Requests.stored s slot q w) ≡ create_done (stored s e slot q w)
    unfolding create_step
    stored_steps slot (ok b, db) w = refl
    stored_steps slot (err Tables.Error.booking_not_found, db) w = refl
    stored_steps slot (err Tables.Error.commit_unknown, db) w =
        settle_steps slot (get_by_id e.lookup_fails e.booking_id db) (record w { db = db })
    stored_steps slot (err Tables.Error.database, db) w = refl

    reserved_steps :
        (q : Result Error SlotMeta × World s)
        → create_steps s 3 e (Requests.booked s user req q) ≡ create_done (reserved s e user req q)
    unfolding create_step
    reserved_steps (err x, w) = refl
    reserved_steps (ok meta, w) =
        stored_steps req.slot
          (create_with_conference_job e.create e.now (new_booking e.booking_id user req meta) w.db)
          w

    -- A CreateBooking that is called and then makes its calls one after the other, with nothing in
    -- between, ends after at most four of them with the answer and the databases of the function
    -- CreateBooking.
    pub create_steps-create_booking :
        (role : String) (w : World s)
        → create_steps s 4 e (create_called s user role req, w)
          ≡ create_done (create_booking s e user role req w)
    unfolding create_step create_booking
    create_steps-create_booking role w = elim (Bool-cases (same_text role "admin")) [
      | inl y ↦ rw y refl
      | inr n ↦ elim (Bool-cases (req.slot == 0)) [
        | inl z ↦ rw (n, z) refl
        | inr k ↦
            rw (n, k) (reserved_steps (book_slot s e.book_net e.book_env req.slot e.booking_id w))
      ]
    ]

  module _ (e : CancelEnv s) (id user : ℕ) where
    closed_steps :
        (q : Result Tables.Error Booking × Db) (w : World s)
        → Requests.closed s q w ≡ cancel_done (cancel_answer s q w)
    closed_steps (ok b, db) w = refl
    closed_steps (err x, db) w = refl

    released_steps :
        (q : Result Error (Unit {0}) × World s)
        → cancel_steps s 1 e (Requests.released s id user q)
          ≡ cancel_done (cancel_released s e id q)
    unfolding cancel_step
    released_steps (err x, w) = refl
    released_steps (ok _, w) = closed_steps (cancel e.cancel e.now id w.db) w

    found_steps :
        (o : Result Tables.Error Booking) (w : World s)
        → cancel_steps s 2 e (Requests.found s id user o, w)
          ≡ cancel_done (cancel_found s e id user o w)
    unfolding cancel_step
    found_steps (err Tables.Error.booking_not_found) w = refl
    found_steps (err Tables.Error.commit_unknown) w = refl
    found_steps (err Tables.Error.database) w = refl
    found_steps (ok b) w = elim (Bool-cases (b.user == user)) [
      | inl y ↦ elim (Bool-cases (Bookings.is_active b.status)) [
        | inl a ↦
            rw (y, a) (released_steps (release_slot s e.release_net e.release_env b.slot id w))
        | inr c ↦ rw (y, c) refl
      ]
      | inr n ↦ rw n refl
    ]

    -- Three steps of a request in a row, with nothing in between, are CancelBooking.
    pub cancel_steps-cancel_booking :
        (w : World s)
        → cancel_steps s 3 e (looking id user, w) ≡ cancel_done (cancel_booking s e id user w)
    unfolding cancel_step cancel_booking
    cancel_steps-cancel_booking w = found_steps (get_by_id e.lookup_fails id w.db) w
