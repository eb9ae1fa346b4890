-- ===== src/Booking/Answers.antt =====
-- The answers of the booking handler: a refusal has changed nothing.
use room_booking_platform.Base.{
  ℕ, ◌≡◌, refl, ap, ◌≢◌, String, Option, none, some, Result, ok, err, arith,
}
use room_booking_platform.Http.{
  Response, Net, unsent, unanswered, answered, status_of, Item, decode_json, internal_error,
}
use room_booking_platform.Booking.Tables.{Status, active, cancelled, Booking, Db, has_id}
use room_booking_platform.Booking.Tables
use room_booking_platform.Booking.Bookings
use room_booking_platform.Booking.Bookings.{create_with_conference_job, get_by_id}
use room_booking_platform.Booking.SlotService.{SlotService, IsSlotService, SlotView, SlotMeta}
use room_booking_platform.Booking.Service.{
  Error, BookingResponse, reserved, stored, CreateBookingRequest, World, CreateEnv, CancelEnv,
  new_booking, slot_answer, book_slot, release_slot, create_booking, cancel_booking,
}
use room_booking_platform.Booking.Handler.{
  Headers, extract_auth, create, create_decoded, create_response, cancel, cancel_parsed,
  cancel_response,
}

-- A status that says that the request was refused: neither done nor failed inside.
refusal_status :
    (r : Response SlotMeta) (x : Error)
    → slot_answer r ≡ err x
    → x ≢ Error.failed
    → (status_of r ≢ 200) × (status_of r ≢ 500)
refusal_status r x h n = ground arith

module _ (s : SlotService) (view : SlotView s) (laws : IsSlotService s view) where
  open view use {IsValid, holder}

  abbrev pub Unchanged : World s → World s → Type 0
  Unchanged w w' = ((j : ℕ) → holder j w'.slots ≡ holder j w.slots) × (w'.db ≡ w.db)

  unchanged : (w : World s) → Unchanged w w
  unchanged w = (λ j. refl, refl)

  book_slot_refused :
      (net : Net) (e : s.Env) (slot b : ℕ) (w w' : World s) (x : Error)
      → IsValid w.slots
      → book_slot s net e slot b w ≡ (err x, w')
      → x ≢ Error.failed
      → Unchanged w w'
  unfolding book_slot
  book_slot_refused unsent e slot b w w' x v h n = absurd (n (ground arith))
  book_slot_refused unanswered e slot b w w' x v h n = absurd (n (ground arith))
  book_slot_refused answered e slot b w w' x v h n =
      let (a, c) = refusal_status (s.book e slot b w.slots).0 x (ap (λ p. p.0) h) n in
      rw (← ap (λ p. p.1) h) (laws.book_refused e slot b w.slots v a c, refl)

  module _ (e : CreateEnv s) (user : ℕ) (req : CreateBookingRequest) where
    stored_failed :
        (q : Result Tables.Error Booking × Db) (w w' : World s) (x : Error)
        → stored s e req.slot q w ≡ (err x, w')
        → x ≡ Error.failed
    unfolding get_by_id
    stored_failed q w w' x h = ground arith

    reserved_refused :
        (p : Result Error SlotMeta × World s) (w w' : World s) (x : Error)
        → IsValid w.slots
        → book_slot s e.book_net e.book_env req.slot e.booking_id w ≡ p
        → reserved s e user req p ≡ (err x, w')
        → x ≢ Error.failed
        → Unchanged w w'
    reserved_refused (err y, u) w w' x v eq h n = rw (← ap (λ p. p.1) h) (
        book_slot_refused e.book_net e.book_env req.slot e.booking_id w u y v eq
          (λ f. n (ground arith)))
    reserved_refused (ok meta, u) w w' x v eq h n = absurd (
        n (
          stored_failed
            (create_with_conference_job e.create e.now (new_booking e.booking_id user req meta)
              u.db)
            u w' x h))

    create_booking_refused :
        (role : String) (w w' : World s) (x : Error)
        → IsValid w.slots
        → create_booking s e user role req w ≡ (err x, w')
        → x ≢ Error.failed
        → Unchanged w w'
    unfolding create_booking
    create_booking_refused role w w' x v h n = ground (
      arith,
      unchanged w,
      reserved_refused (book_slot s e.book_net e.book_env req.slot e.booking_id w) w w' x v refl,
    )

    answer-Unchanged :
        (role : String) (w : World s) (p : Result Error BookingResponse × World s)
        → IsValid w.slots
        → create_booking s e user role req w ≡ p
        → status_of (create_response p.0) ≢ 201
        → status_of (create_response p.0) ≢ 500
        → Unchanged w p.1
    unfolding internal_error
    answer-Unchanged role w (ok r, w') v h a b = absurd (a refl)
    answer-Unchanged role w (err x, w') v h a b =
        create_booking_refused role w w' x v h
          (λ f. b (ap (λ y. status_of (create_response (err y))) f))

  decoded-Unchanged :
      (e : CreateEnv s) (user : ℕ) (role : String) (o : Option CreateBookingRequest) (w : World s)
      → IsValid w.slots
      → status_of (create_decoded s e user role o w).0 ≢ 201
      → status_of (create_decoded s e user role o w).0 ≢ 500
      → Unchanged w (create_decoded s e user role o w).1
  decoded-Unchanged e user role none w v a b = unchanged w
  decoded-Unchanged e user role (some req) w v a b =
      answer-Unchanged e user req role w (create_booking s e user role req w) v refl a b

  -- Over a slot service that keeps its laws and from valid slots, a POST of a booking that the
  -- handler answers with a status other than 201 and 500 leaves the holder of every slot and all
  -- of booking_db as they were, whatever the calls of the slot service and the statements of the
  -- database do.
  pub create-Unchanged :
      (e : CreateEnv s) (h : Headers) (first : Item CreateBookingRequest) (rest : Item (Unit {0}))
      (w : World s)
      → IsValid w.slots
      → status_of (create s e h first rest w).0 ≢ 201
      → status_of (create s e h first rest w).0 ≢ 500
      → Unchanged w (create s e h first rest w).1
  unfolding create
  create-Unchanged e h first rest w v = ground (
    arith,
    unchanged w,
    decoded-Unchanged e (extract_auth h).0 (extract_auth h).1 (decode_json first rest) w v,
  )

  cancel_booking_answer :
      (e : CancelEnv s) (id user : ℕ) (w : World s)
      → status_of (cancel_response (cancel_booking s e id user w).0) ≢ 200
      → status_of (cancel_response (cancel_booking s e id user w).0) ≢ 500
      → (cancel_booking s e id user w).1 ≡ w
  unfolding cancel_booking get_by_id release_slot Bookings.cancel internal_error
  cancel_booking_answer e id user w a b = ground arith

  parsed_unchanged :
      (e : CancelEnv s) (user : ℕ) (id : Option ℕ) (w : World s)
      → status_of (cancel_parsed s e user id w).0 ≢ 200
      → status_of (cancel_parsed s e user id w).0 ≢ 500
      → (cancel_parsed s e user id w).1 ≡ w
  parsed_unchanged e user none w a b = refl
  parsed_unchanged e user (some id) w a b = cancel_booking_answer e id user w a b

  -- A cancellation that the handler answers with a status other than 200 and 500 leaves both
  -- databases as they were.
  pub cancel_unchanged :
      (e : CancelEnv s) (h : Headers) (id : Option ℕ) (w : World s)
      → status_of (cancel s e h id w).0 ≢ 200
      → status_of (cancel s e h id w).0 ≢ 500
      → (cancel s e h id w).1 ≡ w
  unfolding cancel
  cancel_unchanged e h id w = ground (arith, parsed_unchanged e (extract_auth h).0 id w)
