-- ===== src/Booking/Service.antt =====
-- services/booking-service/internal/service/service.go: bookings.
use room_booking_platform.Base.{
  ℕ, zero, suc, String, Bool, not, Option, none, List, map, Result, ok, err, Exec, ltb, ◌==◌,
  if◌then◌else◌, same_text,
}
use room_booking_platform.Text.{ℤ, pos, negsuc}
use room_booking_platform.Http.{Response, json, error, status_of, Net, unsent, unanswered, answered}
use room_booking_platform.Booking.Tables.{Status, active, cancelled, Conference, Booking, Db}
use room_booking_platform.Booking.Tables
use room_booking_platform.Booking.Bookings.{
  CreateFaults, create_with_conference_job, get_by_id, cancel, list_by_user, list_all, is_active,
}
use room_booking_platform.Booking.SlotService.{SlotService, SlotMeta}

-- `failed` is any other error.
pub data Error : Type 0 where
  forbidden booking_not_found slot_not_found slot_booked slot_in_past admin_cannot_book : Error
  failed : Error

-- BookingResponse
pub record BookingResponse : Type 0 where
  pub id : ℕ
  pub slot : ℕ
  pub user : ℕ
  pub status : Status
  pub link : Option String
  pub created_at : ℕ

pub record CreateBookingRequest : Type 0 where
  pub slot : ℕ
  pub conference : Bool

-- toResponse
abbrev pub to_response : Booking → BookingResponse
to_response b = record {
  id = b.id;
  slot = b.slot;
  user = b.user;
  status = b.status;
  link = b.link;
  created_at = b.created_at;
}

-- json.Unmarshal into slotMetaResponse: the body of an error has none of its fields.
abbrev body : Response SlotMeta → SlotMeta
body (json _ meta) = meta
body (error _ _) = record { room = 0; start_at = 0; end_at = 0 }

-- The switch over the status of the answer.
abbrev pub slot_answer : Response SlotMeta → Result Error SlotMeta
slot_answer r =
    if status_of r == 200
    then ok (body r)
    else if status_of r == 404
    then err slot_not_found
    else if status_of r == 400
    then err slot_in_past
    else if status_of r == 409
    then err slot_booked
    else err failed

abbrev pub release_answer : Response (Unit {0}) → Result Error (Unit {0})
release_answer r = if status_of r == 200 then ok tt else err failed

-- The booking that CreateBooking stores; the database fills the last two columns.
abbrev pub new_booking : ℕ → ℕ → CreateBookingRequest → SlotMeta → Booking
new_booking id user req meta = record {
  id = id;
  slot = req.slot;
  user = user;
  room = meta.room;
  status = active;
  link = none;
  requested = req.conference;
  conference = if req.conference then Conference.pending else Conference.not_requested;
  slot_start = meta.start_at;
  slot_end = meta.end_at;
  cancelled_at = none;
  created_at = 0;
  updated_at = 0;
}

module _ (s : SlotService) where
  -- The two databases: that of the bookings, and the state of the slots.
  pub record World : Type 0 where
    pub slots : s.State
    pub db : Db

  abbrev booked : Net → Response SlotMeta × s.State → World → Result Error SlotMeta × World
  booked unsent _ w = (err failed, w)
  booked unanswered (_, slots) w = (err failed, record w { slots = slots })
  booked answered (r, slots) w = (slot_answer r, record w { slots = slots })

  -- bookSlot
  unfoldable pub book_slot : Net → s.Env → ℕ → ℕ → World → Result Error SlotMeta × World
  book_slot net e slot booking w = booked net (s.book e slot booking w.slots) w

  abbrev freed : Net → Response (Unit {0}) × s.State → World → Result Error (Unit {0}) × World
  freed unsent _ w = (err failed, w)
  freed unanswered (_, slots) w = (err failed, record w { slots = slots })
  freed answered (r, slots) w = (release_answer r, record w { slots = slots })

  -- releaseSlot
  unfoldable pub release_slot : Net → s.Env → ℕ → ℕ → World → Result Error (Unit {0}) × World
  release_slot net e slot booking w = freed net (s.release e slot booking w.slots) w

  -- What the environment gives to CreateBooking: the new UUID, the clock, and how each call ends.
  pub record CreateEnv : Type 0 where
    pub booking_id : ℕ
    pub now : ℕ
    pub book_net : Net
    pub book_env : s.Env
    pub create : CreateFaults
    pub lookup_fails : Bool
    pub release_net : Net
    pub release_env : s.Env

  -- The compensation. Either way the caller gets an error.
  abbrev pub compensate : CreateEnv → ℕ → World → Result Error BookingResponse × World
  compensate e slot w =
      (err failed, (release_slot e.release_net e.release_env slot e.booking_id w).1)

  -- The lookup after a commit with an unknown outcome.
  abbrev pub settle :
      CreateEnv → ℕ → Result Tables.Error Booking → World → Result Error BookingResponse × World
  settle e slot (ok b) w = (ok (to_response b), w)
  settle e slot (err Tables.Error.booking_not_found) w = compensate e slot w
  settle e slot (err Tables.Error.commit_unknown) w = (err failed, w)
  settle e slot (err Tables.Error.database) w = (err failed, w)

  abbrev pub stored :
      CreateEnv
      → ℕ
      → Result Tables.Error Booking × Db
      → World
      → Result Error BookingResponse × World
  stored e slot (ok b, db) w = (ok (to_response b), record w { db = db })
  stored e slot (err Tables.Error.commit_unknown, db) w =
      settle e slot (get_by_id e.lookup_fails e.booking_id db) (record w { db = db })
  stored e slot (err Tables.Error.booking_not_found, db) w =
      compensate e slot (record w { db = db })
  stored e slot (err Tables.Error.database, db) w = compensate e slot (record w { db = db })

  abbrev pub reserved :
      CreateEnv
      → ℕ
      → CreateBookingRequest
      → Result Error SlotMeta × World
      → Result Error BookingResponse × World
  reserved e user req (err x, w) = (err x, w)
  reserved e user req (ok meta, w) =
      stored e req.slot
        (create_with_conference_job e.create e.now (new_booking e.booking_id user req meta) w.db) w

  -- BookingService.CreateBooking
  unfoldable pub create_booking :
      CreateEnv → ℕ → String → CreateBookingRequest → World → Result Error BookingResponse × World
  unfolding book_slot release_slot
  create_booking e user role req w =
      if same_text role "admin"
      then (err admin_cannot_book, w)
      else if req.slot == 0
      then (err failed, w)
      else reserved e user req (book_slot e.book_net e.book_env req.slot e.booking_id w)

  -- What the environment gives to CancelBooking.
  pub record CancelEnv : Type 0 where
    pub lookup_fails : Bool
    pub now : ℕ
    pub release_net : Net
    pub release_env : s.Env
    pub cancel : Exec

  abbrev pub cancel_answer :
      Result Tables.Error Booking × Db → World → Result Error BookingResponse × World
  cancel_answer (ok b, db) w = (ok (to_response b), record w { db = db })
  cancel_answer (err _, db) w = (err failed, record w { db = db })

  abbrev pub cancel_released :
      CancelEnv → ℕ → Result Error (Unit {0}) × World → Result Error BookingResponse × World
  cancel_released e id (err _, w) = (err failed, w)
  cancel_released e id (ok _, w) = cancel_answer (cancel e.cancel e.now id w.db) w

  abbrev pub cancel_found :
      CancelEnv → ℕ → ℕ → Result Tables.Error Booking → World → Result Error BookingResponse × World
  cancel_found e id user (err Tables.Error.booking_not_found) w = (err booking_not_found, w)
  cancel_found e id user (err Tables.Error.commit_unknown) w = (err failed, w)
  cancel_found e id user (err Tables.Error.database) w = (err failed, w)
  cancel_found e id user (ok b) w =
      if not (b.user == user)
      then (err forbidden, w)
      else if not (is_active b.status)
      then (ok (to_response b), w)
      else cancel_released e id (release_slot e.release_net e.release_env b.slot id w)

  -- BookingService.CancelBooking
  unfoldable pub cancel_booking : CancelEnv → ℕ → ℕ → World → Result Error BookingResponse × World
  unfolding release_slot
  cancel_booking e id user w = cancel_found e id user (get_by_id e.lookup_fails id w.db) w

abbrev responses : Result Tables.Error (List Booking) → Result Error (List BookingResponse)
responses (err _) = err failed
responses (ok bs) = ok (map to_response bs)

-- BookingService.GetMyBookings
unfoldable pub get_my_bookings : Bool → ℕ → ℕ → Db → Result Error (List BookingResponse)
get_my_bookings fails now user db = responses (list_by_user fails now user db)

-- A number of at least 1, or a default.
abbrev pub at_least_one : ℕ → ℤ → ℕ
at_least_one default (pos zero) = default
at_least_one default (pos (suc n)) = suc n
at_least_one default (negsuc n) = default

abbrev pub at_most : ℕ → ℕ → ℕ
at_most bound n = if ltb bound n then bound else n

abbrev pub page_responses :
    Result Tables.Error (List Booking × ℕ) → Result Error (List BookingResponse × ℕ)
page_responses (err _) = err failed
page_responses (ok (bs, total)) = ok (map to_response bs, total)

-- BookingService.ListBookings
unfoldable pub list_bookings : Bool → Bool → ℤ → ℤ → Db → Result Error (List BookingResponse × ℕ)
list_bookings count_fails query_fails page size db =
    page_responses (
      list_all count_fails query_fails (at_least_one 1 page) (at_most 100 (at_least_one 20 size))
        db)
