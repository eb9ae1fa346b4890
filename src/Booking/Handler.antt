-- ===== src/Booking/Handler.antt =====
-- services/booking-service/internal/handler/handler.go. The header X-User-ID is the UUID that
-- uuid.Parse read in it, if any, and a path parameter likewise; a body is what the JSON decoder finds
-- in it.
use room_booking_platform.Base.{
  ℕ, String, Bool, true, false, ◌||◌, not, Option, none, some, List, [], ◌∷◌, Result, ok, err, ltb,
  ◌==◌, if◌then◌else◌, same_text,
}
use room_booking_platform.Text.{Chars, atoi, ℤ, pos, negsuc}
use room_booking_platform.Http.{
  Response, json, Item, decode_json, bad_request, unauthorized, forbidden, not_found, conflict,
  internal_error,
}
use room_booking_platform.Booking.Tables.{Db}
use room_booking_platform.Booking.SlotService.{SlotService}
use room_booking_platform.Booking.Service.{
  Error, BookingResponse, CreateBookingRequest, World, CreateEnv, CancelEnv, create_booking,
  cancel_booking, get_my_bookings, list_bookings,
}

-- The two headers that the gateway sets.
pub record Headers : Type 0 where
  pub user : Option ℕ
  pub role : String

-- extractAuth; 0 is uuid.Nil.
abbrev auth_of : Option ℕ → String → ℕ × String
auth_of none role = (0, "")
auth_of (some user) role = (user, role)

unfoldable pub extract_auth : Headers → ℕ × String
extract_auth h = auth_of h.user h.role

abbrev or_default : ℤ → Option ℤ → ℤ
or_default default none = default
or_default default (some n) = n

-- queryInt, on the value of the parameter, empty if it is missing.
unfoldable pub query_int : Chars → ℤ → ℤ
query_int [] default = default
query_int (c ∷ v) default = or_default default (atoi (c ∷ v))

abbrev pub create_response : Result Error BookingResponse → Response BookingResponse
create_response (ok b) = json 201 b
create_response (err Error.admin_cannot_book) = forbidden
create_response (err Error.slot_not_found) = not_found "SLOT_NOT_FOUND"
create_response (err Error.slot_in_past) = bad_request
create_response (err Error.slot_booked) = conflict "SLOT_ALREADY_BOOKED"
create_response (err _) = internal_error

abbrev pub cancel_response : Result Error BookingResponse → Response BookingResponse
cancel_response (ok b) = json 200 b
cancel_response (err Error.booking_not_found) = not_found "BOOKING_NOT_FOUND"
cancel_response (err Error.forbidden) = forbidden
cancel_response (err _) = internal_error

module _ (s : SlotService) where
  abbrev pub create_decoded :
      CreateEnv s
      → ℕ
      → String
      → Option CreateBookingRequest
      → World s
      → Response BookingResponse × World s
  create_decoded e user role none w = (bad_request, w)
  create_decoded e user role (some req) w =
      let (r, w') = create_booking s e user role req w in (create_response r, w')

  -- Handler.CreateBooking
  unfoldable pub create :
      CreateEnv s
      → Headers
      → Item CreateBookingRequest
      → Item (Unit {0})
      → World s
      → Response BookingResponse × World s
  unfolding unauthorized forbidden bad_request not_found conflict internal_error
  create e h first rest w =
      let (user, role) = extract_auth h in
      if user == 0
      then (unauthorized, w)
      else if same_text role "admin"
      then (forbidden, w)
      else create_decoded e user role (decode_json first rest) w

  abbrev pub cancel_parsed :
      CancelEnv s → ℕ → Option ℕ → World s → Response BookingResponse × World s
  cancel_parsed e user none w = (bad_request, w)
  cancel_parsed e user (some id) w =
      let (r, w') = cancel_booking s e id user w in (cancel_response r, w')

  -- Handler.CancelBooking
  unfoldable pub cancel :
      CancelEnv s → Headers → Option ℕ → World s → Response BookingResponse × World s
  unfolding unauthorized forbidden bad_request not_found internal_error
  cancel e h id w =
      let (user, role) = extract_auth h in
      if user == 0
      then (unauthorized, w)
      else if not (same_text role "user")
      then (forbidden, w)
      else cancel_parsed e user id w

abbrev my_response : Result Error (List BookingResponse) → Response (List BookingResponse)
my_response (ok bs) = json 200 bs
my_response (err _) = internal_error

-- Handler.MyBookings
unfoldable pub my_bookings : Bool → ℕ → Headers → Db → Response (List BookingResponse)
unfolding unauthorized forbidden internal_error
my_bookings fails now h db =
    let (user, role) = extract_auth h in
    if user == 0
    then unauthorized
    else if not (same_text role "user")
    then forbidden
    else my_response (get_my_bookings fails now user db)

-- n < 1, and n > bound
abbrev below_one : ℤ → Bool
below_one (pos n) = ltb n 1
below_one (negsuc n) = true

abbrev above : ℕ → ℤ → Bool
above bound (pos n) = ltb bound n
above bound (negsuc n) = false

pub record Page : Type 0 where
  pub bookings : List BookingResponse
  pub page : ℤ
  pub page_size : ℤ
  pub total : ℕ

abbrev list_response : ℤ → ℤ → Result Error (List BookingResponse × ℕ) → Response Page
list_response page size (ok (bs, n)) =
    json 200 (record { bookings = bs; page = page; page_size = size; total = n })
list_response page size (err _) = internal_error

-- Handler.ListBookings
unfoldable pub list : Bool → Bool → Headers → Chars → Chars → Db → Response Page
unfolding forbidden bad_request internal_error
list count_fails query_fails h page_text size_text db =
    let (_, role) = extract_auth h in
    let page = query_int page_text (pos 1) in
    let size = query_int size_text (pos 20) in
    if not (same_text role "admin")
    then forbidden
    else if below_one page || below_one size || above 100 size
    then bad_request
    else list_response page size (list_bookings count_fails query_fails page size db)
