-- ===== src/Availability/Handler.antt =====
-- services/availability-service/internal/handler/handler.go. A path parameter is the UUID that
-- uuid.Parse read in it, if any; a body is what the JSON decoder finds in it.
use room_booking_platform.Base.{
  ℕ, Bool, Option, none, some, List, Result, ok, err, Exec, if◌then◌else◌,
}
use room_booking_platform.Http.{
  Response, json, Item, decode_json, bad_request, not_found, conflict, internal_error,
}
use room_booking_platform.Availability.Tables.{Slot, SlotMeta, Schedule, Db, TimeColumn}
use room_booking_platform.Availability.Tables
use room_booking_platform.Availability.Slots.{BookFaults}
use room_booking_platform.Availability.Service.{
  Error, invalid_request, schedule_exists, room_not_found, failed, CreateScheduleRequest, CreateEnv,
  ListEnv, create, list_free, book, release, get_slot,
}

-- The body of the two internal calls on a slot.
pub record SlotRequest : Type 0 where
  pub slot : ℕ
  pub booking : ℕ

abbrev schedule_response : Result Error Schedule × Db → Response Schedule × Db
schedule_response (ok s, db) = (json 201 s, db)
schedule_response (err invalid_request, db) = (bad_request, db)
schedule_response (err schedule_exists, db) = (conflict "SCHEDULE_EXISTS", db)
schedule_response (err room_not_found, db) = (not_found "ROOM_NOT_FOUND", db)
schedule_response (err failed, db) = (internal_error, db)

abbrev create_decoded :
    TimeColumn → CreateEnv → ℕ → Option CreateScheduleRequest → Db → Response Schedule × Db
create_decoded t e room none db = (bad_request, db)
create_decoded t e room (some req) db = schedule_response (create t e room req db)

-- Handler.CreateSchedule
unfoldable pub create_schedule :
    TimeColumn
    → CreateEnv
    → Option ℕ
    → Item CreateScheduleRequest
    → Item (Unit {0})
    → Db
    → Response Schedule × Db
unfolding bad_request conflict not_found internal_error
create_schedule t e none first rest db = (bad_request, db)
create_schedule t e (some room) first rest db = create_decoded t e room (decode_json first rest) db

abbrev slots_response : Result Error (List Slot) → Response (List Slot)
slots_response (ok slots) = json 200 slots
slots_response (err invalid_request) = bad_request
slots_response (err room_not_found) = not_found "ROOM_NOT_FOUND"
slots_response (err schedule_exists) = internal_error
slots_response (err failed) = internal_error

-- Handler.ListSlots; `given` tells whether the date parameter is there, and `date` how it is read.
unfoldable pub list_slots :
    TimeColumn → ListEnv → Option ℕ → Bool → Option ℕ → Db → Response (List Slot)
unfolding bad_request not_found internal_error
list_slots t e none given date db = bad_request
list_slots t e (some room) given date db =
    if given then slots_response (list_free t e room date db) else bad_request

abbrev pub book_response : Result Tables.Error SlotMeta × Db → Response SlotMeta × Db
book_response (ok m, db) = (json 200 m, db)
book_response (err Tables.Error.slot_not_found, db) = (not_found "SLOT_NOT_FOUND", db)
book_response (err Tables.Error.slot_in_past, db) = (bad_request, db)
book_response (err Tables.Error.slot_booked, db) = (conflict "SLOT_ALREADY_BOOKED", db)
book_response (err _, db) = (internal_error, db)

abbrev book_decoded : BookFaults → ℕ → Option SlotRequest → Db → Response SlotMeta × Db
book_decoded f now none db = (bad_request, db)
book_decoded f now (some req) db = book_response (book f now req.slot req.booking db)

-- Handler.BookSlot
unfoldable pub book_slot :
    BookFaults → ℕ → Item SlotRequest → Item (Unit {0}) → Db → Response SlotMeta × Db
unfolding bad_request conflict not_found internal_error
book_slot f now first rest db = book_decoded f now (decode_json first rest) db

abbrev pub release_response : Result Tables.Error (Unit {0}) × Db → Response (Unit {0}) × Db
release_response (ok _, db) = (json 200 tt, db)
release_response (err _, db) = (internal_error, db)

abbrev release_decoded : Exec → Option SlotRequest → Db → Response (Unit {0}) × Db
release_decoded f none db = (bad_request, db)
release_decoded f (some req) db = release_response (release f req.slot req.booking db)

-- Handler.ReleaseSlot
unfoldable pub release_slot :
    Exec → Item SlotRequest → Item (Unit {0}) → Db → Response (Unit {0}) × Db
unfolding bad_request internal_error
release_slot f first rest db = release_decoded f (decode_json first rest) db

abbrev slot_response : Result Tables.Error Slot → Response Slot
slot_response (ok s) = json 200 s
slot_response (err Tables.Error.slot_not_found) = not_found "SLOT_NOT_FOUND"
slot_response (err _) = internal_error

-- Handler.GetSlot
unfoldable pub show_slot : Bool → Option ℕ → Db → Response Slot
unfolding bad_request not_found internal_error
show_slot fails none db = bad_request
show_slot fails (some slot) db = slot_response (get_slot fails slot db)
