-- ===== src/Rooms/Handler.antt =====
-- services/room-service/internal/handler/handler.go. A path parameter is the UUID that uuid.Parse
-- read in it, if any; a body is what the JSON decoder finds in it.
use room_booking_platform.Base.{
  ℕ, String, Bool, true, false, Option, none, some, List, Result, ok, err, Exec, ltb, if◌then◌else◌,
  same_text,
}
use room_booking_platform.Text.{ℤ, pos, negsuc}
use room_booking_platform.Http.{
  Response, json, Item, decode_json, bad_request, unauthorized, not_found, internal_error,
}
use room_booking_platform.Rooms.Table.{
  Room, Db, Error, Fetch, room_not_found, database, create, get_by_id,
}
use room_booking_platform.Rooms.Table

-- The header X-User-ID: empty or missing, a text that is no UUID, or a UUID.
pub data UserHeader : Type 0 where
  missing unreadable : UserHeader
  user : ℕ → UserHeader

pub record CreateRoomRequest : Type 0 where
  pub name : String
  pub description : Option String
  pub capacity : Option ℤ

-- `req.Capacity != nil && *req.Capacity <= 0`
abbrev not_positive : Option ℤ → Bool
not_positive none = false
not_positive (some (pos n)) = if ltb 0 n then false else true
not_positive (some (negsuc n)) = true

abbrev create_response : Result Error Room × Db → Response Room × Db
create_response (ok r, db) = (json 201 r, db)
create_response (err _, db) = (internal_error, db)

abbrev create_decoded : Exec → ℕ → ℕ → ℕ → Option CreateRoomRequest → Db → Response Room × Db
create_decoded f id now caller none db = (bad_request, db)
create_decoded f id now caller (some req) db =
    if same_text req.name ""
    then (bad_request, db)
    else if not_positive req.capacity
    then (bad_request, db)
    else create_response (create f id now req.name req.description req.capacity caller db)

-- Handler.CreateRoom
unfoldable pub create_room :
    Exec → ℕ → ℕ → UserHeader → Item CreateRoomRequest → Item (Unit {0}) → Db → Response Room × Db
unfolding unauthorized bad_request internal_error
create_room f id now missing first rest db = (unauthorized, db)
create_room f id now unreadable first rest db = (bad_request, db)
create_room f id now (user u) first rest db = create_decoded f id now u (decode_json first rest) db

abbrev list_response : Result Error (List Room) → Response (List Room)
list_response (ok rs) = json 200 rs
list_response (err _) = internal_error

-- Handler.ListRooms
unfoldable pub list_rooms : Fetch → Db → Response (List Room)
unfolding internal_error
list_rooms f db = list_response (Table.list f db)

abbrev pub room_response : Result Error Room → Response Room
room_response (ok r) = json 200 r
room_response (err room_not_found) = not_found "ROOM_NOT_FOUND"
room_response (err database) = internal_error

-- Handler.GetRoom
unfoldable pub get_room : Bool → Option ℕ → Db → Response Room
unfolding bad_request not_found internal_error
get_room fails none db = bad_request
get_room fails (some id) db = room_response (get_by_id fails id db)
