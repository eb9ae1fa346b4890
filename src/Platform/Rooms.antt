-- ===== src/Platform/Rooms.antt =====
-- CreateSchedule of availability-service with the answer that room-service gives to its request.
use room_booking_platform.Base.{
  ℕ, ◌≡◌, refl, Bool, true, false, Option, none, some, find, arith, inl, inr, Bool-cases, is_ok,
}
use room_booking_platform.Http.{status_of, bad_request, not_found, internal_error}
use room_booking_platform.Rooms.Table.{Room, has_id, found, get_by_id}
use room_booking_platform.Rooms.Table
use room_booking_platform.Rooms.Handler.{get_room, room_response}
use room_booking_platform.Availability.Tables.{Schedule, TimeColumn}
use room_booking_platform.Availability.Tables
use room_booking_platform.Availability.Service.{
  RoomReply, CreateScheduleRequest, CreateEnv, check_room_exists, validate, create,
}

-- checkRoomExists, served by room-service.
abbrev pub room_reply : Bool → ℕ → Table.Db → RoomReply
room_reply fails room rooms = RoomReply.status (status_of (get_room fails (some room) rooms))

validate_room :
    (reply : RoomReply) (room : ℕ) (req : CreateScheduleRequest)
    → is_ok (validate reply room req) ≡ true
    → is_ok (check_room_exists reply) ≡ true
unfolding validate
validate_room reply room req h = ground arith

reply_found :
    (room : ℕ) (o : Option Room)
    → is_ok (check_room_exists (RoomReply.status (status_of (room_response (found o))))) ≡ true
    → (r : Room) × (o ≡ some r)
unfolding check_room_exists bad_request not_found internal_error
reply_found room none h = cc
reply_found room (some r) h = (r, refl)

reply_room :
    (fails : Bool) (room : ℕ) (rooms : Table.Db)
    → is_ok (check_room_exists (room_reply fails room rooms)) ≡ true
    → (r : Room) × (find (has_id room) rooms ≡ some r)
unfolding get_room get_by_id check_room_exists internal_error
reply_room true room rooms h = cc
reply_room false room rooms h = reply_found room (find (has_id room) rooms) h

create_ok :
    (t : TimeColumn) (e : CreateEnv) (room : ℕ) (req : CreateScheduleRequest) (db : Tables.Db)
    → is_ok (create t e room req db).0 ≡ true
    → is_ok (validate e.room_reply room req) ≡ true
unfolding create
create_ok t e room req db h = ground arith

create_err :
    (t : TimeColumn) (e : CreateEnv) (room : ℕ) (req : CreateScheduleRequest) (db : Tables.Db)
    → is_ok (validate e.room_reply room req) ≡ false
    → (is_ok (create t e room req db).0 ≡ false) × ((create t e room req db).1 ≡ db)
unfolding create
create_err t e room req db h = ground arith

module _ (t : TimeColumn) (e : CreateEnv) (fails : Bool) (room : ℕ) (req : CreateScheduleRequest)
    (rooms : Table.Db) (db : Tables.Db) (asked : e.room_reply ≡ room_reply fails room rooms) where
  found_room :
      is_ok (create t e room req db).0 ≡ true → (r : Room) × (find (has_id room) rooms ≡ some r)
  found_room h =
      reply_room fails room rooms
        (rw (← asked) (validate_room e.room_reply room req (create_ok t e room req db h)))

  -- For a CreateSchedule of availability-service whose check of the room is answered by
  -- room-service, as its table stands and whether or not its query fails: if the CreateSchedule
  -- succeeds, the table has a row for the room; and if the table has none, the answer is an error
  -- and availability_db stays as it was.
  pub create_room_exists :
      (is_ok (create t e room req db).0 ≡ true → (r : Room) × (find (has_id room) rooms ≡ some r))
      × (find (has_id room) rooms ≡ none
          → (is_ok (create t e room req db).0 ≡ false) × ((create t e room req db).1 ≡ db))
  create_room_exists = (
    found_room,
    λ gone. elim (Bool-cases (is_ok (validate e.room_reply room req))) [
      | inl y ↦
          let (r, there) =
            reply_room fails room rooms (rw (← asked) (validate_room e.room_reply room req y)) in
          cc
      | inr n ↦ create_err t e room req db n
    ],
  )
