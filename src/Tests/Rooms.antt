-- ===== src/Tests/Rooms.antt =====
-- The theorems on rooms, and on a schedule for a room.
use room_booking_platform.Base.{
  ℕ, ◌≡◌, ◌<◌, List, length, take, refl, true, false, none, some, [], ◌∷◌, is_ok, Exec, find, ◌+◌,
}
use mathlib.Core.List.{Perm}
use room_booking_platform.Text.{pos}
use room_booking_platform.Http.{json, decode_json, status_of}
use room_booking_platform.Rooms.Table
use room_booking_platform.Rooms.Table.{Room, Db, create, get_by_id, has_id, new_room}
use room_booking_platform.Rooms.Handler.{CreateRoomRequest, create_room, list_rooms}
use room_booking_platform.Rooms.Existence.{
  IsOrdered, CreatedRoom, create_room-CreatedRoom, list_rooms_short,
}
use room_booking_platform.Availability.Service.{CreateEnv, CreateScheduleRequest}
use room_booking_platform.Availability.Service
use room_booking_platform.Availability.Tables.{TimeColumn}
use room_booking_platform.Clock.{hhmm}
use room_booking_platform.Platform.Rooms.{room_reply, create_room_exists}
use room_booking_platform.Tests.Reservations.{two_slots}

abbrev asks : CreateRoomRequest
asks = record { name = "Blue"; description = none; capacity = some (pos 4) }

abbrev blue : Room
blue = new_room 7 0 "Blue" none (some (pos 4)) 6

create_room-CreatedRoom_example : CreatedRoom 7 6 asks blue [] (blue ∷ [])
unfolding create_room create decode_json
create_room-CreatedRoom_example =
    create_room-CreatedRoom Exec.done 7 0 6 asks blue [] (blue ∷ []) refl

abbrev request : CreateScheduleRequest
request = record {
  id = none;
  room = 7;
  days = pos 1 ∷ [];
  start_time = b'9' ∷ b':' ∷ b'0' ∷ b'0' ∷ [];
  end_time = b'1' ∷ b'1' ∷ b':' ∷ b'3' ∷ b'0' ∷ [];
}

-- room-service is asked about room 7.
abbrev asked : Db → CreateEnv
asked rooms = record {
  room_reply = room_reply false 7 rooms;
  new_id = 5;
  insert = Exec.done;
  now = 0;
  generation = record { new_id = λ t. t + 100; insert = λ t. Exec.done };
  upsert = Exec.done;
}

abbrev times : TimeColumn
times = record { time_in = λ s. some 0; time_out = λ t. hhmm 0 }

create_room_exists_example :
    (is_ok (Service.create times (asked []) 7 request two_slots).0 ≡ true
      → (r : Room) × (find (has_id 7) [] ≡ some r))
    × (find (has_id 7) [] ≡ none
        → (is_ok (Service.create times (asked []) 7 request two_slots).0 ≡ false)
          × ((Service.create times (asked []) 7 request two_slots).1 ≡ two_slots))
create_room_exists_example = create_room_exists times (asked []) false 7 request [] two_slots refl

list_rooms_short_example :
    (status_of (list_rooms Table.Fetch.refused (blue ∷ [])) ≡ 500)
    × ((rs : List Room) × (list_rooms Table.Fetch.whole (blue ∷ []) ≡ json 200 rs)
        × Perm rs (blue ∷ [])
        × IsOrdered rs
        × ((n : ℕ)
            → n < length (blue ∷ [])
            → (list_rooms (Table.Fetch.cut n) (blue ∷ []) ≡ json 200 (take n rs))
              × (length (take n rs) ≡ n)))
list_rooms_short_example = list_rooms_short (blue ∷ [])
