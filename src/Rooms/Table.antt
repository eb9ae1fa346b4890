-- ===== src/Rooms/Table.antt =====
-- services/room-service/internal/repository/room.go and migrations: the table `rooms` of room_db.
use room_booking_platform.Base.{
  ℕ, ◌^◌, String, Bool, true, false, ◌&&◌, Option, none, some, List, [], ◌∷◌, ◌++◌, Result, ok, err,
  Exec, done, failed, lost, ltb, leb, ◌==◌, if◌then◌else◌, take, find, exists,
}
use room_booking_platform.Text.{ℤ, pos, negsuc}

pub record Room : Type 0 where
  pub id : ℕ
  pub name : String
  pub description : Option String
  pub capacity : Option ℤ
  pub created_by : ℕ
  pub created_at : ℕ
  pub updated_at : ℕ

abbrev pub Db : Type 0
Db = List Room

pub data Error : Type 0 where
  room_not_found database : Error

abbrev pub has_id : ℕ → Room → Bool
has_id id r = r.id == id

-- INT CHECK (capacity > 0), of 32 bits
abbrev pub is_capacity : Option ℤ → Bool
is_capacity none = true
is_capacity (some (pos n)) = ltb 0 n && ltb n (2 ^ 31)
is_capacity (some (negsuc n)) = false

insert_room : Room → Db → Result Error Room × Db
insert_room r db =
    if exists (has_id r.id) db
    then (err database, db)
    else if is_capacity r.capacity
    then (ok r, db ++ r ∷ [])
    else (err database, db)

abbrev pub new_room : ℕ → ℕ → String → Option String → Option ℤ → ℕ → Room
new_room id now name description capacity created_by = record {
  id = id;
  name = name;
  description = description;
  capacity = capacity;
  created_by = created_by;
  created_at = now;
  updated_at = now;
}

-- Create, with the UUID that it makes and the clock of the database
unfoldable pub create :
    Exec → ℕ → ℕ → String → Option String → Option ℤ → ℕ → Db → Result Error Room × Db
unfolding insert_room
create done id now name description capacity created_by db =
    insert_room (new_room id now name description capacity created_by) db
create failed id now name description capacity created_by db = (err database, db)
create lost id now name description capacity created_by db =
    (err database, (insert_room (new_room id now name description capacity created_by) db).1)

-- ORDER BY created_at
abbrev pub insert_by_creation : Room → List Room → List Room
insert_by_creation r [] = r ∷ []
insert_by_creation r (q ∷ qs) =
    if leb r.created_at q.created_at then r ∷ q ∷ qs else q ∷ insert_by_creation r qs

abbrev pub order_by_creation : List Room → List Room
order_by_creation [] = []
order_by_creation (r ∷ rs) = insert_by_creation r (order_by_creation rs)

-- How a query for rows ends: refused, broken off after some rows, or read to its end.
pub data Fetch : Type 0 where
  refused whole : Fetch
  cut : ℕ → Fetch

-- List. The error that breaks a query off is left in rows.Err(), which it does not read.
unfoldable pub list : Fetch → Db → Result Error (List Room)
list refused db = err database
list whole db = ok (order_by_creation db)
list (cut n) db = ok (take n (order_by_creation db))

abbrev pub found : Option Room → Result Error Room
found none = err room_not_found
found (some r) = ok r

-- GetByID
unfoldable pub get_by_id : Bool → ℕ → Db → Result Error Room
get_by_id fails id db = if fails then err database else found (find (has_id id) db)
