-- ===== src/Rooms/Existence.antt =====
-- What becomes of a room: it is created once, it is found and listed from then on, and a schedule is
-- made only for a room that is there.
use room_booking_platform.Base.{
  ℕ, zero, suc, ◌<◌, ◌≤◌, ◌≡◌, refl, inl, inr, ◌≢◌, ap, ◌∙◌, Bool, true, false, none, some, List,
  [], ◌∷◌, ◌++◌, Exec, take, length, find, exists, find-append, arith, All, All-map, AllPairs, leb,
  Bool-cases,
}
use mathlib.Core.List.{Perm}
use mathlib.Core.List.Perm
use room_booking_platform.Http.{
  json, status_of, Item, value, end, decode_json, bad_request, unauthorized, internal_error,
}
use room_booking_platform.Rooms.Table.{
  Room, Db, Error, Fetch, has_id, create, new_room, get_by_id, insert_by_creation,
  order_by_creation,
}
use room_booking_platform.Rooms.Table
use room_booking_platform.Rooms.Handler.{
  UserHeader, CreateRoomRequest, create_room, list_rooms, get_room,
}

-- A row that is in a list of rows.
abbrev pub is_listed : ℕ → List Room → Bool
is_listed id rs = exists (has_id id) rs

find-snoc :
    (r : Room) (db : Db)
    → exists (has_id r.id) db ≡ false
    → find (has_id r.id) (db ++ r ∷ []) ≡ some r
find-snoc r [] h = ground arith
find-snoc r (q ∷ db) h = ground (arith, find-snoc r db)

listed-insert :
    (id : ℕ) (r : Room) (rs : List Room)
    → is_listed id (insert_by_creation r rs) ≡ is_listed id (r ∷ rs)
listed-insert id r [] = refl
listed-insert id r (q ∷ qs) = ground (arith, listed-insert id r qs)

listed-order : (id : ℕ) (rs : List Room) → is_listed id (order_by_creation rs) ≡ is_listed id rs
listed-order id [] = refl
listed-order id (r ∷ rs) =
    ground (arith, listed-insert id r (order_by_creation rs), listed-order id rs)

find_listed : (id : ℕ) (r : Room) (db : Db) → find (has_id id) db ≡ some r → is_listed id db ≡ true
find_listed id r [] h = cc
find_listed id r (q ∷ db) h = ground (arith, find_listed id r db)

-- What a CreateRoom with status 201 has done.
pub record CreatedRoom (id user : ℕ) (req : CreateRoomRequest) (room : Room) (db db' : Db)
    : Type 0 where
  pub row : (room.id ≡ id) × (room.name ≡ req.name) × (room.created_by ≡ user)
  pub fresh : find (has_id id) db ≡ none
  pub here : get_room false (some id) db' ≡ json 200 room
  pub listed :
      (rs : List Room) × (list_rooms Table.Fetch.whole db' ≡ json 200 rs) × (is_listed id rs ≡ true)
  pub others : (j : ℕ) (r : Room) → find (has_id j) db ≡ some r → find (has_id j) db' ≡ some r

find-none : (id : ℕ) (db : Db) → exists (has_id id) db ≡ false → find (has_id id) db ≡ none
find-none id [] h = refl
find-none id (r ∷ db) h = ground (arith, find-none id db)

create_shape :
    (f : Exec) (id now user : ℕ) (req : CreateRoomRequest) (room : Room) (db db' : Db)
    → create_room f id now (UserHeader.user user) (value req) end db ≡ (json 201 room, db')
    → let r = new_room id now req.name req.description req.capacity user in
      (room ≡ r) × (exists (has_id id) db ≡ false) × (db' ≡ db ++ r ∷ [])
unfolding create_room create decode_json
create_shape f id now user req room db db' h = ground arith

created_CreatedRoom :
    (id now user : ℕ) (req : CreateRoomRequest) (db : Db)
    → exists (has_id id) db ≡ false
    → CreatedRoom id user req
        (new_room id now req.name req.description req.capacity user)
        db
        (db ++ new_room id now req.name req.description req.capacity user ∷ [])
unfolding get_room get_by_id list_rooms Table.list
created_CreatedRoom id now user req db h =
    let r = new_room id now req.name req.description req.capacity user in
    let at = find-snoc r db h in
    record {
      row = (refl, refl, refl);
      fresh = find-none id db h;
      here = rw at refl;
      listed = (
        order_by_creation (db ++ r ∷ []),
        refl,
        listed-order id (db ++ r ∷ []) ∙ find_listed id r (db ++ r ∷ []) at,
      );
      others = λ j q e. find-append (has_id j) db (r ∷ []) q e;
    }

-- A CreateRoom of a user that answers 201 has found no room with the new id; the room is stored
-- under that id with the name asked for and the user as its creator, it is answered by GetRoom, and it
-- is in the list of ListRooms if the query for it is read to its end; and every room that was there
-- is still found.
pub create_room-CreatedRoom :
    (f : Exec) (id now user : ℕ) (req : CreateRoomRequest) (room : Room) (db db' : Db)
    → create_room f id now (UserHeader.user user) (value req) end db ≡ (json 201 room, db')
    → CreatedRoom id user req room db db'
create_room-CreatedRoom f id now user req room db db' h =
    let (same, fresh, after) = create_shape f id now user req room db db' h in
    rw (same, after) (created_CreatedRoom id now user req db fresh)

-- A CreateRoom that answers with a status other than 201 and 500 leaves the rooms as they were.
pub create_room_refused :
    (f : Exec) (id now : ℕ) (h : UserHeader) (first : Item CreateRoomRequest)
    (rest : Item (Unit {0})) (db : Db)
    → status_of (create_room f id now h first rest db).0 ≢ 201
    → status_of (create_room f id now h first rest db).0 ≢ 500
    → (create_room f id now h first rest db).1 ≡ db
unfolding create_room create unauthorized bad_request internal_error
create_room_refused f id now h first rest db n m = ground arith

length-insert : (r : Room) (rs : List Room) → length (insert_by_creation r rs) ≡ suc (length rs)
length-insert r [] = refl
length-insert r (q ∷ qs) = ground (arith, length-insert r qs)

length-order : (rs : List Room) → length (order_by_creation rs) ≡ length rs
length-order [] = refl
length-order (r ∷ rs) = length-insert r (order_by_creation rs) ∙ ap suc (length-order rs)

length-take_lt : (n : ℕ) (rs : List Room) → n < length rs → length (take n rs) ≡ n
length-take_lt zero rs h = ground arith
length-take_lt (suc n) [] h = absurd (omega arith)
length-take_lt (suc n) (r ∷ rs) h = ap suc (length-take_lt n rs (omega arith))

insert-Perm : (r : Room) (rs : List Room) → Perm (insert_by_creation r rs) (r ∷ rs)
insert-Perm r [] = Perm.refl (r ∷ [])
insert-Perm r (q ∷ qs) = elim (Bool-cases (leb r.created_at q.created_at)) [
  | inl y ↦ rw y (Perm.refl (r ∷ q ∷ qs))
  | inr n ↦ rw n (Perm.trans (Perm.cons q (insert-Perm r qs)) (Perm.swap r q qs))
]

order-Perm : (rs : List Room) → Perm (order_by_creation rs) rs
order-Perm [] = Perm.refl []
order-Perm (r ∷ rs) =
    Perm.trans (insert-Perm r (order_by_creation rs)) (Perm.cons r (order-Perm rs))

-- The older rooms come first.
abbrev pub IsOrdered : List Room → Type 0
IsOrdered rs = AllPairs (λ r q. r.created_at ≤ q.created_at) rs

All-insert :
    (bound : ℕ) (r : Room) (rs : List Room)
    → bound ≤ r.created_at
    → All (λ q. bound ≤ q.created_at) rs
    → All (λ q. bound ≤ q.created_at) (insert_by_creation r rs)
All-insert bound r [] h all = (h, tt)
All-insert bound r (q ∷ qs) h all = ground (arith, All-insert bound r qs h, all.0, all.1)

insert-IsOrdered : (r : Room) (rs : List Room) → IsOrdered rs → IsOrdered (insert_by_creation r rs)
insert-IsOrdered r [] h = (tt, tt)
insert-IsOrdered r (q ∷ qs) h = elim (Bool-cases (leb r.created_at q.created_at)) [
  | inl y ↦
      let below : r.created_at ≤ q.created_at = ground arith in
      rw y ((below, All-map _ _ (λ x at. omega arith) qs h.0), h)
  | inr n ↦
      let above : q.created_at ≤ r.created_at = ground arith in
      rw n (All-insert q.created_at r qs above h.0, insert-IsOrdered r qs h.1)
]

order-IsOrdered : (rs : List Room) → IsOrdered (order_by_creation rs)
order-IsOrdered [] = tt
order-IsOrdered (r ∷ rs) = insert-IsOrdered r (order_by_creation rs) (order-IsOrdered rs)

-- ListRooms answers 500 if its query is refused. If the query is read to its end, the answer is 200
-- with exactly the rooms of the table, the older ones first; but if the query breaks off after `n`
-- rows, fewer than there are rooms, the answer is 200 all the same, with the first `n` of them.
pub list_rooms_short :
    (db : Db)
    → (status_of (list_rooms Table.Fetch.refused db) ≡ 500)
      × ((rs : List Room) × (list_rooms Table.Fetch.whole db ≡ json 200 rs)
          × Perm rs db
          × IsOrdered rs
          × ((n : ℕ)
              → n < length db
              → (list_rooms (Table.Fetch.cut n) db ≡ json 200 (take n rs))
                × (length (take n rs) ≡ n)))
unfolding list_rooms Table.list internal_error
list_rooms_short db = (
  refl,
  (
    order_by_creation db,
    refl,
    order-Perm db,
    order-IsOrdered db,
    λ n h.
        let all = length-order db in (refl, length-take_lt n (order_by_creation db) (omega arith)),
  ),
)
