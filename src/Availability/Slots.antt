-- ===== src/Availability/Slots.antt =====
-- repository.go: reading, reserving and releasing slots.
use room_booking_platform.Base.{
  ℕ, ◌+◌, Bool, true, false, ◌&&◌, Option, none, some, List, [], ◌∷◌, Result, ok, err, Exec, done,
  failed, lost, Commit, acked, rolled_back, unknown, ltb, leb, ◌==◌, if◌then◌else◌, select, find,
  update,
}
use room_booking_platform.Clock.{midnight, day}
use room_booking_platform.Availability.Tables.{
  Status, free, booked, Slot, SlotMeta, Db, Error, slot_not_found, slot_booked, slot_in_past,
  database, has_id,
}

abbrev pub is_free : Status → Bool
is_free free = true
is_free booked = false

abbrev pub holds : ℕ → Option ℕ → Bool
holds b none = false
holds b (some c) = c == b

-- Where the database may refuse a call of `book_slot`.
pub record BookFaults : Type 0 where
  pub begin_fails : Bool
  pub select_fails : Bool
  pub update_fails : Bool
  pub commit : Commit

abbrev pub no_faults : BookFaults
no_faults = record {
  begin_fails = false;
  select_fails = false;
  update_fails = false;
  commit = acked;
}

abbrev pub meta_of : Slot → SlotMeta
meta_of s = record {
  slot = s.id;
  room = s.room;
  start_at = s.start_at;
  end_at = s.end_at;
  status = booked;
}

-- UPDATE slots SET status = 'booked', current_booking_id = $1 WHERE id = $2
abbrev pub mark_booked : ℕ → ℕ → Db → Db
mark_booked slot booking db = record db {
  slots = update (has_id slot) (λ s. record s { status = booked; booking = some booking }) db.slots;
}

abbrev finish_book : Commit → Slot → Db → Db → Result Error SlotMeta × Db
finish_book acked s old new = (ok (meta_of s), new)
finish_book rolled_back s old new = (err database, old)
finish_book (unknown applied) s old new = (err database, if applied then new else old)

book_found : BookFaults → ℕ → ℕ → ℕ → Db → Option Slot → Result Error SlotMeta × Db
book_found f now slot booking db none = (err slot_not_found, db)
book_found f now slot booking db (some s) =
    if ltb s.start_at now
    then (err slot_in_past, db)
    else if is_free s.status
    then (if f.update_fails
        then (err database, db)
        else finish_book f.commit s db (mark_booked slot booking db))
    else (err slot_booked, db)

-- BookSlot: the row is locked from the SELECT to the end of the transaction.
unfoldable pub book_slot : BookFaults → ℕ → ℕ → ℕ → Db → Result Error SlotMeta × Db
unfolding book_found
book_slot f now slot booking db =
    if f.begin_fails
    then (err database, db)
    else if f.select_fails
    then (err database, db)
    else book_found f now slot booking db (find (has_id slot) db.slots)

abbrev pub is_booked_by : ℕ → ℕ → Slot → Bool
is_booked_by slot booking s =
    s.id == slot && holds booking s.booking && (if is_free s.status then false else true)

-- UPDATE slots SET status = 'free', current_booking_id = NULL WHERE id = $1 AND …
abbrev pub mark_free : ℕ → ℕ → Db → Db
mark_free slot booking db = record db {
  slots =
      update (is_booked_by slot booking) (λ s. record s { status = free; booking = none }) db.slots;
}

-- ReleaseSlot
unfoldable pub release_slot : Exec → ℕ → ℕ → Db → Result Error (Unit {0}) × Db
release_slot done slot booking db = (ok tt, mark_free slot booking db)
release_slot failed slot booking db = (err database, db)
release_slot lost slot booking db = (err database, mark_free slot booking db)

abbrev found_slot : Option Slot → Result Error Slot
found_slot none = err slot_not_found
found_slot (some s) = ok s

-- GetSlotByID
unfoldable pub get_slot_by_id : Bool → ℕ → Db → Result Error Slot
get_slot_by_id fails slot db =
    if fails then err database else found_slot (find (has_id slot) db.slots)

-- ORDER BY start_at
abbrev pub insert_by_start : Slot → List Slot → List Slot
insert_by_start s [] = s ∷ []
insert_by_start s (t ∷ ts) =
    if leb s.start_at t.start_at then s ∷ t ∷ ts else t ∷ insert_by_start s ts

abbrev pub order_by_start : List Slot → List Slot
order_by_start [] = []
order_by_start (s ∷ ss) = insert_by_start s (order_by_start ss)

abbrev pub is_free_on : ℕ → ℕ → Slot → Bool
is_free_on room date s =
    s.room == room
    && leb (midnight date) s.start_at
    && ltb s.start_at (midnight date + day)
    && is_free s.status

-- GetFreeSlots
unfoldable pub get_free_slots : Bool → ℕ → ℕ → Db → Result Error (List Slot)
get_free_slots fails room date db =
    if fails then err database else ok (order_by_start (select (is_free_on room date) db.slots))
