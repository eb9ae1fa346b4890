-- ===== src/Availability/Offers.antt =====
-- What GetFreeSlots offers.
use room_booking_platform.Base.{
  ℕ, ◌+◌, ◌≤◌, ◌<◌, ◌≡◌, Bool, true, false, some, List, [], ◌∷◌, Result, ok, err, ltb, select, All,
  All-map, All-zip, All-select, select_passes, arith,
}
use mathlib.Core.Path.{subst}
use room_booking_platform.Clock.{day, midnight}
use room_booking_platform.Availability.Tables.{Slot, Schedule, Db, free, TimeColumn}
use room_booking_platform.Availability.Tables
use room_booking_platform.Availability.Slots.{
  is_free_on, insert_by_start, order_by_start, get_free_slots,
}
use room_booking_platform.Availability.Schedules.{get_schedule_by_room_id}
use room_booking_platform.Availability.Service.{ListEnv, future, list_of_schedule, list_free}

-- A free slot of the room, on the date, that has not begun.
pub record IsOffer (room date now : ℕ) (s : Slot) : Type 0 where
  pub of_room : s.room ≡ room
  pub on_date : (midnight date ≤ s.start_at) × (s.start_at < midnight date + day)
  pub is_free : s.status ≡ free
  pub upcoming : now < s.start_at

module _ {κ} (P : Slot → Type κ) where
  All-insert_by_start : (s : Slot) (ss : List Slot) → P s → All P ss → All P (insert_by_start s ss)
  All-insert_by_start s [] p h = (p, tt)
  All-insert_by_start s (t ∷ ts) p h = ground (arith, p, All-insert_by_start s ts p h.1)

  All-order_by_start : (ss : List Slot) → All P ss → All P (order_by_start ss)
  All-order_by_start [] h = tt
  All-order_by_start (s ∷ ss) h =
      All-insert_by_start s (order_by_start ss) h.0 (All-order_by_start ss h.1)

is_offer :
    (room date now : ℕ) (s : Slot)
    → is_free_on room date s ≡ true
    → ltb now s.start_at ≡ true
    → IsOffer room date now s
is_offer room date now s h k = ground arith

future_offers :
    (now room date : ℕ) (fails : Bool) (db : Db) (slots : List Slot)
    → future now (get_free_slots fails room date db) ≡ ok slots
    → All (IsOffer room date now) slots
unfolding get_free_slots
future_offers now room date true db slots h = cc
future_offers now room date false db slots h =
    let found = order_by_start (select (is_free_on room date) db.slots) in
    let passes =
      All-order_by_start (λ s. is_free_on room date s ≡ true)
        (select (is_free_on room date) db.slots) (select_passes (is_free_on room date) db.slots) in
    let kept =
      All-zip _ _ (select (λ s. ltb now s.start_at) found)
        (All-select _ (λ s. ltb now s.start_at) found passes)
        (select_passes (λ s. ltb now s.start_at) found) in
    let same : select (λ s. ltb now s.start_at) found ≡ slots = cc in
    subst (All (IsOffer room date now)) same (
      All-map _ _ (λ s p. is_offer room date now s p.0 p.1) (select (λ s. ltb now s.start_at) found)
        kept)

schedule_offers :
    (e : ListEnv) (room date : ℕ) (db : Db) (r : Result Tables.Error Schedule) (slots : List Slot)
    → list_of_schedule e room date db r ≡ ok slots
    → All (IsOffer room date e.now) slots
schedule_offers e room date db (ok s) slots h =
    future_offers e.now room date e.query_fails db slots h
schedule_offers e room date db (err Tables.Error.schedule_not_found) slots h =
    let same : [] ≡ slots = cc in subst (All (IsOffer room date e.now)) same tt
schedule_offers e room date db (err Tables.Error.schedule_exists) slots h = cc
schedule_offers e room date db (err Tables.Error.slot_not_found) slots h = cc
schedule_offers e room date db (err Tables.Error.slot_booked) slots h = cc
schedule_offers e room date db (err Tables.Error.slot_in_past) slots h = cc
schedule_offers e room date db (err Tables.Error.bad_time) slots h = cc
schedule_offers e room date db (err Tables.Error.database) slots h = cc

listed :
    (t : TimeColumn) (e : ListEnv) (room date : ℕ) (db : Db) (slots : List Slot)
    → list_free t e room (some date) db ≡ ok slots
    → list_of_schedule e room date db (get_schedule_by_room_id t e.schedule_fails room db)
      ≡ ok slots
unfolding list_free
listed t e room date db slots h = ground arith

-- Every slot that is listed for a room and a date is a free slot of the room that begins on that date
-- and has not begun yet.
pub list_free_offers :
    (t : TimeColumn) (e : ListEnv) (room date : ℕ) (db : Db) (slots : List Slot)
    → list_free t e room (some date) db ≡ ok slots
    → All (IsOffer room date e.now) slots
list_free_offers t e room date db slots h =
    schedule_offers e room date db (get_schedule_by_room_id t e.schedule_fails room db) slots
      (listed t e room date db slots h)
