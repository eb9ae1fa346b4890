-- ===== src/Tests/Reservations.antt =====
-- The theorems on one slot, at two slots of a room.
use room_booking_platform.Base.{◌+◌, ◌≡◌, refl, inl, inr, none, some, [], ◌∷◌, done, arith}
use room_booking_platform.Clock.{half_hour}
use room_booking_platform.Availability.Tables.{free, booked, Slot, Db, ScheduleRow}
use room_booking_platform.Availability.Slots.{
  no_faults, book_slot, release_slot, mark_booked, meta_of,
}
use room_booking_platform.Availability.Invariant.{IsValid}
use room_booking_platform.Availability.Reservation.{
  row, Reserved, book_slot-Reserved, release-book_slot,
}

abbrev pub free_slot : Slot
free_slot = record {
  id = 1;
  room = 7;
  schedule = 3;
  start_at = 0;
  end_at = half_hour;
  status = free;
  booking = none;
}

abbrev pub held_slot : Slot
held_slot = record {
  id = 2;
  room = 7;
  schedule = 3;
  start_at = half_hour;
  end_at = half_hour + half_hour;
  status = booked;
  booking = some 9;
}

abbrev pub opened : ScheduleRow
opened = record { id = 3; room = 7; days = 4 ∷ []; start_time = 0; end_time = 3600 }

abbrev pub two_slots : Db
two_slots = record { schedules = opened ∷ []; slots = free_slot ∷ held_slot ∷ []; generated = [] }

pub two_slots-IsValid : IsValid two_slots.slots
two_slots-IsValid = record {
  each = (record { lasts = refl; agrees = tt }, (record { lasts = refl; agrees = tt }, tt));
  pairs = ((record { ids = λ e. omega arith; times = inr (inl (omega arith)) }, tt), (tt, tt));
}

book_slot-Reserved_example :
    Reserved 0 1 5 two_slots (mark_booked 1 5 two_slots) (meta_of free_slot)
unfolding book_slot
book_slot-Reserved_example =
    book_slot-Reserved no_faults 0 1 5 two_slots (mark_booked 1 5 two_slots) (meta_of free_slot)
      two_slots-IsValid refl

release-book_slot_example :
    row 1 (release_slot done 1 5 (mark_booked 1 5 two_slots)).1 ≡ row 1 two_slots
unfolding book_slot
release-book_slot_example =
    release-book_slot no_faults 0 1 5 1 two_slots (mark_booked 1 5 two_slots) (meta_of free_slot)
      two_slots-IsValid refl
