-- ===== src/Tests/Requests.antt =====
-- The theorems on requests that read, and on the checks of a schedule.
use room_booking_platform.Base.{◌≤◌, ◌≡◌, refl, false, none, [], ◌∷◌, All, length}
use mathlib.Core.List.{List}
use room_booking_platform.Text.{pos, split, trim_space, atoi, digits_value}
use room_booking_platform.Clock.{hhmm}
use room_booking_platform.Availability.Stored.{scan_schedule_times}
use room_booking_platform.Clock.{parse_clock}
use room_booking_platform.Base.{ℕ, some, arith, ap, ◌*◌, ◌/◌, ◌++◌}
use room_booking_platform.Availability.Tables.{IsTimeColumn, TimeColumn, Db}
use room_booking_platform.Availability.Slots.{get_free_slots}
use room_booking_platform.Availability.Schedules.{get_schedule_by_room_id, scan_schedule}
use room_booking_platform.Availability.Service.{
  RoomReply, CreateScheduleRequest, ListEnv, check_room_exists, check_days, parse_time, validate,
  list_free,
}
use room_booking_platform.Availability.Acceptance.{Accepted, validate-Accepted}
use room_booking_platform.Availability.Offers.{IsOffer, list_free_offers}
use room_booking_platform.Booking.Bookings.{list_all}
use room_booking_platform.Booking.Service.{to_response, at_least_one, list_bookings}
use room_booking_platform.Booking.Listing.{list_bookings_bounded}
use room_booking_platform.Booking.Tables.{Booking}
use room_booking_platform.Tests.Reservations.{opened, two_slots, free_slot, held_slot}
use room_booking_platform.Tests.Bookings.{one_booking, waiting}

abbrev mornings : CreateScheduleRequest
mornings = record {
  id = none;
  room = 7;
  days = pos 1 ∷ pos 4 ∷ [];
  start_time = b'9' ∷ b':' ∷ b'0' ∷ b'0' ∷ [];
  end_time = b'1' ∷ b'1' ∷ b':' ∷ b'3' ∷ b'0' ∷ [];
}

validate-Accepted_example : Accepted 7 mornings (1 ∷ 4 ∷ [])
unfolding validate check_room_exists check_days parse_time split trim_space atoi digits_value
validate-Accepted_example = validate-Accepted (RoomReply.status 200) 7 mornings (1 ∷ 4 ∷ []) refl

-- TIME texts of five characters.
abbrev times : TimeColumn
times = record { time_in = λ s. none; time_out = λ t. hhmm 0 }

abbrev before : ListEnv
before = record {
  room_reply = RoomReply.skipped;
  schedule_fails = false;
  query_fails = false;
  now = 0;
}

-- The slots of the room, the free one beginning 600 nanoseconds after the day.
abbrev later_slots : Db
later_slots = record two_slots {
  slots = record free_slot { start_at = 600; end_at = 1_800_000_000_600 } ∷ held_slot ∷ [];
}

list_free_offers_example :
    All (IsOffer 7 0 0) (record free_slot { start_at = 600; end_at = 1_800_000_000_600 } ∷ [])
unfolding list_free check_room_exists get_schedule_by_room_id get_free_slots scan_schedule
list_free_offers_example =
    list_free_offers times before 7 0 later_slots
      (record free_slot { start_at = 600; end_at = 1_800_000_000_600 } ∷ []) refl

list_bookings_bounded_example :
    (length (to_response waiting ∷ []) ≤ at_least_one 20 (pos 500))
    × (length (to_response waiting ∷ []) ≤ 100)
    × (1 ≡ length one_booking.bookings)
unfolding list_bookings list_all
list_bookings_bounded_example =
    list_bookings_bounded false false (pos 1) (pos 500) one_booking (to_response waiting ∷ []) 1
      refl

-- A column that writes HH:MM:00.
abbrev clock_times : TimeColumn
clock_times = record {
  time_in = λ s. none;
  time_out = λ t. hhmm (t / 60) ++ b':' ∷ b'0' ∷ b'0' ∷ [];
}

clock_times-IsTimeColumn : IsTimeColumn clock_times
clock_times-IsTimeColumn = record { writes = λ m h. ap hhmm (whole_minutes m) }
  where
    whole_minutes : (m : ℕ) → 60 * m / 60 ≡ m
    whole_minutes m = omega arith

scan_schedule_times_example :
    (parse_clock (scan_schedule clock_times opened).start_time ≡ some 0)
    × (parse_clock (scan_schedule clock_times opened).end_time ≡ some 60)
scan_schedule_times_example =
    scan_schedule_times clock_times clock_times-IsTimeColumn opened 0 60 refl refl (omega arith)
      (omega arith)
