-- ===== src/Tests/Interleaving.antt =====
-- The theorems on requests to booking-service: two that interleave, and one that is refused.
use room_booking_platform.Base.{ℕ, ◌≡◌, ◌⊎◌, refl, false, some, arith, find}
use room_booking_platform.Http.{value, end, decode_json}
use room_booking_platform.Availability.Slots
use room_booking_platform.Availability.Service.{book}
use room_booking_platform.Availability.Handler
use room_booking_platform.Booking.Tables.{has_id}
use room_booking_platform.Booking.Bookings.{no_faults, stamped, create_with_conference_job}
use room_booking_platform.Booking.Service.{CreateBookingRequest, book_slot, create_booking}
use room_booking_platform.Booking.Handler as Bookings
use room_booking_platform.Booking.Handler.{Headers, extract_auth}
use room_booking_platform.Booking.Requests.{create_step}
use room_booking_platform.Booking.Interleaving.{System, Step, Reach, begin, next}
use room_booking_platform.Booking.Answers.{Unchanged, create-Unchanged}
use room_booking_platform.Booking.Interleaved.{active_held}
use room_booking_platform.Booking.Uniqueness.{no_double_booking}
use room_booking_platform.Platform.Slots.{availability, seen, availability-IsSlotService}
use room_booking_platform.Tests.Reservations.{two_slots, two_slots-IsValid}
use room_booking_platform.Tests.Bookings.{calls, asks, made, world}

-- Two users ask for the same slot; the second one is refused before the first one is stored.
abbrev served : (m : System availability) × Reach availability two_slots m
served = (
  _,
  next
      (next
        (next
          (next (next begin (Step.call_create 5 6 "user" asks refl))
            (Step.call_create 8 4 "user" asks refl))
          (Step.create (calls no_faults)))
        (Step.create (record (calls no_faults) { booking_id = 8 })))
      (Step.create (calls no_faults)),
)

stored_five : find (has_id 5) served.0.world.db.bookings ≡ some (stamped 0 made)
unfolding create_step book_slot Slots.book_slot Handler.book_slot decode_json book
    create_with_conference_job
stored_five = refl

active_held_example :
    (seen.holder 1 served.0.world.slots ≡ some 5) ⊎ (served.0.withdrawn 5 ≡ some 6)
active_held_example =
    active_held availability seen availability-IsSlotService two_slots two_slots-IsValid 5
      (stamped 0 made) served.1 stored_five refl

abbrev five : ℕ
five = 5

no_double_booking_example : five ≡ five
no_double_booking_example =
    no_double_booking availability two_slots five five (stamped 0 made) (stamped 0 made) served.1
      stored_five stored_five refl refl refl

-- A slot that is held by another booking.
abbrev taken : CreateBookingRequest
taken = record { slot = 2; conference = false }

abbrev headers : Headers
headers = record { user = some 6; role = "user" }

create-Unchanged_example :
    Unchanged availability seen availability-IsSlotService world
      (Bookings.create availability (calls no_faults) headers (value taken) end world).1
unfolding Bookings.create extract_auth decode_json create_booking book_slot Slots.book_slot
    Handler.book_slot book
create-Unchanged_example =
    create-Unchanged availability seen availability-IsSlotService (calls no_faults) headers
      (value taken) end world two_slots-IsValid (λ e. omega arith) (λ e. omega arith)
