-- ===== src/Tests/Bookings.antt =====
-- The theorems on bookings, over the slots of availability-service.
use room_booking_platform.Base.{
  ℕ, ◌≡◌, refl, ◌≢◌, true, false, none, some, [], ◌∷◌, ok, is_ok, Exec, acked, arith, find,
  same_text, done, ◌+◌,
}
use room_booking_platform.Clock.{half_hour}
use room_booking_platform.Http
use room_booking_platform.Http.{Net, answered, unsent, status_of}
use room_booking_platform.Availability.Slots.{mark_booked, mark_free}
use room_booking_platform.Availability.Slots
use room_booking_platform.Availability.Service.{book, release}
use room_booking_platform.Availability.Handler
use room_booking_platform.Booking.Tables.{active, Conference, Booking, Db, has_id}
use room_booking_platform.Booking.Bookings.{
  CreateFaults, no_faults, create_with_conference_job, stamped, new_job, cancel_row, cancel_rows,
  cancel, get_by_id,
}
use room_booking_platform.Booking.Creation.{Outcome, create_with_conference_job-Outcome}
use room_booking_platform.Booking.Consistency.{IsConsistent}
use room_booking_platform.Booking.Insertion.{create_with_conference_job-IsConsistent}
use room_booking_platform.Booking.Service.{
  BookingResponse, CreateBookingRequest, World, CreateEnv, CancelEnv, create_booking,
  cancel_booking, to_response, new_booking,
}
use room_booking_platform.Booking.Service
use room_booking_platform.Booking.Saga.{Created, create_booking-Created, create_booking_atomic}
use room_booking_platform.Booking.Cancellation.{
  Cancelled, cancel_booking-Cancelled, cancel_booking_twice,
}
use room_booking_platform.Booking.CancelErrors.{cancel_booking_kept, cancel_booking_half}
use room_booking_platform.Platform.Slots.{SlotEnv, availability, seen, availability-IsSlotService}
use room_booking_platform.Tests.Reservations.{two_slots, two_slots-IsValid}

abbrev pub waiting : Booking
waiting = record {
  id = 9;
  slot = 2;
  user = 4;
  room = 7;
  status = active;
  link = none;
  requested = true;
  conference = Conference.pending;
  slot_start = half_hour;
  slot_end = half_hour + half_hour;
  cancelled_at = none;
  created_at = 0;
  updated_at = 0;
}

abbrev pub one_booking : Db
one_booking = record { bookings = waiting ∷ []; jobs = new_job 0 9 ∷ [] }

pub one_booking-IsConsistent : IsConsistent one_booking
one_booking-IsConsistent = record {
  bookings_distinct = (tt, tt);
  jobs_distinct = (tt, tt);
  linked = (ground arith, tt);
  counted = (ground arith, tt);
  owned = (refl, tt);
  serving = ((ground arith, tt), tt);
  tracked = ((λ c. refl), tt);
}

abbrev pub world : World availability
world = record { slots = two_slots; db = one_booking }

abbrev pub no_slot_faults : SlotEnv
no_slot_faults = record { faults = Slots.no_faults; now = 0; release = done }

abbrev pub calls : CreateFaults → CreateEnv availability
calls f = record {
  booking_id = 5;
  now = 0;
  book_net = answered;
  book_env = no_slot_faults;
  create = f;
  lookup_fails = false;
  release_net = answered;
  release_env = no_slot_faults;
}

abbrev pub asks : CreateBookingRequest
asks = record { slot = 1; conference = true }

abbrev pub made : Booking
made = new_booking 5 6 asks (record { room = 7; start_at = 0; end_at = half_hour })

abbrev after : World availability
after = record {
  slots = mark_booked 1 5 two_slots;
  db = record { bookings = waiting ∷ made ∷ []; jobs = new_job 0 9 ∷ new_job 0 5 ∷ [] };
}

create_booking-Created_example :
    (same_text "user" "admin" ≡ false)
    × Created availability seen availability-IsSlotService
        (calls no_faults)
        6
        asks
        world
        after
        (to_response made)
unfolding create_booking create_with_conference_job Slots.book_slot Handler.book_slot
    Http.decode_json book
create_booking-Created_example =
    create_booking-Created availability seen availability-IsSlotService (calls no_faults) 6 asks
      "user" world after (to_response made) two_slots-IsValid refl refl

abbrev refusing : CreateFaults
refusing = record { begin_fails = false; insert_fails = true; job_fails = false; commit = acked }

abbrev undone : World availability
undone = record { slots = mark_free 1 5 (mark_booked 1 5 two_slots); db = one_booking }

create_booking_atomic_example :
    ((j : ℕ) → seen.holder j undone.slots ≡ seen.holder j two_slots) × (undone.db ≡ one_booking)
unfolding create_booking create_with_conference_job Slots.book_slot Slots.release_slot
    Handler.book_slot Handler.release_slot Http.decode_json book release
create_booking_atomic_example =
    create_booking_atomic availability seen availability-IsSlotService (calls refusing) 6 asks
      "user" world undone Service.Error.failed two_slots-IsValid refl (λ e. cc) (λ e. omega arith)
      refl refl (λ t. refl) refl

create_with_conference_job-Outcome_example :
    Outcome (stamped 0 made) one_booking (create_with_conference_job no_faults 0 made one_booking)
create_with_conference_job-Outcome_example =
    create_with_conference_job-Outcome no_faults 0 made one_booking refl

create_with_conference_job-IsConsistent_example :
    IsConsistent (create_with_conference_job no_faults 0 made one_booking).1
create_with_conference_job-IsConsistent_example =
    create_with_conference_job-IsConsistent no_faults 0 made one_booking
      (record { is_active = refl; no_link = refl; conference = refl }) refl one_booking-IsConsistent

abbrev pub cancels : Exec → CancelEnv availability
cancels f = record {
  lookup_fails = false;
  now = 8;
  release_net = answered;
  release_env = no_slot_faults;
  cancel = f;
}

abbrev given_up : World availability
given_up = record { slots = mark_free 2 9 two_slots; db = cancel_rows 8 9 one_booking }

given_up_made :
    cancel_booking availability (cancels Exec.done) 9 4 world
    ≡ (ok (to_response (cancel_row 8 waiting)), given_up)
unfolding cancel_booking get_by_id cancel Slots.release_slot Handler.release_slot Http.decode_json
    release
given_up_made = refl

cancel_booking-Cancelled_example :
    (waiting.user ≡ 4)
    × Cancelled availability seen availability-IsSlotService 8 9 waiting world given_up
        (to_response (cancel_row 8 waiting))
cancel_booking-Cancelled_example =
    cancel_booking-Cancelled availability seen availability-IsSlotService (cancels Exec.done) 9 4
      world given_up waiting (to_response (cancel_row 8 waiting)) two_slots-IsValid refl refl
      given_up_made

cancel_booking_twice_example :
    cancel_booking availability (cancels Exec.failed) 9 4 given_up
    ≡ (ok (to_response (cancel_row 8 waiting)), given_up)
cancel_booking_twice_example =
    cancel_booking_twice availability seen availability-IsSlotService (cancels Exec.done) 9 4
      (cancels Exec.failed) world given_up (to_response (cancel_row 8 waiting)) refl given_up_made

abbrev half_done : World availability
half_done = record { slots = mark_free 2 9 two_slots; db = one_booking }

cancel_booking_kept_example : half_done.db ≡ one_booking
unfolding cancel_booking get_by_id cancel Slots.release_slot Handler.release_slot Http.decode_json
    release
cancel_booking_kept_example =
    cancel_booking_kept availability seen availability-IsSlotService (cancels Exec.failed) 9 4 world
      half_done Service.Error.failed (λ e. cc) refl

released_at_nine :
    is_ok (Service.release_slot availability answered no_slot_faults 2 9 world).0 ≡ true
unfolding Service.release_slot Slots.release_slot Handler.release_slot Http.decode_json release
released_at_nine = refl

cancel_booking_half_example :
    (is_ok (cancel_booking availability (cancels Exec.failed) 9 4 world).0 ≡ false)
    × (find (has_id 9) (cancel_booking availability (cancels Exec.failed) 9 4 world).1.db.bookings
        ≡ some waiting)
    × (seen.holder 2 (cancel_booking availability (cancels Exec.failed) 9 4 world).1.slots ≢ some 9)
cancel_booking_half_example =
    cancel_booking_half availability seen availability-IsSlotService (cancels Exec.failed) 9 4 world
      waiting two_slots-IsValid refl refl refl refl released_at_nine refl
