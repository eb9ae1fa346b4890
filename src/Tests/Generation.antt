-- ===== src/Tests/Generation.antt =====
-- The theorems on the generation of slots: one hour on the first day of 1970, a Thursday.
use room_booking_platform.Base.{
  false, List, ◌++◌, ◌+◌, ◌≡◌, refl, true, none, some, [], ◌∷◌, done, arith, All,
}
use room_booking_platform.Clock.{day, hhmm, parse_clock, parse_clock-hhmm}
use room_booking_platform.Availability.Tables.{Schedule, Slot}
use room_booking_platform.Availability.Generation.{Env, generate_slots}
use room_booking_platform.Availability.Dates.{generate_slots_covers}
use room_booking_platform.Availability.Scheduled.{IsScheduled, generate_slots-IsScheduled}
use room_booking_platform.Availability.Insertion.{has_start, IsOpen, generate_slots_succeeds}
use room_booking_platform.Availability.Tables.{Db, TimeColumn}
use room_booking_platform.Availability.Service.{ExtendEnv}
use room_booking_platform.Availability.Worker.{Keeps, start, start-Keeps}
use room_booking_platform.Tests.Reservations.{two_slots, two_slots-IsValid}

abbrev thursdays : Schedule
thursdays = record { id = 3; room = 7; days = 4 ∷ []; start_time = hhmm 0; end_time = hhmm 90 }

abbrev served : Env
served = record { new_id = λ t. t + 100; insert = λ t. done }

parse_clock-hhmm_example : parse_clock (hhmm 90) ≡ some 90
parse_clock-hhmm_example = parse_clock-hhmm 90 (omega arith)

opens : parse_clock (hhmm 0) ≡ some 0
opens = parse_clock-hhmm 0 (omega arith)

closes : parse_clock (hhmm 90) ≡ some 90
closes = parse_clock-hhmm 90 (omega arith)

two_slots-IsOpen : IsOpen served thursdays 0 two_slots
two_slots-IsOpen = record {
  listed = refl;
  valid = two_slots-IsValid;
  grid = ((λ e. refl), ((λ e. refl), tt));
  distinct = λ t u e. omega arith;
  unused = λ t h. ground arith;
}

generate_slots_succeeds_example : (generate_slots served thursdays 0 day two_slots).failure ≡ none
generate_slots_succeeds_example =
    generate_slots_succeeds served thursdays 1 3 0 90 0 day two_slots opens closes (omega arith)
      refl (omega arith) (omega arith) (λ t. refl) two_slots-IsOpen

generated : (generate_slots served thursdays 0 day two_slots).failure ≡ none
generated =
    generate_slots_succeeds served thursdays 1 3 0 90 0 day two_slots opens closes (omega arith)
      refl (omega arith) (omega arith) (λ t. refl) two_slots-IsOpen

generate_slots_covers_example :
    has_start served thursdays 3_600_000_000_000
      (generate_slots served thursdays 0 day two_slots).db
    ≡ true
generate_slots_covers_example =
    generate_slots_covers served thursdays 1 3 0 90 0 day two_slots opens closes (omega arith) refl
      (omega arith) (omega arith) generated 0 2 (omega arith) refl (omega arith)

generate_slots-IsScheduled_example :
    (new : List Slot) × ((generate_slots served thursdays 0 day two_slots).db.slots
      ≡ two_slots.slots ++ new)
    × All (IsScheduled served thursdays 3 0 1 0) new
generate_slots-IsScheduled_example =
    generate_slots-IsScheduled served thursdays 1 3 0 90 0 day two_slots
      ((omega arith, omega arith), tt) opens closes (omega arith) refl (omega arith) (omega arith)

-- A tick of the worker on the first day.
abbrev tick : ExtendEnv
tick = record {
  schedules_fail = false;
  now = 0;
  state_fails = λ room. false;
  generation = λ room. served;
  upsert = λ room. done;
}

abbrev columns : TimeColumn
columns = record { time_in = λ s. none; time_out = λ t. [] }

-- Every text is empty, so that the run of the generation fails and is counted.
start-Keeps_example : Keeps two_slots (start columns tick (tick ∷ []) two_slots)
start-Keeps_example = start-Keeps columns tick (tick ∷ []) two_slots two_slots-IsValid

-- The slots of the room reach far enough.
abbrev far : Db
far = record two_slots { generated = (7, 31) ∷ [] }
