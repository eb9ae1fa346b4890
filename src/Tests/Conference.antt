-- ===== src/Tests/Conference.antt =====
-- The theorems on the conference store, with two goroutines that are called for the same booking.
use room_booking_platform.Base.{ℕ, ◌≡◌, refl, String, arith}
use room_booking_platform.Conference.Store.{get_or_create}
use room_booking_platform.Conference.Threads.{Move, System, Step, run, Reach, begin, next}
use room_booking_platform.Conference.Locking.{no_data_race, no_deadlock}
use room_booking_platform.Conference.Links.{returned_same}

abbrev short : ℕ → String
short id = "00000005"

abbrev ids : ℕ → ℕ
ids i = 5

-- The first one alone, up to the place behind Lock where it stores the link.
abbrev storing : (s : System short) × Reach short 2 ids s
storing = (
  _,
  next
      (next
        (next
          (next
            (next (next begin (run 0 (omega arith) (Move.r_lock refl)))
              (run 0 (omega arith) (Move.not_found refl)))
            (run 0 (omega arith) Move.r_unlock_miss))
          (run 0 (omega arith) (Move.announce refl)))
        (run 0 (omega arith) (Move.lock refl)))
      (run 0 (omega arith) (Move.still_not_found refl)),
)

abbrev first : ℕ
first = 0

no_data_race_example : first ≡ first
no_data_race_example =
    no_data_race short storing.1 first first (omega arith) (omega arith) refl refl

-- The second one waits for the first, which can go on.
no_deadlock_example : (t : System short) × Step short 2 storing.0 t
no_deadlock_example = no_deadlock short storing.1 1 (omega arith) refl

-- The first one has returned, and the second one after it.
abbrev both : (s : System short) × Reach short 2 ids s
both = (
  _,
  next
      (next
        (next
          (next (next storing.1 (run 0 (omega arith) Move.store)) (run 0 (omega arith) Move.unlock))
          (run 1 (omega arith) (Move.r_lock refl)))
        (run 1 (omega arith) (Move.found refl)))
      (run 1 (omega arith) Move.r_unlock_hit),
)

abbrev link : String
link = "https://meet.example.com/00000005"

returned_same_example :
    (link ≡ link) × (get_or_create short 5 both.0.shared.links ≡ (link, both.0.shared.links))
returned_same_example = returned_same short both.1 0 1 refl refl
