-- ===== src/Availability/Worker.antt =====
-- services/availability-service/internal/worker/worker.go: the runs of ExtendSlots, at the start and at
-- every tick until the context is cancelled. Its errors are only logged.
use room_booking_platform.Base.{ℕ, ◌≡◌, some, List, [], ◌∷◌}
use room_booking_platform.Availability.Tables.{Slot, Db, TimeColumn}
use room_booking_platform.Availability.Service.{ExtendEnv, extend_slots}
use room_booking_platform.Availability.Invariant.{IsValid}
use room_booking_platform.Availability.Reservation.{row}
use room_booking_platform.Availability.Extension.{extend_slots_keeps}

-- The loop, on what each tick finds.
unfoldable pub run_ticks : TimeColumn → List ExtendEnv → Db → Db
run_ticks t [] db = db
run_ticks t (e ∷ ticks) db = run_ticks t ticks (extend_slots t e db).1

-- SlotGenerationWorker.Start
unfoldable pub start : TimeColumn → ExtendEnv → List ExtendEnv → Db → Db
start t first ticks db = run_ticks t ticks (extend_slots t first db).1

abbrev pub Keeps : Db → Db → Type 0
Keeps db db' = IsValid db'.slots × ((j : ℕ) (s : Slot) → row j db ≡ some s → row j db' ≡ some s)

run_ticks-Keeps :
    (t : TimeColumn) (ticks : List ExtendEnv) (db db' : Db)
    → Keeps db db'
    → Keeps db (run_ticks t ticks db')
unfolding run_ticks
run_ticks-Keeps t [] db db' h = h
run_ticks-Keeps t (e ∷ ticks) db db' (v, kept) =
    let (v', kept') = extend_slots_keeps t e db' v in
    run_ticks-Keeps t ticks db (extend_slots t e db').1 (v', λ j s h. kept' j s (kept j s h))

-- On valid slots, the worker leaves valid slots after any number of ticks, and every slot that was
-- there as it was, booked or free, whichever schedules there are and whatever fails in each run.
pub start-Keeps :
    (t : TimeColumn) (first : ExtendEnv) (ticks : List ExtendEnv) (db : Db)
    → IsValid db.slots
    → Keeps db (start t first ticks db)
unfolding start
start-Keeps t first ticks db v =
    run_ticks-Keeps t ticks db (extend_slots t first db).1 (extend_slots_keeps t first db v)
