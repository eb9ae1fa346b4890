-- ===== src/Availability/Extension.antt =====
-- ExtendSlots, the call of the worker: what a run keeps.
use room_booking_platform.Base.{
  ℕ, ◌≡◌, refl, sym, Option, none, some, List, [], ◌∷◌, Result, ok, err, Exec, arith,
}
use mathlib.Core.Path.{subst}
use room_booking_platform.Clock.{midnight, add_days}
use room_booking_platform.Availability.Tables.{Schedule, ScheduleRow, Slot, Db, TimeColumn}
use room_booking_platform.Availability.Tables
use room_booking_platform.Availability.Schedules.{
  get_all_schedules, get_generation_state, upsert_generation_state, set_generated,
}
use room_booking_platform.Availability.Generation.{Env, generate_slots}
use room_booking_platform.Availability.Service.{
  ExtendEnv, extend_from, extend_at, extend_room, extend_rooms, extend_slots, extended_on, upserted,
  extend_all, later_of, slot_generation_days,
}
use room_booking_platform.Availability.Invariant.{IsValid, generate_slots-IsValid}
use room_booking_platform.Availability.Reservation.{row}
use room_booking_platform.Availability.Insertion.{row-generate_slots}

-- The instant that ExtendSlots generates up to.
abbrev pub target_of : ExtendEnv → ℕ
target_of e = add_days slot_generation_days (midnight e.now)

-- A property of the tables that a run of the generation and the new generation state keep.
module _ {κ} (Q : Db → Type κ) (e : ExtendEnv)
    (generation : (env : Env) (s : Schedule) (from until : ℕ) (db : Db)
      → Q db
      → Q (generate_slots env s from until db).db)
    (state : (room : ℕ) (db : Db) → Q db → Q (set_generated room (target_of e) db)) where
  upsert_inv :
      (f : Exec) (room : ℕ) (db : Db) → Q db → Q (upsert_generation_state f room (target_of e) db).1
  unfolding upsert_generation_state
  upsert_inv Exec.done room db q = state room db q
  upsert_inv Exec.failed room db q = q
  upsert_inv Exec.lost room db q = state room db q

  upserted-db : (q : Result Tables.Error (Unit {0}) × Db) → (upserted q).1 ≡ q.1
  upserted-db (ok _, db) = refl
  upserted-db (err _, db) = refl

  extended_inv :
      (room : ℕ) (db : Db) (o : Option Tables.Error)
      → Q db
      → Q (extended_on e room (target_of e) db o).1
  extended_inv room db (some _) q = q
  extended_inv room db none q =
      subst Q (sym (upserted-db (upsert_generation_state (e.upsert room) room (target_of e) db)))
        (upsert_inv (e.upsert room) room db q)

  extend_from_inv :
      (s : Schedule) (from : ℕ) (db : Db) → Q db → Q (extend_from e s from (target_of e) db).1
  extend_from_inv s from db q =
      let p = generate_slots (e.generation s.room) s from (target_of e) db in
      ground (
        arith,
        extended_inv s.room p.db p.failure
            (generation (e.generation s.room) s from (target_of e) db q),
      )

  extend_at_inv :
      (s : Schedule) (r : Result Tables.Error (Option ℕ)) (db : Db)
      → Q db
      → Q (extend_at e s r db).1
  extend_at_inv s (err _) db q = q
  extend_at_inv s (ok state) db q = extend_from_inv s (later_of (midnight e.now) state) db q

  extend_room_inv : (s : Schedule) (db : Db) → Q db → Q (extend_room e s db).1
  unfolding extend_room
  extend_room_inv s db q =
      extend_at_inv s (get_generation_state (e.state_fails s.room) s.room db) db q

  pub extend_rooms_inv : (ss : List Schedule) (db : Db) → Q db → Q (extend_rooms e ss db).1
  unfolding extend_rooms
  extend_rooms_inv [] db q = q
  extend_rooms_inv (s ∷ ss) db q =
      extend_rooms_inv ss (extend_room e s db).1 (extend_room_inv s db q)

  extend_all_inv :
      (r : Result Tables.Error (List Schedule)) (db : Db) → Q db → Q (extend_all e r db).1
  extend_all_inv (err _) db q = q
  extend_all_inv (ok ss) db q = extend_rooms_inv ss db q

  pub extend_slots_inv : (t : TimeColumn) (db : Db) → Q db → Q (extend_slots t e db).1
  unfolding extend_slots
  extend_slots_inv t db q = extend_all_inv (get_all_schedules t e.schedules_fail db) db q

-- On valid slots, ExtendSlots leaves valid slots, and every slot that was there as it was, booked
-- or free, whichever schedules there are and whatever fails on the way.
pub extend_slots_keeps :
    (t : TimeColumn) (e : ExtendEnv) (db : Db)
    → IsValid db.slots
    → IsValid (extend_slots t e db).1.slots
      × ((j : ℕ) (s : Slot) → row j db ≡ some s → row j (extend_slots t e db).1 ≡ some s)
extend_slots_keeps t e db v = (
  extend_slots_inv (λ d. IsValid d.slots) e generate_slots-IsValid (λ room d q. q) t db v,
  λ j s.
      extend_slots_inv (λ d. row j d ≡ some s) e
        (λ env sc from until d. row-generate_slots env sc from until j s d) (λ room d q. q) t db,
)
