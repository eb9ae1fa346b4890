-- ===== src/Platform/Slots.antt =====
-- The internal endpoints of availability-service behind the interface that booking-service uses.
use room_booking_platform.Base.{
  ℕ, ◌≡◌, refl, ◌≢◌, sym, ap, ◌∙◌, ◌⊎◌, inl, inr, true, none, some, Result, ok, err, is_ok, Exec,
  done, failed, lost, if◌then◌else◌, ◌==◌, arith, Bool-cases, released,
}
use mathlib.Core.Path.{subst}
use room_booking_platform.Http.{
  Response, json, error, status_of, Item, value, end, decode_json, bad_request, not_found, conflict,
  internal_error,
}
use room_booking_platform.Availability.Tables.{
  Db, SlotMeta, has_id, database, slot_not_found, slot_in_past, slot_booked,
}
use room_booking_platform.Availability.Tables
use room_booking_platform.Availability.Tables.{TimeColumn}
use room_booking_platform.Availability.Slots.{BookFaults}
use room_booking_platform.Availability.Slots
use room_booking_platform.Availability.Service.{book, release, ExtendEnv, extend_slots}
use room_booking_platform.Availability.Handler
use room_booking_platform.Availability.Invariant.{IsValid, book_slot-IsValid, release_slot-IsValid}
use room_booking_platform.Availability.Reservation.{
  holder, Reserved, book_slot-Reserved, holder-release_slot,
}
use room_booking_platform.Availability.Holders.{
  book_slot_holder, release_slot_holder, extend_slots_holder,
}
use room_booking_platform.Availability.Extension.{extend_slots_keeps}
use room_booking_platform.Booking.SlotService.{SlotService, SlotView, IsSlotService}
use room_booking_platform.Booking.SlotService

pub record SlotEnv : Type 0 where
  pub faults : BookFaults
  pub now : ℕ
  pub release : Exec

abbrev meta_seen : Response SlotMeta × Db → Response SlotService.SlotMeta × Db
meta_seen (json code m, db) =
    (json code (record { room = m.room; start_at = m.start_at; end_at = m.end_at }), db)
meta_seen (error code x, db) = (error code x, db)

-- The request that bookSlot and releaseSlot write, as it is decoded.
abbrev request : ℕ → ℕ → Item Handler.SlotRequest
request slot booking = value (record { slot = slot; booking = booking })

abbrev pub availability : SlotService
availability = record {
  State = Db;
  Env = SlotEnv;
  book = λ e slot b db. meta_seen (Handler.book_slot e.faults e.now (request slot b) end db);
  release = λ e slot b db. Handler.release_slot e.release (request slot b) end db;
  Work = TimeColumn × ExtendEnv;
  work = λ (t, e) db. (extend_slots t e db).1;
}

abbrev answer : Result Tables.Error SlotMeta × Db → Response SlotService.SlotMeta × Db
answer q = meta_seen (Handler.book_response q)

-- The answer keeps the tables, has status 200 exactly on success, and 500 on a fault.
answer-db : (q : Result Tables.Error SlotMeta × Db) → (answer q).1 ≡ q.1
unfolding bad_request conflict not_found internal_error
answer-db (ok m, db) = refl
answer-db (err Tables.Error.slot_not_found, db) = refl
answer-db (err Tables.Error.slot_in_past, db) = refl
answer-db (err Tables.Error.slot_booked, db) = refl
answer-db (err _, db) = refl

answer_ok :
    (q : Result Tables.Error SlotMeta × Db)
    → status_of (answer q).0 ≡ 200
    → (m : SlotMeta) × (q ≡ (ok m, q.1))
unfolding bad_request conflict not_found internal_error
answer_ok (ok m, db) h = (m, refl)
answer_ok (err Tables.Error.slot_not_found, db) h = absurd (omega arith)
answer_ok (err Tables.Error.slot_in_past, db) h = absurd (omega arith)
answer_ok (err Tables.Error.slot_booked, db) h = absurd (omega arith)
answer_ok (err _, db) h = absurd (omega arith)

answer_refused :
    (q : Result Tables.Error SlotMeta × Db)
    → status_of (answer q).0 ≢ 200
    → status_of (answer q).0 ≢ 500
    → (x : Tables.Error) × (q ≡ (err x, q.1)) × (x ≢ database)
unfolding bad_request conflict not_found internal_error
answer_refused (ok m, db) h k = absurd (h refl)
answer_refused (err Tables.Error.slot_not_found, db) h k = (slot_not_found, refl, λ e. cc)
answer_refused (err Tables.Error.slot_in_past, db) h k = (slot_in_past, refl, λ e. cc)
answer_refused (err Tables.Error.slot_booked, db) h k = (slot_booked, refl, λ e. cc)
answer_refused (err _, db) h k = absurd (k refl)

freed-db : (q : Result Tables.Error (Unit {0}) × Db) → (Handler.release_response q).1 ≡ q.1
unfolding internal_error
freed-db (ok _, db) = refl
freed-db (err _, db) = refl

freed_ok :
    (q : Result Tables.Error (Unit {0}) × Db)
    → status_of (Handler.release_response q).0 ≡ 200
    → is_ok q.0 ≡ true
unfolding internal_error
freed_ok (ok _, db) h = refl
freed_ok (err _, db) h = absurd (omega arith)

release_done :
    (f : Exec) (slot b : ℕ) (db : Db) → is_ok (Slots.release_slot f slot b db).0 ≡ true → f ≡ done
unfolding Slots.release_slot
release_done done slot b db h = refl
release_done failed slot b db h = cc
release_done lost slot b db h = cc

-- An error that is not the database's comes before anything is written.
refused_unchanged :
    (f : BookFaults) (now slot b : ℕ) (db : Db) (x : Tables.Error)
    → Slots.book_slot f now slot b db ≡ (err x, (Slots.book_slot f now slot b db).1)
    → x ≢ database
    → (Slots.book_slot f now slot b db).1 ≡ db
unfolding Slots.book_slot
refused_unchanged f now slot b db x e h = ground arith

holder-Reserved :
    (now slot b : ℕ) (db db' : Db) (m : SlotMeta)
    → Reserved now slot b db db' m
    → (j : ℕ) → holder j db' ≡ (if j == slot then some b else holder j db)
holder-Reserved now slot b db db' m r j = elim (Bool-cases (j == slot)) [
  | inl y ↦ let e : j ≡ slot = ground arith in rw (y, e) r.held
  | inr n ↦ rw (n, r.others j (λ e. ground arith))
]

module _ (e : SlotEnv) (slot b : ℕ) (db : Db) where
  book-IsValid : IsValid db.slots → IsValid (availability.book e slot b db).1.slots
  unfolding Handler.book_slot decode_json book
  book-IsValid v =
      subst (λ d. IsValid d.slots) (sym (answer-db (Slots.book_slot e.faults e.now slot b db)))
        (book_slot-IsValid e.faults e.now slot b db v)

  book_ok :
      IsValid db.slots
      → status_of (availability.book e slot b db).0 ≡ 200
      → (holder slot db ≡ none)
        × ((j : ℕ)
            → holder j (availability.book e slot b db).1
              ≡ (if j == slot then some b else holder j db))
  unfolding Handler.book_slot decode_json book
  book_ok v h =
      let q = Slots.book_slot e.faults e.now slot b db in
      let (m, eq) = answer_ok q h in
      let r = book_slot-Reserved e.faults e.now slot b db q.1 m v eq in
      (
        r.unheld,
        λ j.
            subst (λ d. holder j d ≡ (if j == slot then some b else holder j db))
              (sym (answer-db q)) (holder-Reserved e.now slot b db q.1 m r j),
      )

  book_refused :
      status_of (availability.book e slot b db).0 ≢ 200
      → status_of (availability.book e slot b db).0 ≢ 500
      → (j : ℕ) → holder j (availability.book e slot b db).1 ≡ holder j db
  unfolding Handler.book_slot decode_json book
  book_refused h k j =
      let q = Slots.book_slot e.faults e.now slot b db in
      let (x, eq, ne) = answer_refused q h k in
      ap (holder j) (answer-db q ∙ refused_unchanged e.faults e.now slot b db x eq ne)

  release-IsValid : IsValid db.slots → IsValid (availability.release e slot b db).1.slots
  unfolding Handler.release_slot decode_json release
  release-IsValid v =
      subst (λ d. IsValid d.slots) (sym (freed-db (Slots.release_slot e.release slot b db)))
        (release_slot-IsValid e.release slot b db v)

  release_ok :
      IsValid db.slots
      → status_of (availability.release e slot b db).0 ≡ 200
      → (j : ℕ)
      → holder j (availability.release e slot b db).1
        ≡ (if j == slot then released b (holder j db) else holder j db)
  unfolding Handler.release_slot decode_json release
  release_ok v h j =
      let q = Slots.release_slot e.release slot b db in
      let was : e.release ≡ done = release_done e.release slot b db (freed_ok q h) in
      ap (holder j) (freed-db q ∙ ap (λ f. (Slots.release_slot f slot b db).1) was)
      ∙ holder-release_slot slot b j db v

  book_any :
      IsValid db.slots
      → (j : ℕ)
      → (holder j (availability.book e slot b db).1 ≡ holder j db)
        ⊎ ((holder j db ≡ none) × (holder j (availability.book e slot b db).1 ≡ some b))
  unfolding Handler.book_slot decode_json book
  book_any v j =
      rw (answer-db (Slots.book_slot e.faults e.now slot b db))
        (book_slot_holder e.faults e.now slot b j db v)

  release_any :
      IsValid db.slots
      → (j : ℕ)
      → (holder j (availability.release e slot b db).1 ≡ holder j db) ⊎ (holder j db ≡ some b)
  unfolding Handler.release_slot decode_json release
  release_any v j =
      rw (freed-db (Slots.release_slot e.release slot b db))
        (release_slot_holder e.release slot b j db v)

-- A valid state has valid slots, and a slot is held as its row says.
abbrev pub seen : SlotView availability
seen = record { IsValid = λ db. IsValid db.slots; holder = holder }

-- From valid slots, availability-service keeps the laws that booking-service relies on: an answer
-- with status 200 to a reservation means that the slot was held by nobody and is held by the
-- booking now; another status but 500 means that nothing changed hands; an answer with status 200
-- to a release means that the booking does not hold the slot any more; no other slot changes
-- hands; whatever the status, a reservation takes no slot from its holder, and a release takes
-- none from anybody but the booking; an ExtendSlots changes no holder; and all three keep the
-- slots valid.
pub availability-IsSlotService : IsSlotService availability seen
availability-IsSlotService = record {
  book_valid = book-IsValid;
  release_valid = release-IsValid;
  book_ok = book_ok;
  book_refused = λ e slot b db _. book_refused e slot b db;
  release_ok = release_ok;
  book_any = book_any;
  release_any = release_any;
  work_valid = λ (t, e) db v. (extend_slots_keeps t e db v).0;
  work_holder = λ (t, e) db v j. extend_slots_holder t e j db;
}
