-- ===== src/Availability/Reservation.antt =====
-- What a reservation and a release promise: a table of locks, one for each slot, that a booking
-- takes if nobody holds it and gives back if it holds it.
use room_booking_platform.Base.{
  ℕ, ◌≤◌, ◌≡◌, refl, ◌≢◌, sym, ◌∙◌, inl, inr, true, false, Option, none, some, arith, ok, err,
  is_ok, done, unknown, if◌then◌else◌, ◌==◌, find, change, find-update, find_All, find_passes,
  Option-cases, released,
}
use room_booking_platform.Availability.Tables.{
  Status, free, booked, Slot, SlotMeta, Db, Error, has_id,
}
use room_booking_platform.Availability.Slots.{
  BookFaults, no_faults, meta_of, is_booked_by, mark_booked, mark_free, book_slot, release_slot,
}
use room_booking_platform.Availability.Invariant.{Agrees, IsSlot, IsValid}

abbrev pub row : ℕ → Db → Option Slot
row slot db = find (has_id slot) db.slots

abbrev pub booking_of : Option Slot → Option ℕ
booking_of none = none
booking_of (some s) = s.booking

-- The booking that holds a slot.
abbrev pub holder : ℕ → Db → Option ℕ
holder slot db = booking_of (row slot db)

row-mark_booked :
    (slot booking j : ℕ) (db : Db)
    → row j (mark_booked slot booking db)
      ≡ change (has_id slot) (λ s. record s { status = booked; booking = some booking }) (row j db)
row-mark_booked slot booking j db = find-update (has_id j) (has_id slot) _ (λ s. refl) db.slots

pub row-mark_free :
    (slot booking j : ℕ) (db : Db)
    → row j (mark_free slot booking db)
      ≡ change
          (is_booked_by slot booking)
          (λ s. record s { status = free; booking = none })
          (row j db)
row-mark_free slot booking j db =
    find-update (has_id j) (is_booked_by slot booking) _ (λ s. refl) db.slots

pub row-IsSlot :
    (slot : ℕ) (db : Db) (s : Slot) → IsValid db.slots → row slot db ≡ some s → IsSlot s
row-IsSlot slot db s v e = find_All IsSlot (has_id slot) db.slots s v.each e

-- What a call of BookSlot that answered with the slot has found, and what it has done.
pub record Reserved (now slot booking : ℕ) (db db' : Db) (m : SlotMeta) : Type 0 where
  pub found : Slot
  pub stood : row slot db ≡ some found
  pub upcoming : now ≤ found.start_at
  pub unheld : holder slot db ≡ none
  pub held : holder slot db' ≡ some booking
  pub others : (j : ℕ) → j ≢ slot → row j db' ≡ row j db
  pub answer : (m.slot ≡ slot) × (m.room ≡ found.room) × (m.start_at ≡ found.start_at)

book_slot_found :
    (f : BookFaults) (now slot booking : ℕ) (db db' : Db) (m : SlotMeta)
    → book_slot f now slot booking db ≡ (ok m, db')
    → (s : Slot) × (row slot db ≡ some s)
      × (now ≤ s.start_at)
      × (s.status ≡ free)
      × (db' ≡ mark_booked slot booking db)
      × (m.slot ≡ s.id)
      × (m.room ≡ s.room)
      × (m.start_at ≡ s.start_at)
unfolding book_slot
book_slot_found f now slot booking db db' m e = ground arith

pub Agrees-free : (st : Status) (b : Option ℕ) → Agrees st b → st ≡ free → b ≡ none
Agrees-free free none a e = refl
Agrees-free free (some _) a e = absurd a
Agrees-free booked b a e = cc

free_Agrees : (st : Status) (b : Option ℕ) → Agrees st b → b ≡ none → st ≡ free
free_Agrees free b a e = refl
free_Agrees booked none a e = absurd a
free_Agrees booked (some _) a e = cc

row_id : (slot : ℕ) (db : Db) (s : Slot) → row slot db ≡ some s → s.id ≡ slot
row_id slot db s e = ground (arith, find_passes (has_id slot) db.slots s e)

pub row-mark_booked_other :
    (slot booking j : ℕ) (db : Db) → j ≢ slot → row j (mark_booked slot booking db) ≡ row j db
row-mark_booked_other slot booking j db h = elim (Option-cases (row j db)) [
  | inl e ↦ rw (row-mark_booked, e)
  | inr (s, e) ↦ rw (row-mark_booked, e) (ground (arith, row_id j db s e))
]

pub holder-mark_booked :
    (slot booking : ℕ) (db : Db) (s : Slot)
    → row slot db ≡ some s
    → holder slot (mark_booked slot booking db) ≡ some booking
holder-mark_booked slot booking db s e =
    rw (row-mark_booked, e) (ground (arith, row_id slot db s e))

-- On valid slots, a BookSlot that succeeds found a slot which has not begun and which nobody held;
-- afterwards the booking holds it and every other slot is as before.
pub book_slot-Reserved :
    (f : BookFaults) (now slot booking : ℕ) (db db' : Db) (m : SlotMeta)
    → IsValid db.slots
    → book_slot f now slot booking db ≡ (ok m, db')
    → Reserved now slot booking db db' m
book_slot-Reserved f now slot booking db db' m v e =
    let (s, stood, upcoming, is_free, made, i, r, t) =
      book_slot_found f now slot booking db db' m e in
    let none_held = Agrees-free s.status s.booking (row-IsSlot slot db s v stood).agrees is_free in
    record {
      found = s;
      stood = stood;
      upcoming = upcoming;
      unheld = rw stood none_held;
      held = rw made (holder-mark_booked slot booking db s stood);
      others = λ j h. rw made (row-mark_booked_other slot booking j db h);
      answer = (i ∙ row_id slot db s stood, r, t);
    }

-- A BookSlot that fails has changed nothing, unless the answer to its COMMIT was lost.
pub book_slot_error :
    (f : BookFaults) (now slot booking : ℕ) (db : Db) (x : Error)
    → (book_slot f now slot booking db).0 ≡ err x
    → f.commit ≢ unknown true
    → (book_slot f now slot booking db).1 ≡ db
unfolding book_slot
book_slot_error f now slot booking db x e h = ground arith

Agrees-held : (st : Status) (b : Option ℕ) (c : ℕ) → Agrees st b → b ≡ some c → st ≡ booked
Agrees-held free none c a e = cc
Agrees-held free (some _) c a e = absurd a
Agrees-held booked b c a e = refl

row_held :
    (slot other : ℕ) (db : Db) (s : Slot)
    → IsValid db.slots
    → row slot db ≡ some s
    → holder slot db ≡ some other
    → s.status ≡ booked
row_held slot other db s v e h =
    Agrees-held s.status s.booking other (row-IsSlot slot db s v e).agrees (rw e at h)

book_slot-booked :
    (f : BookFaults) (now slot booking : ℕ) (db : Db) (s : Slot)
    → row slot db ≡ some s
    → s.status ≡ booked
    → (is_ok (book_slot f now slot booking db).0 ≡ false)
      × ((book_slot f now slot booking db).1 ≡ db)
unfolding book_slot
book_slot-booked f now slot booking db s e b = ground arith

-- On valid slots, a slot that a booking holds is given to no other, whatever the time and the
-- faults: BookSlot fails and changes nothing.
pub book_slot_held :
    (f : BookFaults) (now slot booking other : ℕ) (db : Db)
    → IsValid db.slots
    → holder slot db ≡ some other
    → (is_ok (book_slot f now slot booking db).0 ≡ false)
      × ((book_slot f now slot booking db).1 ≡ db)
book_slot_held f now slot booking other db v h = elim (Option-cases (row slot db)) [
  | inl e ↦ absurd (none_ne_some (rw e at h))
  | inr (s, e) ↦ book_slot-booked f now slot booking db s e (row_held slot other db s v e h)
]
  where
    none_ne_some : none ≡ some other → ⊥
    none_ne_some p = cc

-- On valid slots and without faults, BookSlot succeeds on a slot that nobody holds and that has
-- not begun.
pub book_slot_free :
    (now slot booking : ℕ) (db : Db) (s : Slot)
    → IsValid db.slots
    → row slot db ≡ some s
    → holder slot db ≡ none
    → now ≤ s.start_at
    → book_slot no_faults now slot booking db ≡ (ok (meta_of s), mark_booked slot booking db)
unfolding book_slot
book_slot_free now slot booking db s v e h t =
    let is_free = free_Agrees s.status s.booking (row-IsSlot slot db s v e).agrees (rw e at h) in
    ground (arith, is_free)

released_row :
    (slot booking : ℕ) (s : Slot)
    → Agrees s.status s.booking
    → (if is_booked_by slot booking s
        then record s { status = free; booking = none }
        else s).booking
      ≡ (if s.id == slot then released booking s.booking else s.booking)
released_row slot booking s a = elim (Option-cases s.booking) [
  | inl e ↦ ground arith
  | inr (c, e) ↦ ground (arith, Agrees-held s.status s.booking c a e)
]

-- On valid slots, a ReleaseSlot that is run is the release of a lock: the slot is given back if
-- the booking holds it, and is left to its holder otherwise; no other slot changes hands.
pub holder-release_slot :
    (slot booking j : ℕ) (db : Db)
    → IsValid db.slots
    → holder j (release_slot done slot booking db).1
      ≡ (if j == slot then released booking (holder j db) else holder j db)
unfolding release_slot
holder-release_slot slot booking j db v = elim (Option-cases (row j db)) [
  | inl e ↦ rw (row-mark_free, e) (ground arith)
  | inr (s, e) ↦
      rw (row-mark_free, e)
        (ground
          (arith, row_id j db s e, released_row slot booking s (row-IsSlot j db s v e).agrees))
]

free_again :
    (slot booking : ℕ) (s : Slot)
    → (s.id ≡ slot → (s.status ≡ free) × (s.booking ≡ none))
    → change
        (is_booked_by slot booking)
        (λ s. record s { status = free; booking = none })
        (change (has_id slot) (λ s. record s { status = booked; booking = some booking }) (some s))
      ≡ some s
free_again slot booking s h = ground arith

same_row :
    (slot j : ℕ) (db : Db) (s t : Slot)
    → row slot db ≡ some s
    → row j db ≡ some t
    → t.id ≡ slot
    → t ≡ s
same_row slot j db s t e e' i =
    let j_slot : j ≡ slot = sym (row_id j db t e') ∙ i in
    let here : row slot db ≡ some t = rw j_slot at e' in cc

restored :
    (slot booking j : ℕ) (db : Db) (s : Slot)
    → row slot db ≡ some s
    → s.status ≡ free
    → s.booking ≡ none
    → row j (mark_free slot booking (mark_booked slot booking db)) ≡ row j db
restored slot booking j db s stood is_free unheld = elim (Option-cases (row j db)) [
  | inl e ↦ rw (row-mark_free, row-mark_booked, e)
  | inr (t, e) ↦
      rw (row-mark_free, row-mark_booked, e)
        (free_again slot booking t (λ i. rw (same_row slot j db s t stood e i) (is_free, unheld)))
]

-- On valid slots, the release after a reservation that succeeded restores every slot.
pub release-book_slot :
    (f : BookFaults) (now slot booking j : ℕ) (db db' : Db) (m : SlotMeta)
    → IsValid db.slots
    → book_slot f now slot booking db ≡ (ok m, db')
    → row j (release_slot done slot booking db').1 ≡ row j db
unfolding release_slot
release-book_slot f now slot booking j db db' m v e =
    let (s, stood, _, is_free, made, _, _, _) = book_slot_found f now slot booking db db' m e in
    rw made (
      restored slot booking j db s stood is_free
        (Agrees-free s.status s.booking (row-IsSlot slot db s v stood).agrees is_free))
