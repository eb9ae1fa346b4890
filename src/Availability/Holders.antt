-- ===== src/Availability/Holders.antt =====
-- How a reservation, a release or an extension may change the holder of a slot, however it ends.
use room_booking_platform.Base.{
  List, [], ◌∷◌, ◌++◌, find, ℕ, ◌≡◌, refl, ap, ◌∙◌, ◌⊎◌, inl, inr, Option, none, some, Exec, done,
  failed, lost, ◌==◌, arith, Bool-cases, Option-cases, released,
}
use room_booking_platform.Availability.Tables.{Status, free, booked, Slot, Db}
use room_booking_platform.Availability.Slots.{BookFaults, book_slot, release_slot, mark_booked}
use room_booking_platform.Availability.Tables.{Schedule, TimeColumn, has_id}
use room_booking_platform.Availability.Generation.{Env, Progress, insert_row, new_slot, put_slot}
use room_booking_platform.Availability.Service.{ExtendEnv, extend_slots}
use room_booking_platform.Availability.Rounds.{generate_slots_inv}
use room_booking_platform.Availability.Extension.{extend_slots_inv}
use room_booking_platform.Availability.Invariant.{IsValid}
use room_booking_platform.Availability.Reservation.{
  row, row-IsSlot, booking_of, holder, holder-mark_booked, row-mark_booked_other, Agrees-free,
  holder-release_slot,
}

book_cases :
    (f : BookFaults) (now slot booking : ℕ) (db : Db)
    → let db' = (book_slot f now slot booking db).1 in
      (db' ≡ db)
      ⊎ ((s : Slot) × (row slot db ≡ some s)
          × (s.status ≡ free)
          × (db' ≡ mark_booked slot booking db))
unfolding book_slot
book_cases f now slot booking db = elim (Option-cases (row slot db)) [
  | inl e ↦ inl (ground (arith, e))
  | inr (s, e) ↦ elim (status_cases s.status) [
    | inl is_free ↦ elim (book_found_cases s e is_free) [
      | inl same ↦ inl same
      | inr made ↦ inr (s, e, is_free, made)
    ]
    | inr taken ↦ inl (ground (arith, e, taken))
  ]
]
  where
    status_cases : (st : Status) → (st ≡ free) ⊎ (st ≡ booked)
    status_cases free = inl refl
    status_cases booked = inr refl

    book_found_cases :
        (s : Slot)
        → row slot db ≡ some s
        → s.status ≡ free
        → ((book_slot f now slot booking db).1 ≡ db)
          ⊎ ((book_slot f now slot booking db).1 ≡ mark_booked slot booking db)
    book_found_cases s e st = ground (arith, e, st)

-- A reservation, however it ends, leaves every slot to its holder, if it has one.
pub book_slot_holder :
    (f : BookFaults) (now slot booking j : ℕ) (db : Db)
    → IsValid db.slots
    → let db' = (book_slot f now slot booking db).1 in
      (holder j db' ≡ holder j db) ⊎ ((holder j db ≡ none) × (holder j db' ≡ some booking))
book_slot_holder f now slot booking j db v = elim (book_cases f now slot booking db) [
  | inl same ↦ inl (ap (holder j) same)
  | inr (s, e, is_free, made) ↦ elim (Bool-cases (j == slot)) [
    | inl y ↦
        let at : j ≡ slot = ground arith in
        inr (
          rw (at, e) (Agrees-free s.status s.booking (row-IsSlot slot db s v e).agrees is_free),
          rw (made, at) (holder-mark_booked slot booking db s e),
        )
    | inr n ↦ inl (
        ap (holder j) made
        ∙ ap booking_of (row-mark_booked_other slot booking j db (λ at. ground arith)))
  ]
]

released_cases : (b : ℕ) (h : Option ℕ) → (released b h ≡ h) ⊎ (h ≡ some b)
released_cases b none = inl refl
released_cases b (some c) = ground arith

mark_free_holder :
    (slot booking j : ℕ) (db : Db)
    → IsValid db.slots
    → (holder j (release_slot done slot booking db).1 ≡ holder j db) ⊎ (holder j db ≡ some booking)
mark_free_holder slot booking j db v = elim (released_cases booking (holder j db)) [
  | inl same ↦ inl (holder-release_slot slot booking j db v ∙ ground (arith, same))
  | inr own ↦ inr own
]

-- A release, however it ends, takes a slot from nobody but its booking.
pub release_slot_holder :
    (f : Exec) (slot booking j : ℕ) (db : Db)
    → IsValid db.slots
    → let db' = (release_slot f slot booking db).1 in
      (holder j db' ≡ holder j db) ⊎ (holder j db ≡ some booking)
unfolding release_slot
release_slot_holder done slot booking j db v = mark_free_holder slot booking j db v
release_slot_holder failed slot booking j db v = inl refl
release_slot_holder lost slot booking j db v = mark_free_holder slot booking j db v

snoc_holder :
    (j : ℕ) (s : Slot) (ss : List Slot)
    → s.booking ≡ none
    → booking_of (find (has_id j) (ss ++ s ∷ [])) ≡ booking_of (find (has_id j) ss)
snoc_holder j s [] h = ground arith
snoc_holder j s (q ∷ ss) h = ground (arith, snoc_holder j s ss h)

put_slot_holder :
    (j : ℕ) (h : Option ℕ) (env : Env) (s : Schedule) (t : ℕ) (p : Progress)
    → holder j p.db ≡ h
    → holder j (put_slot env s t p).db ≡ h
unfolding put_slot insert_row
put_slot_holder j h env s t p e =
    ground (arith, snoc_holder j (new_slot env s t) p.db.slots refl, e)

-- ExtendSlots gives no slot to anybody and takes none.
pub extend_slots_holder :
    (t : TimeColumn) (e : ExtendEnv) (j : ℕ) (db : Db)
    → holder j (extend_slots t e db).1 ≡ holder j db
extend_slots_holder t e j db =
    extend_slots_inv (λ d. holder j d ≡ holder j db) e
      (λ env s from until d.
        generate_slots_inv env s (λ q. holder j q ≡ holder j db)
          (put_slot_holder j (holder j db) env s) from until d)
      (λ room d q. q) t db refl
