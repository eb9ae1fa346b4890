-- ===== src/Availability/Invariant.antt =====
-- What the tables of availability_db satisfy between two statements: the constraints of the
-- migration on slots, and the agreement of a slot's status with its booking.
use room_booking_platform.Base.{
  ℕ, ◌+◌, ◌≤◌, ◌≡◌, refl, ◌≢◌, ◌⊎◌, Bool, true, false, Option, none, some, List, [], ◌∷◌, ◌++◌,
  arith, Exec, done, failed, lost, if◌then◌else◌, All, AllPairs, update, exists, All-update,
  All-append,
}
use room_booking_platform.Clock.{half_hour}
use room_booking_platform.Availability.Tables.{Status, free, booked, Slot, Db, has_id}
use room_booking_platform.Availability.Slots.{BookFaults, book_slot, release_slot}
use room_booking_platform.Availability.Rounds.{generate_slots_inv}
use room_booking_platform.Availability.Generation.{
  Env, Progress, overlaps, insert_row, new_slot, put_slot, generate_slots,
}
use room_booking_platform.Availability.Tables.{Schedule}

abbrev pub Agrees : Status → Option ℕ → Type 0
Agrees free none = Unit
Agrees booked (some _) = Unit
Agrees free (some _) = ⊥
Agrees booked none = ⊥

-- A slot lasts thirty minutes, and is booked exactly if it carries a booking.
pub record IsSlot (s : Slot) : Type 0 where
  pub lasts : s.end_at ≡ s.start_at + half_hour
  pub agrees : Agrees s.status s.booking

-- Two slots have their own ids, and do not overlap in one room.
pub record Apart (s t : Slot) : Type 0 where
  pub ids : s.id ≢ t.id
  pub times : (s.room ≢ t.room) ⊎ ((s.end_at ≤ t.start_at) ⊎ (t.end_at ≤ s.start_at))

pub record IsValid (slots : List Slot) : Type 0 where
  pub each : All IsSlot slots
  pub pairs : AllPairs Apart slots

-- An update that keeps ids, rooms and times.
module _ (p : Slot → Bool) (f : Slot → Slot) (left : (s t : Slot) → Apart s t → Apart (f s) t)
    (right : (s t : Slot) → Apart s t → Apart s (f t)) where
  All-Apart-update : (s : Slot) (ts : List Slot) → All (Apart s) ts → All (Apart s) (update p f ts)
  All-Apart-update s ts h = All-update (Apart s) p f (λ t a _. right s t a) ts h

  All-Apart-left : (s : Slot) (ts : List Slot) → All (Apart s) ts → All (Apart (f s)) ts
  All-Apart-left s [] h = tt
  All-Apart-left s (t ∷ ts) h = (left s t h.0, All-Apart-left s ts h.1)

  AllPairs-update : (ts : List Slot) → AllPairs Apart ts → AllPairs Apart (update p f ts)
  AllPairs-update [] h = tt
  AllPairs-update (s ∷ ts) h =
      let rest = All-Apart-update s ts h.0 in
      (
        elim (p s) as (λ b. All (Apart (if b then f s else s)) (update p f ts)) [
          | true ↦ All-Apart-left s (update p f ts) rest
          | false ↦ rest
        ],
        AllPairs-update ts h.1,
      )

set_status-IsValid :
    (p : Slot → Bool) (st : Status) (b : Option ℕ) (slots : List Slot)
    → Agrees st b
    → IsValid slots
    → IsValid (update p (λ s. record s { status = st; booking = b }) slots)
set_status-IsValid p st b slots a v = record {
  each = All-update IsSlot p _ (λ s h _. record { lasts = h.lasts; agrees = a }) slots v.each;
  pairs =
      AllPairs-update p (λ s. record s { status = st; booking = b })
        (λ s t h. record { ids = h.ids; times = h.times })
        (λ s t h. record { ids = h.ids; times = h.times }) slots v.pairs;
}

-- A reservation keeps valid slots valid, however it ends.
pub book_slot-IsValid :
    (f : BookFaults) (now slot booking : ℕ) (db : Db)
    → IsValid db.slots
    → IsValid (book_slot f now slot booking db).1.slots
unfolding book_slot
book_slot-IsValid f now slot booking db v =
    ground (arith, set_status-IsValid (has_id slot) booked (some booking) db.slots tt v)

-- A release keeps valid slots valid, however it ends.
pub release_slot-IsValid :
    (f : Exec) (slot booking : ℕ) (db : Db)
    → IsValid db.slots
    → IsValid (release_slot f slot booking db).1.slots
unfolding release_slot
release_slot-IsValid done slot booking db v = set_status-IsValid _ free none db.slots tt v
release_slot-IsValid failed slot booking db v = v
release_slot-IsValid lost slot booking db v = set_status-IsValid _ free none db.slots tt v

none_overlaps :
    (s : Slot) (ts : List Slot)
    → IsSlot s
    → exists (overlaps s) ts ≡ false
    → exists (has_id s.id) ts ≡ false
    → All (λ t. Apart t s) ts
none_overlaps s [] h o i = tt
none_overlaps s (t ∷ ts) h o i = (
  record { ids = λ e. ground arith; times = ground arith },
  none_overlaps s ts h (ground arith) (ground arith),
)

AllPairs-snoc :
    (ts : List Slot) (s : Slot)
    → AllPairs Apart ts
    → All (λ t. Apart t s) ts
    → AllPairs Apart (ts ++ s ∷ [])
AllPairs-snoc [] s p h = (tt, tt)
AllPairs-snoc (t ∷ ts) s p h =
    (All-append (Apart t) ts (s ∷ []) p.0 (h.0, tt), AllPairs-snoc ts s p.1 h.1)

-- The INSERT of a new slot keeps the slots valid.
pub insert_row-IsValid :
    (s : Slot) (db : Db) → IsSlot s → IsValid db.slots → IsValid (insert_row s db).1.slots
unfolding insert_row
insert_row-IsValid s db h v = ground (
  arith,
  none_overlaps s db.slots h,
  AllPairs-snoc db.slots s v.pairs,
  All-append IsSlot db.slots (s ∷ []) v.each (h, tt),
)

module _ (env : Env) (schedule : Schedule) where
  new_slot-IsSlot : (start : ℕ) → IsSlot (new_slot env schedule start)
  new_slot-IsSlot start = record { lasts = refl; agrees = tt }

  put_slot-IsValid :
      (start : ℕ) (p : Progress)
      → IsValid p.db.slots
      → IsValid (put_slot env schedule start p).db.slots
  unfolding put_slot
  put_slot-IsValid start p v =
      ground
        (arith, insert_row-IsValid (new_slot env schedule start) p.db (new_slot-IsSlot start) v)

  -- A run of the generation keeps valid slots valid, also one that stops at an error.
  pub generate_slots-IsValid :
      (from until : ℕ) (db : Db)
      → IsValid db.slots
      → IsValid (generate_slots env schedule from until db).db.slots
  generate_slots-IsValid from until db v =
      generate_slots_inv env schedule (λ d. IsValid d.slots) put_slot-IsValid from until db v
