-- ===== src/Booking/Creation.antt =====
-- CreateWithConferenceJob: the booking and its conference job are written together or not at all.
use room_booking_platform.Base.{
  ℕ, ◌≡◌, refl, ◌≢◌, ◌⊎◌, Bool, true, false, none, some, List, [], ◌∷◌, ◌++◌, Result, ok, err,
  if◌then◌else◌, find, exists, arith,
}
use room_booking_platform.Booking.Tables.{
  Booking, Job, Db, Error, commit_unknown, database, has_id, is_for,
}
use room_booking_platform.Booking.Bookings.{
  CreateFaults, add_booking, add_job, new_job, stamped, create_with_conference_job,
}

pub find-snoc :
    (q : Booking → Bool) (bs : List Booking) (b : Booking)
    → find q bs ≡ none
    → find q (bs ++ b ∷ []) ≡ (if q b then some b else none)
find-snoc q [] b h = refl
find-snoc q (c ∷ bs) b h = ground (arith, find-snoc q bs b)

find-snoc_ne :
    (q : Booking → Bool) (bs : List Booking) (b : Booking)
    → q b ≡ false
    → find q (bs ++ b ∷ []) ≡ find q bs
find-snoc_ne q [] b h = ground arith
find-snoc_ne q (c ∷ bs) b h = ground (arith, find-snoc_ne q bs b h)

exists-snoc_self :
    (id : ℕ) (js : List Job) (j : Job) → j.booking ≡ id → exists (is_for id) (js ++ j ∷ []) ≡ true
exists-snoc_self id [] j h = ground arith
exists-snoc_self id (k ∷ js) j h = ground (arith, exists-snoc_self id js j h)

-- A booking that is in the table, beside the bookings that were there, with its job if it wants one.
pub record Stored (b : Booking) (db db' : Db) : Type 0 where
  pub here : find (has_id b.id) db'.bookings ≡ some b
  pub others : (j : ℕ) → j ≢ b.id → find (has_id j) db'.bookings ≡ find (has_id j) db.bookings
  pub job : b.requested ≡ true → exists (is_for b.id) db'.jobs ≡ true

unfoldable pub added : Booking → ℕ → Db → Db
added b now db =
    if b.requested then add_job (new_job now b.id) (add_booking b db) else add_booking b db

added-Stored :
    (b : Booking) (now : ℕ) (db : Db)
    → find (has_id b.id) db.bookings ≡ none
    → Stored b db (added b now db)
unfolding added
added-Stored b now db h = record {
  here = ground (arith, find-snoc (has_id b.id) db.bookings b h);
  others = λ j ne. ground (arith, find-snoc_ne (has_id j) db.bookings b);
  job = λ r. ground (arith, exists-snoc_self b.id db.jobs (new_job now b.id) refl);
}

abbrev pub Outcome : Booking → Db → Result Error Booking × Db → Type 0
Outcome b db (r, db') =
    ((r ≡ ok b) × Stored b db db')
    ⊎ (((r ≡ err database) × (db' ≡ db))
        ⊎ ((r ≡ err commit_unknown) × ((db' ≡ db) ⊎ Stored b db db')))

pub create_shape :
    (f : CreateFaults) (now : ℕ) (b : Booking) (db : Db)
    → let (r, db') = create_with_conference_job f now b db in
      ((r ≡ ok (stamped now b)) × (db' ≡ added (stamped now b) now db))
      ⊎ (((r ≡ err database) × (db' ≡ db))
          ⊎ ((r ≡ err commit_unknown) × ((db' ≡ db) ⊎ (db' ≡ added (stamped now b) now db))))
unfolding create_with_conference_job added
create_shape f now b db = ground arith

-- The transaction of a new booking whose id no booking has: it is acknowledged and the booking is
-- stored, with its job if it asked for one; or it fails and the tables are as before; or its
-- outcome is unknown, and it is one of the two.
pub create_with_conference_job-Outcome :
    (f : CreateFaults) (now : ℕ) (b : Booking) (db : Db)
    → find (has_id b.id) db.bookings ≡ none
    → Outcome (stamped now b) db (create_with_conference_job f now b db)
create_with_conference_job-Outcome f now b db h =
    ground (arith, create_shape f now b db, added-Stored (stamped now b) now db h)
