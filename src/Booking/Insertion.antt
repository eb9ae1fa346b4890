-- ===== src/Booking/Insertion.antt =====
-- A new booking keeps the tables of booking_db consistent.
use room_booking_platform.Base.{
  ℕ, ◌≡◌, refl, sym, inl, ◌≢◌, Bool, true, false, none, List, [], ◌∷◌, ◌++◌, if◌then◌else◌, ◌==◌,
  exists, find, arith, All, All-append, All-map, All-zip, Distinct, Distinct-snoc,
  exists-append_left,
}
use room_booking_platform.Booking.Tables.{Booking, Job, Db, Conference, active, has_id}
use room_booking_platform.Booking.Bookings.{
  CreateFaults, add_booking, add_job, new_job, stamped, create_with_conference_job,
}
use room_booking_platform.Booking.Creation.{added, create_shape}
use room_booking_platform.Booking.Consistency.{IsLinked, IsCounted, is_live, Serves, IsConsistent}

-- What CreateBooking gives: an active booking with no link, whose conference is pending exactly if
-- it was asked for.
pub record IsNew (b : Booking) : Type 0 where
  pub is_active : b.status ≡ active
  pub no_link : b.link ≡ none
  pub conference :
      b.conference ≡ (if b.requested then Conference.pending else Conference.not_requested)

find-none :
    (id : ℕ) (bs : List Booking) → find (has_id id) bs ≡ none → exists (has_id id) bs ≡ false
find-none id [] h = refl
find-none id (b ∷ bs) h = ground (arith, find-none id bs)

true_ne : {b : Bool} → b ≡ true → b ≡ false → ⊥
true_ne t f = ground (arith, t, f)

-- No job is for a booking that is not there.
no_job :
    (id : ℕ) (bs : List Booking) (js : List Job)
    → exists (has_id id) bs ≡ false
    → All (λ j. exists (has_id j.booking) bs ≡ true) js
    → All (λ j. j.booking ≢ id) js
no_job id bs js h o = All-map _ _ (λ j e same. true_ne (rw same at e) h) js o

absent : (id : ℕ) (bs : List Booking) → exists (has_id id) bs ≡ false → All (λ c. c.id ≢ id) bs
absent id [] h = tt
absent id (b ∷ bs) h = (ground arith, absent id bs (ground arith))

none_for :
    (id : ℕ) (js : List Job)
    → All (λ j. j.booking ≢ id) js
    → exists (λ j. j.booking == id) js ≡ false
none_for id [] h = refl
none_for id (j ∷ js) h = ground (arith, none_for id js h.1, h.0)

has_id-snoc : (bs : List Booking) (b : Booking) → exists (has_id b.id) (bs ++ b ∷ []) ≡ true
has_id-snoc [] b = ground arith
has_id-snoc (c ∷ bs) b = ground (arith, has_id-snoc bs b)

live-snoc : (js : List Job) (now id : ℕ) → exists (is_live id) (js ++ new_job now id ∷ []) ≡ true
live-snoc [] now id = ground arith
live-snoc (j ∷ js) now id = ground (arith, live-snoc js now id)

module _ (b : Booking) (db : Db) (isnew : IsNew b) (fresh : find (has_id b.id) db.bookings ≡ none)
    (h : IsConsistent db) where
  others : All (λ j. j.booking ≢ b.id) db.jobs
  others = no_job b.id db.bookings db.jobs (find-none b.id db.bookings fresh) h.owned

  new-IsLinked : IsLinked b
  new-IsLinked = ground (arith, isnew.is_active, isnew.no_link, isnew.conference)

  add_booking_serving : All (λ j. All (Serves j) (db.bookings ++ b ∷ [])) db.jobs
  add_booking_serving =
      All-map _ _
        (λ j k.
          All-append (Serves j) db.bookings (b ∷ []) k.0 (
            record { asked = λ e. absurd (k.1 (sym e)); open_for = λ e. absurd (k.1 (sym e)) },
            tt,
          ))
        db.jobs (All-zip _ _ db.jobs h.serving others)

  add_booking_owned : All (λ j. exists (has_id j.booking) (db.bookings ++ b ∷ []) ≡ true) db.jobs
  add_booking_owned =
      All-map _ _ (λ j e. exists-append_left (has_id j.booking) db.bookings (b ∷ []) e) db.jobs
        h.owned

  fresh_ids : All (λ c. c.id ≢ b.id) db.bookings
  fresh_ids = absent b.id db.bookings (find-none b.id db.bookings fresh)

  new-Serves :
      (now : ℕ) → b.requested ≡ true → All (Serves (new_job now b.id)) (db.bookings ++ b ∷ [])
  new-Serves now r =
      All-append _ db.bookings (b ∷ [])
        (All-map _ _ (λ c ne. record { asked = λ e. absurd (ne e); open_for = λ e. absurd (ne e) })
          db.bookings fresh_ids)
        (record { asked = λ e. r; open_for = λ e u. inl (ground (arith, isnew.conference)) }, tt)

  plain : b.requested ≡ false → IsConsistent (add_booking b db)
  plain r = record {
    bookings_distinct =
        Distinct-snoc (λ c. c.id) db.bookings b (find-none b.id db.bookings fresh)
          h.bookings_distinct;
    jobs_distinct = h.jobs_distinct;
    linked = All-append IsLinked db.bookings (b ∷ []) h.linked (new-IsLinked, tt);
    counted = h.counted;
    owned = add_booking_owned;
    serving = add_booking_serving;
    tracked =
        All-append _ db.bookings (b ∷ []) h.tracked ((λ c. ground (arith, isnew.conference)), tt);
  }

  with_job :
      (now : ℕ) → b.requested ≡ true → IsConsistent (add_job (new_job now b.id) (add_booking b db))
  with_job now r = record {
    bookings_distinct = (plain_distinct);
    jobs_distinct =
        Distinct-snoc (λ j. j.booking) db.jobs (new_job now b.id) (none_for b.id db.jobs others)
          h.jobs_distinct;
    linked = All-append IsLinked db.bookings (b ∷ []) h.linked (new-IsLinked, tt);
    counted = All-append IsCounted db.jobs (new_job now b.id ∷ []) h.counted (ground arith, tt);
    owned =
        All-append _ db.jobs (new_job now b.id ∷ []) add_booking_owned
          (has_id-snoc db.bookings b, tt);
    serving =
        All-append _ db.jobs (new_job now b.id ∷ []) add_booking_serving (new-Serves now r, tt);
    tracked =
        All-append _ db.bookings (b ∷ [])
          (All-map _ _
            (λ c t p. exists-append_left (is_live c.id) db.jobs (new_job now b.id ∷ []) (t p))
            db.bookings h.tracked)
          ((λ c. live-snoc db.jobs now b.id), tt);
  }
    where
      plain_distinct : Distinct (λ c. c.id) (db.bookings ++ b ∷ [])
      plain_distinct =
          Distinct-snoc (λ c. c.id) db.bookings b (find-none b.id db.bookings fresh)
            h.bookings_distinct

  added-IsConsistent : (now : ℕ) → IsConsistent (added b now db)
  unfolding added
  added-IsConsistent now = ground (arith, with_job now, plain)

-- A new booking, with an id that no booking has, active, without a link, and with a pending
-- conference exactly if it asked for one, keeps consistent tables consistent, whichever statement
-- of the transaction fails and however its commit ends.
pub create_with_conference_job-IsConsistent :
    (f : CreateFaults) (now : ℕ) (b : Booking) (db : Db)
    → IsNew b
    → find (has_id b.id) db.bookings ≡ none
    → IsConsistent db
    → IsConsistent (create_with_conference_job f now b db).1
create_with_conference_job-IsConsistent f now b db n fresh h = ground (
  arith,
  create_shape f now b db,
  added-IsConsistent (stamped now b) db (stamped_IsNew n) fresh h now,
)
  where
    stamped_IsNew : IsNew b → IsNew (stamped now b)
    stamped_IsNew n = record {
      is_active = n.is_active;
      no_link = n.no_link;
      conference = n.conference;
    }
