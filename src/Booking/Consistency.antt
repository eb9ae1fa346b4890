-- ===== src/Booking/Consistency.antt =====
-- What booking_db satisfies between two statements: bookings, conference statuses and jobs agree.
use room_booking_platform.Base.{
  ℕ, ◌≤◌, ◌≡◌, refl, ap, ◌≢◌, ◌⊎◌, Bool, true, false, ◌&&◌, none, List, Exec, ◌==◌, exists, update,
  arith, All, All-update, Distinct, Distinct-update, All-map, All-change, exists-update, ◌∙◌,
}
use room_booking_platform.Booking.Tables.{
  cancelled, Booking, Job, JobStatus, Db, Conference, has_id,
}
use room_booking_platform.Booking.Bookings.{cancel, cancel_row, cancel_rows}

-- A cancelled booking has no link and asks for none; a link is there exactly if the conference is
-- ready; and a booking that did not ask for a conference has none.
pub record IsLinked (b : Booking) : Type 0 where
  pub closed : b.status ≡ cancelled → (b.conference ≡ Conference.not_requested) × (b.link ≡ none)
  pub ready : b.conference ≡ Conference.ready → b.link ≢ none
  pub linked : b.link ≢ none → b.conference ≡ Conference.ready
  pub asked : b.requested ≡ false → b.conference ≡ Conference.not_requested

-- An unfinished job has attempts left, and a failed one has used up all five.
pub record IsCounted (j : Job) : Type 0 where
  pub waiting : j.status ≡ JobStatus.pending → j.attempts ≤ 4
  pub running : j.status ≡ JobStatus.processing → j.attempts ≤ 4
  pub given_up : j.status ≡ JobStatus.failed → j.attempts ≡ 5
  pub finished : j.attempts ≤ 5

abbrev pub is_unfinished : JobStatus → Bool
is_unfinished JobStatus.pending = true
is_unfinished JobStatus.processing = true
is_unfinished _ = false

abbrev pub is_live : ℕ → Job → Bool
is_live id j = j.booking == id && is_unfinished j.status

-- A job is for a booking that asked for a conference; while it is unfinished, the conference of the
-- booking is pending, or the booking is cancelled.
pub record Serves (j : Job) (b : Booking) : Type 0 where
  pub asked : b.id ≡ j.booking → b.requested ≡ true
  pub open_for :
      b.id ≡ j.booking
      → is_unfinished j.status ≡ true
      → (b.conference ≡ Conference.pending) ⊎ (b.status ≡ cancelled)

pub record IsConsistent (db : Db) : Type 0 where
  pub bookings_distinct : Distinct (λ b. b.id) db.bookings
  pub jobs_distinct : Distinct (λ j. j.booking) db.jobs
  pub linked : All IsLinked db.bookings
  pub counted : All IsCounted db.jobs
  -- A job belongs to a booking, and serves it.
  pub owned : All (λ j. exists (has_id j.booking) db.bookings ≡ true) db.jobs
  pub serving : All (λ j. All (Serves j) db.bookings) db.jobs
  -- A conference that is pending has an unfinished job.
  pub tracked :
      All
        (λ b. b.conference ≡ Conference.pending → exists (is_live b.id) db.jobs ≡ true)
        db.bookings

-- An update of bookings that keeps what identifies them and asks for no new conference.
module _ (p : Booking → Bool) (f : Booking → Booking) (same_id : (b : Booking) → (f b).id ≡ b.id)
    (same_asked : (b : Booking) → (f b).requested ≡ b.requested) where
  pub owned-update :
      (bs : List Booking) (js : List Job)
      → All (λ j. exists (has_id j.booking) bs ≡ true) js
      → All (λ j. exists (has_id j.booking) (update p f bs) ≡ true) js
  owned-update bs js h =
      All-map _ _
        (λ j e.
          exists-update (has_id j.booking) p f (λ b. ap (λ i. i == j.booking) (same_id b)) bs ∙ e)
        js h

cancel_row-IsLinked : (now : ℕ) (b : Booking) → IsLinked b → IsLinked (cancel_row now b)
cancel_row-IsLinked now b h = ground arith

cancel_rows-IsConsistent :
    (now id : ℕ) (db : Db) → IsConsistent db → IsConsistent (cancel_rows now id db)
cancel_rows-IsConsistent now id db h = record {
  bookings_distinct =
      Distinct-update (λ b. b.id) (has_id id) (cancel_row now) (λ b. refl) db.bookings
        h.bookings_distinct;
  jobs_distinct = h.jobs_distinct;
  linked = All-update IsLinked _ _ (λ b l _. cancel_row-IsLinked now b l) db.bookings h.linked;
  counted = h.counted;
  owned =
      owned-update (has_id id) (cancel_row now) (λ b. refl) (λ b. refl) db.bookings db.jobs h.owned;
  serving =
      All-map _ _
        (λ j k.
          All-change (Serves j) (Serves j) (has_id id) (cancel_row now) (λ b v. ground arith)
            db.bookings k)
        db.jobs h.serving;
  tracked =
      All-change _ _ (has_id id) (cancel_row now) (λ b t. ground (arith, t)) db.bookings h.tracked;
}

-- Cancelling a booking keeps consistent tables consistent, however the statement ends.
pub cancel-IsConsistent :
    (f : Exec) (now id : ℕ) (db : Db) → IsConsistent db → IsConsistent (cancel f now id db).1
unfolding cancel
cancel-IsConsistent Exec.done now id db h = cancel_rows-IsConsistent now id db h
cancel-IsConsistent Exec.failed now id db h = h
cancel-IsConsistent Exec.lost now id db h = cancel_rows-IsConsistent now id db h
