-- ===== src/Booking/Closing.antt =====
-- The end of a conference job: CompleteConferenceJob, FailConferenceJob and DiscardConferenceJob each
-- change a booking and its job in one transaction.
use room_booking_platform.Base.{
  ℕ, ◌≤◌, ◌≡◌, refl, Bool-cases, ◌≢◌, ◌⊎◌, inl, inr, String, Bool, true, false, Option, none, some,
  List, [], ◌∷◌, if◌then◌else◌, exists, update, count_if, arith, All, All-update, Distinct-update,
  Distinct-only, All-map, All-zip, All-change, exists_All, exists_of_count, ◌∙◌,
}
use room_booking_platform.Booking.Tables.{
  cancelled, Booking, Job, JobStatus, Db, Conference, has_id,
}
use room_booking_platform.Booking.Jobs.{
  FinishFaults, in_processing, set_jobs, finish_row, active_with, finish_conference_job,
  complete_conference_job, fail_conference_job, discard_conference_job,
}
use room_booking_platform.Booking.Consistency.{
  IsLinked, IsCounted, is_unfinished, is_live, Serves, IsConsistent, owned-update,
}

-- What the end of a job needs of the UPDATE of its booking.
module _ (id : ℕ) (which : Booking → Bool) (change : Booking → Booking)
    (same_id : (b : Booking) → (change b).id ≡ b.id)
    (same_asked : (b : Booking) → (change b).requested ≡ b.requested)
    (own : (b : Booking) → which b ≡ true → b.id ≡ id) where
  -- Only the jobs of `id` change, so that another booking keeps its unfinished job.
  live_other :
      (g : Job → Job)
      → ((j : Job) → (g j).booking ≡ j.booking)
      → (i : ℕ) → i ≢ id
      → (js : List Job)
      → exists (is_live i) (update (in_processing id) g js) ≡ exists (is_live i) js
  live_other g same i ne [] = refl
  live_other g same i ne (j ∷ js) = ground (arith, same j, live_other g same i ne js)

  abbrev closed_by : (Job → Job) → Db → Db
  closed_by g db =
      let changed = record db { bookings = update which change db.bookings } in
      set_jobs id g changed

  served :
      (db : Db)
      → IsConsistent db
      → count_if (in_processing id) db.jobs ≡ 1
      → All
          (λ b.
            b.id ≡ id
            → (b.requested ≡ true) × ((b.conference ≡ Conference.pending) ⊎ (b.status ≡ cancelled)))
          db.bookings
  served db h one =
      exists_All (λ j. All (Serves j) db.bookings) _ (in_processing id)
        (λ j a hit.
          All-map (Serves j) _
            (λ b k e. (k.asked (ground arith), k.open_for (ground arith) (ground arith)))
            db.bookings a)
        db.jobs h.serving (exists_of_count (in_processing id) db.jobs one)

  only_processing :
      (db : Db)
      → IsConsistent db
      → count_if (in_processing id) db.jobs ≡ 1
      → All (λ j. j.booking ≡ id → in_processing id j ≡ true) db.jobs
  only_processing db h one =
      Distinct-only (λ j. j.booking) id (in_processing id) (λ j e. ground arith) db.jobs
        h.jobs_distinct (exists_of_count (in_processing id) db.jobs one)

  module _ (g : Job → Job) (same : (j : Job) → (g j).booking ≡ j.booking)
      (ends : (j : Job) → is_unfinished (g j).status ≡ false)
      (counts : (j : Job) → IsCounted (g j)) where
    kept : (j : Job) → (if in_processing id j then g j else j).booking ≡ j.booking
    kept j = ground (arith, same j)

    still :
        (b : Booking) (js : List Job)
        → (b.conference ≡ Conference.pending → exists (is_live b.id) js ≡ true)
        → (b.id ≡ id → (if which b then change b else b).conference ≢ Conference.pending)
        → (if which b then change b else b).conference ≡ Conference.pending
        → exists (is_live (if which b then change b else b).id) (update (in_processing id) g js)
          ≡ true
    still b js t q c = elim (Bool-cases (which b)) [
      | inl y ↦ absurd (q (own b y) c)
      | inr n ↦ rw n (live_other g same b.id (λ e. q e c) js ∙ t (rw n at c))
    ]

    IsLinked-on :
        (b : Booking)
        → IsLinked b
        → (IsLinked b
            → which b ≡ true
            → b.requested ≡ true
            → (b.conference ≡ Conference.pending) ⊎ (b.status ≡ cancelled)
            → IsLinked (change b))
        → (b.id ≡ id
            → (b.requested ≡ true) × ((b.conference ≡ Conference.pending) ⊎ (b.status ≡ cancelled)))
        → IsLinked (if which b then change b else b)
    IsLinked-on b l k v = elim (Bool-cases (which b)) [
      | inl y ↦ let (r, o) = v (own b y) in rw y (k l y r o)
      | inr n ↦ rw n l
    ]

    Serves-one :
        (j : Job) (b : Booking)
        → (j.booking ≡ id → in_processing id j ≡ true)
        → Serves j b
        → Serves (if in_processing id j then g j else j) (if which b then change b else b)
    Serves-one j b only v =
        ground (arith, same j, ends j, same_id b, same_asked b, own b, only, v.asked, v.open_for)

    served_on :
        (j : Job) (bs : List Booking)
        → All (Serves j) bs
        → (j.booking ≡ id → in_processing id j ≡ true)
        → All (Serves (if in_processing id j then g j else j)) (update which change bs)
    served_on j bs k only = All-change (Serves j) _ which change (λ b v. Serves-one j b only v) bs k

    closed_by-IsConsistent :
        (db : Db)
        → All
            (λ b.
              IsLinked b
              → which b ≡ true
              → b.requested ≡ true
              → (b.conference ≡ Conference.pending) ⊎ (b.status ≡ cancelled)
              → IsLinked (change b))
            db.bookings
        → ((b : Booking)
            → IsLinked b
            → b.id ≡ id
            → (if which b then change b else b).conference ≢ Conference.pending)
        → IsConsistent db
        → count_if (in_processing id) db.jobs ≡ 1
        → IsConsistent (closed_by g db)
    closed_by-IsConsistent db links quiet h one = record {
      bookings_distinct =
          Distinct-update (λ b. b.id) which change same_id db.bookings h.bookings_distinct;
      jobs_distinct =
          Distinct-update (λ j. j.booking) (in_processing id) g same db.jobs h.jobs_distinct;
      linked =
          All-change _ IsLinked which change (λ b l. IsLinked-on b l.0 l.1.0 l.1.1) db.bookings
            (All-zip _ _ db.bookings h.linked (All-zip _ _ db.bookings links (served db h one)));
      counted = All-update IsCounted _ g (λ j _ _. counts j) db.jobs h.counted;
      owned =
          All-change _ _ (in_processing id) g (λ j e. rw (kept j) e) db.jobs
            (owned-update which change same_id same_asked db.bookings db.jobs h.owned);
      serving =
          All-change _ (λ j. All (Serves j) (update which change db.bookings)) (in_processing id) g
            (λ j k. served_on j db.bookings k.0 k.1) db.jobs
            (All-zip _ _ db.jobs h.serving (only_processing db h one));
      tracked =
          All-change _ _ which change (λ b k. still b db.jobs k.0 (quiet b k.1)) db.bookings
            (All-zip _ _ db.bookings h.tracked h.linked);
    }

  finish-IsConsistent :
      (f : FinishFaults) (st : JobStatus) (attempts : ℕ) (e : Option String) (db : Db)
      → is_unfinished st ≡ false
      → ((j : Job) → IsCounted (finish_row st attempts e j))
      → All
          (λ b.
            IsLinked b
            → which b ≡ true
            → b.requested ≡ true
            → (b.conference ≡ Conference.pending) ⊎ (b.status ≡ cancelled)
            → IsLinked (change b))
          db.bookings
      → ((b : Booking)
          → IsLinked b
          → b.id ≡ id
          → (if which b then change b else b).conference ≢ Conference.pending)
      → IsConsistent db
      → IsConsistent (finish_conference_job f id which change st attempts e db).1
  unfolding finish_conference_job
  finish-IsConsistent f st attempts e db fin counts links quiet h = ground (
    arith,
    closed_by-IsConsistent (finish_row st attempts e) (λ j. refl) (λ j. fin) counts db links quiet
        h,
  )

All-any {ℓ κ} : {A : Type ℓ} (P : A → Type κ) → ((x : A) → P x) → (xs : List A) → All P xs
All-any P f [] = tt
All-any P f (x ∷ xs) = (f x, All-any P f xs)

-- Recording the link of a conference keeps the tables consistent, whichever statement of the
-- transaction fails, if the job has made at most five attempts.
pub complete_conference_job-IsConsistent :
    (f : FinishFaults) (now id : ℕ) (link : String) (attempts : ℕ) (db : Db)
    → attempts ≤ 5
    → IsConsistent db
    → IsConsistent (complete_conference_job f now id link attempts db).1
unfolding complete_conference_job
complete_conference_job-IsConsistent f now id link attempts db a h =
    finish-IsConsistent id (active_with id) _ (λ b. refl) (λ b. refl) (λ b e. ground arith) f _
      attempts none db refl (λ j. ground arith) (All-any _ (λ b l w r o. ground arith) db.bookings)
      (λ b l e c. ground arith) h

-- Giving up a conference after the fifth attempt keeps the tables consistent.
pub fail_conference_job-IsConsistent :
    (f : FinishFaults) (now id attempts : ℕ) (e : String) (db : Db)
    → attempts ≡ 5
    → IsConsistent db
    → IsConsistent (fail_conference_job f now id attempts e db).1
unfolding fail_conference_job
fail_conference_job-IsConsistent f now id attempts e db a h =
    finish-IsConsistent id (active_with id) _ (λ b. refl) (λ b. refl) (λ b e. ground arith) f _
      attempts (some e) db refl (λ j. ground arith)
      (All-any _ (λ b l w r o. ground arith) db.bookings) (λ b l e c. ground arith) h

-- Discarding the job of a cancelled booking keeps the tables consistent.
pub discard_conference_job-IsConsistent :
    (f : FinishFaults) (now id attempts : ℕ) (db : Db)
    → attempts ≤ 5
    → IsConsistent db
    → IsConsistent (discard_conference_job f now id attempts db).1
unfolding discard_conference_job
discard_conference_job-IsConsistent f now id attempts db a h =
    finish-IsConsistent id (has_id id) _ (λ b. refl) (λ b. refl) (λ b e. ground arith) f _ attempts
      none db refl (λ j. ground arith) (All-any _ (λ b l w r o. ground arith) db.bookings)
      (λ b l e c. ground arith) h
