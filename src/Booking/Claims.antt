-- ===== src/Booking/Claims.antt =====
-- ClaimConferenceJobs and RescheduleConferenceJob keep the tables consistent.
use room_booking_platform.Base.{
  ℕ, zero, suc, ◌≤◌, ◌≡◌, refl, String, Bool, true, ◌&&◌, not, List, [], ◌∷◌, Result, ok, err, Exec,
  if◌then◌else◌, exists, update, select, take, arith, All, All-select, select_passes, Distinct,
  Distinct-update, Distinct-same, All-map, All-zip, All-change, exists_All,
}
use mathlib.Core.Path.{subst}
use room_booking_platform.Booking.Tables.{Booking, Job, Db, Error, is_for}
use room_booking_platform.Booking.Jobs.{
  ClaimEnv, ConferenceJob, in_processing, claimable, candidates, chosen, lock_row, lock_rows,
  order_by_creation, insert_by_creation, returned, reschedule_row, set_jobs, claim_conference_jobs,
  reschedule_conference_job,
}
use room_booking_platform.Booking.Worker.{lease}
use room_booking_platform.Booking.Consistency.{
  IsCounted, is_unfinished, is_live, Serves, IsConsistent,
}

live_kept :
    (p : Job → Bool) (g : Job → Job)
    → ((j : Job) → (g j).booking ≡ j.booking)
    → ((j : Job) → is_unfinished (g j).status ≡ true)
    → (i : ℕ) (js : List Job) → exists (is_live i) js ≡ true
    → exists (is_live i) (update p g js) ≡ true
live_kept p g same live i [] h = h
live_kept p g same live i (j ∷ js) h = ground (arith, same j, live j, live_kept p g same live i js)

-- An update of jobs that leaves them unfinished.
module _ (p : Job → Bool) (g : Job → Job) (same : (j : Job) → (g j).booking ≡ j.booking)
    (live : (j : Job) → is_unfinished (g j).status ≡ true) where
  kept : (j : Job) → (if p j then g j else j).booking ≡ j.booking
  kept j = ground (arith, same j)

  Serves-kept :
      (j : Job) (b : Booking)
      → (p j ≡ true → is_unfinished j.status ≡ true)
      → Serves j b
      → Serves (if p j then g j else j) b
  Serves-kept j b was v = ground (arith, same j, was, v.asked, v.open_for)

  jobs_update-IsConsistent :
      (db : Db)
      → All (λ j. p j ≡ true → is_unfinished j.status ≡ true) db.jobs
      → All (λ j. p j ≡ true → IsCounted j → IsCounted (g j)) db.jobs
      → IsConsistent db
      → IsConsistent (record db { jobs = update p g db.jobs })
  jobs_update-IsConsistent db was counts h = record {
    bookings_distinct = h.bookings_distinct;
    jobs_distinct = Distinct-update (λ j. j.booking) p g same db.jobs h.jobs_distinct;
    linked = h.linked;
    counted =
        All-change _ IsCounted p g (λ j k. ground (arith, k.0, k.1)) db.jobs
          (All-zip _ _ db.jobs h.counted counts);
    owned = All-change _ _ p g (λ j e. rw (kept j) e) db.jobs h.owned;
    serving =
        All-change _ (λ j. All (Serves j) db.bookings) p g
          (λ j k. All-map (Serves j) _ (λ b v. Serves-kept j b k.1 v) db.bookings k.0) db.jobs
          (All-zip _ _ db.jobs h.serving was);
    tracked =
        All-map _ _ (λ b t c. live_kept p g same live b.id db.jobs (t c)) db.bookings h.tracked;
  }

All-any {ℓ κ} : {A : Type ℓ} (P : A → Type κ) → ((x : A) → P x) → (xs : List A) → All P xs
All-any P f [] = tt
All-any P f (x ∷ xs) = (f x, All-any P f xs)

reschedule_rows-IsConsistent :
    (id attempts next_retry : ℕ) (e : String) (db : Db)
    → attempts ≤ 4
    → IsConsistent db
    → IsConsistent (set_jobs id (reschedule_row attempts next_retry e) db)
reschedule_rows-IsConsistent id attempts next_retry e db a h =
    jobs_update-IsConsistent (in_processing id) (reschedule_row attempts next_retry e) (λ j. refl)
      (λ j. refl) db (All-any _ (λ j q. ground arith) db.jobs)
      (All-any _ (λ j q c. ground arith) db.jobs) h

-- Rescheduling a job that has attempts left keeps the tables consistent, however the statement ends.
pub reschedule_conference_job-IsConsistent :
    (f : Exec) (id attempts next_retry : ℕ) (e : String) (db : Db)
    → attempts ≤ 4
    → IsConsistent db
    → IsConsistent (reschedule_conference_job f id attempts next_retry e db).1
unfolding reschedule_conference_job
reschedule_conference_job-IsConsistent Exec.done id attempts next_retry e db a h =
    reschedule_rows-IsConsistent id attempts next_retry e db a h
reschedule_conference_job-IsConsistent Exec.failed id attempts next_retry e db a h = h
reschedule_conference_job-IsConsistent Exec.lost id attempts next_retry e db a h =
    reschedule_rows-IsConsistent id attempts next_retry e db a h

-- What holds of every row holds of the candidates.
module _ {κ} (P : Job → Type κ) where
  All-insert_by_creation :
      (j : Job) (js : List Job) → P j → All P js → All P (insert_by_creation j js)
  All-insert_by_creation j [] p h = (p, tt)
  All-insert_by_creation j (k ∷ ks) p h = ground (arith, p, All-insert_by_creation j ks p h.1)

  All-order_by_creation : (js : List Job) → All P js → All P (order_by_creation js)
  All-order_by_creation [] h = tt
  All-order_by_creation (j ∷ js) h =
      All-insert_by_creation j (order_by_creation js) h.0 (All-order_by_creation js h.1)

  All-take : (n : ℕ) (js : List Job) → All P js → All P (take n js)
  All-take zero js h = tt
  All-take (suc n) [] h = tt
  All-take (suc n) (j ∷ js) h = (h.0, All-take n js h.1)

claimable_unfinished :
    (lease now : ℕ) (j : Job) → claimable lease now j ≡ true → is_unfinished j.status ≡ true
claimable_unfinished lease now j h = ground arith

module _ (limit lease now : ℕ) (locked : ℕ → Bool) (db : Db) where
  abbrev eligible : Job → Bool
  eligible j = claimable lease now j && not (locked j.booking)

  candidates_All :
      (P : Job → Type 0)
      → All P db.jobs
      → All (λ k. P k × (eligible k ≡ true)) (candidates limit lease now locked db)
  unfolding candidates
  candidates_All P h =
      All-take (λ k. P k × (eligible k ≡ true)) limit (order_by_creation (select eligible db.jobs))
        (All-order_by_creation (λ k. P k × (eligible k ≡ true)) (select eligible db.jobs)
          (All-zip P (λ k. eligible k ≡ true) (select eligible db.jobs)
            (All-select P eligible db.jobs h) (select_passes eligible db.jobs)))

  same_claimable :
      (j k : Job)
      → (k.booking ≡ j.booking → k ≡ j)
      → eligible k ≡ true
      → is_for j.booking k ≡ true
      → claimable lease now j ≡ true
  same_claimable j k alone e hit =
      let k_j : k ≡ j = alone (ground arith) in
      let k_claimable : claimable lease now k ≡ true = ground arith in
      subst (λ r. claimable lease now r ≡ true) k_j k_claimable

  -- A row that the claim updates was claimable.
  chosen-claimable :
      Distinct (λ j. j.booking) db.jobs
      → All
          (λ j.
            chosen (candidates limit lease now locked db) j ≡ true → claimable lease now j ≡ true)
          db.jobs
  chosen-claimable d =
      All-map _ _
        (λ j alone hit.
          exists_All _ (claimable lease now j ≡ true) (is_for j.booking)
            (λ k p e. same_claimable j k p.0 p.1 e) (candidates limit lease now locked db)
            (candidates_All _ alone) hit)
        db.jobs (Distinct-same (λ j. j.booking) db.jobs d)

  unfinished_attempts : (j : Job) → claimable lease now j ≡ true → IsCounted j → j.attempts ≤ 4
  unfinished_attempts j h c = ground arith

  lock_rows-IsConsistent :
      IsConsistent db → IsConsistent (lock_rows now (candidates limit lease now locked db) db)
  lock_rows-IsConsistent h =
      let cs = candidates limit lease now locked db in
      jobs_update-IsConsistent (chosen cs) (lock_row now) (λ j. refl) (λ j. refl) db
        (All-map _ _ (λ j c hit. claimable_unfinished lease now j (c hit)) db.jobs
          (chosen-claimable h.jobs_distinct))
        (All-map _ _
          (λ j c hit n. record {
            waiting = λ e. cc;
            running = λ e. unfinished_attempts j (c hit) n;
            given_up = λ e. cc;
            finished = n.finished;
          })
          db.jobs (chosen-claimable h.jobs_distinct))
        h

-- A claim keeps consistent tables consistent, however its transaction ends.
pub claim_conference_jobs-IsConsistent :
    (e : ClaimEnv) (limit lease : ℕ) (db : Db)
    → IsConsistent db
    → IsConsistent (claim_conference_jobs e limit lease db).1
unfolding claim_conference_jobs
claim_conference_jobs-IsConsistent e zero lease db h = h
claim_conference_jobs-IsConsistent e (suc limit) lease db h =
    ground (arith, lock_rows-IsConsistent (suc limit) lease e.now e.locked db h)

-- An answer of which every job has at least one of the five attempts left.
abbrev pub HasAttempts : Result Error (List ConferenceJob) → Type 0
HasAttempts (ok js) = All (λ j. j.attempts ≤ 4) js
HasAttempts (err _) = Unit

returned_attempts :
    (p : Job → Bool) (js : List Job)
    → All (λ j. p j ≡ true → j.attempts ≤ 4) js
    → All (λ j. j.attempts ≤ 4) (returned (select p js))
returned_attempts p [] h = tt
returned_attempts p (j ∷ js) h = ground (arith, h.0, returned_attempts p js h.1)

-- A claim on consistent tables returns only jobs that have made at most four attempts.
pub claim_conference_jobs-HasAttempts :
    (e : ClaimEnv) (limit lease : ℕ) (db : Db)
    → IsConsistent db
    → HasAttempts (claim_conference_jobs e limit lease db).0
unfolding claim_conference_jobs
claim_conference_jobs-HasAttempts e zero lease db h = tt
claim_conference_jobs-HasAttempts e (suc limit) lease db h = ground (
  arith,
  returned_attempts (chosen (candidates (suc limit) lease e.now e.locked db)) db.jobs (
      All-map _ _
        (λ j k hit. unfinished_attempts (suc limit) lease e.now e.locked db j (k.0 hit) k.1) db.jobs
        (All-zip _ _ db.jobs (chosen-claimable (suc limit) lease e.now e.locked db h.jobs_distinct)
          h.counted)),
)
