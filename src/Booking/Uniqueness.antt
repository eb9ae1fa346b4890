-- ===== src/Booking/Uniqueness.antt =====
-- The unique index on the slots of active bookings, while requests and the worker interleave.
use room_booking_platform.Base.{
  ℕ, ◌≡◌, refl, ap, sym, ◌∙◌, ◌≢◌, ◌⊎◌, inl, inr, true, false, Option, none, some, List, [], ◌∷◌,
  Result, ◌==◌, find, exists, arith, Bool-cases,
}
use room_booking_platform.Booking.Tables.{
  Status, active, Booking, Db, database, commit_unknown, has_id,
}
use room_booking_platform.Booking.Tables
use room_booking_platform.Booking.Bookings.{
  CreateFaults, clashes, is_active, stamped, create_with_conference_job,
}
use room_booking_platform.Booking.Bookings
use room_booking_platform.Booking.Creation.{Outcome, create_with_conference_job-Outcome}
use room_booking_platform.Booking.SlotService.{SlotService}
use room_booking_platform.Booking.Service
use room_booking_platform.Http.{Net, unsent, unanswered, answered}
use room_booking_platform.Booking.Service.{
  CreateBookingRequest, World, CreateEnv, CancelEnv, new_booking, book_slot, release_slot,
}
use room_booking_platform.Booking.Requests.{
  Creation, idle, asking, holding, unsure, compensating, created, Cancellation, quiet, looking,
  cleared, freed, cancelled, create_step, cancel_step,
}
use room_booking_platform.Booking.Requests
use room_booking_platform.Booking.Interleaving.{System, Step, Reach}
use room_booking_platform.Booking.Jobs.{claim_conference_jobs, discard_conference_job}
use room_booking_platform.Booking.Worker.{settle_link}
use room_booking_platform.Booking.Rows.{
  Row, as_row, row_of, row, SameRows, Closes, Saved, Stored-Saved, cancel-Closes,
  claim_conference_jobs-SameRows, settle_link-SameRows, discard_conference_job-SameRows,
}

-- Two active bookings of one slot are the same.
abbrev pub IsSingle : Db → Type 0
IsSingle db =
    (i j : ℕ) (r q : Row)
    → row i db ≡ some r
    → row j db ≡ some q
    → r.active ≡ true
    → q.active ≡ true
    → r.slot ≡ q.slot
    → i ≡ j

closed_before :
    (o o' : Option Row) (r : Row) → Closes o o' → o' ≡ some r → r.active ≡ true → o ≡ some r
closed_before o o' r (inl same) h a = sym same ∙ h
closed_before o o' r (inr (q, at, shut)) h a = absurd (never (sym shut ∙ h))
  where
    never : some (record q { active = false }) ≡ some r → ⊥
    never e = ground arith

Closes-IsSingle :
    (db db' : Db) → ((j : ℕ) → Closes (row j db) (row j db')) → IsSingle db → IsSingle db'
Closes-IsSingle db db' c single i j r q hi hj a b same =
    single i j r q (closed_before (row i db) (row i db') r (c i) hi a)
      (closed_before (row j db) (row j db') q (c j) hj b) a b same

SameRows-IsSingle : (db db' : Db) → SameRows db db' → IsSingle db → IsSingle db'
SameRows-IsSingle db db' same = Closes-IsSingle db db' (λ j. inl (same j))

Saved-IsSingle :
    (id : ℕ) (new : Row) (db db' : Db)
    → Saved id new db db'
    → ((j : ℕ) (q : Row) → row j db ≡ some q → q.active ≡ true → q.slot ≢ new.slot)
    → IsSingle db
    → IsSingle db'
Saved-IsSingle id new db db' st no_other single i j r q hi hj a b same =
    elim (Bool-cases (i == id)) [
      | inl y ↦ elim (Bool-cases (j == id)) [
        | inl z ↦ ground arith
        | inr m ↦
            let before = sym (st.others j (λ e. ground arith)) ∙ hj in
            absurd (no_other j q before b (sym same ∙ slot_of i y hi))
      ]
      | inr n ↦ elim (Bool-cases (j == id)) [
        | inl z ↦
            let before = sym (st.others i (λ e. ground arith)) ∙ hi in
            absurd (no_other i r before a (same ∙ slot_of j z hj))
        | inr m ↦
            single i j r q (sym (st.others i (λ e. ground arith)) ∙ hi)
              (sym (st.others j (λ e. ground arith)) ∙ hj) a b same
      ]
    ]
  where
    slot_of : {p : Row} (k : ℕ) → (k == id) ≡ true → row k db' ≡ some p → p.slot ≡ new.slot
    slot_of k y h = let e : k ≡ id = ground arith in ground (arith, rw e at h, st.here)

no_clash_id :
    (b : Booking) (bs : List Booking) → exists (clashes b) bs ≡ false → find (has_id b.id) bs ≡ none
no_clash_id b [] h = refl
no_clash_id b (c ∷ bs) h = ground (arith, no_clash_id b bs)

no_clash_slot :
    (b : Booking) (bs : List Booking) (j : ℕ) (q : Row)
    → is_active b.status ≡ true
    → exists (clashes b) bs ≡ false
    → row_of (find (has_id j) bs) ≡ some q
    → q.active ≡ true
    → q.slot ≢ b.slot
no_clash_slot b [] j q act h at a = cc
no_clash_slot b (c ∷ bs) j q act h at a = ground (arith, no_clash_slot b bs j q act)

create_free :
    (f : CreateFaults) (now : ℕ) (b : Booking) (db : Db)
    → ((create_with_conference_job f now b db).1 ≡ db)
      ⊎ (exists (clashes (stamped now b)) db.bookings ≡ false)
unfolding create_with_conference_job
create_free f now b db = ground arith

Outcome-IsSingle :
    (b : Booking) (db : Db) (q : Result Tables.Error Booking × Db)
    → is_active b.status ≡ true
    → exists (clashes b) db.bookings ≡ false
    → Outcome b db q
    → IsSingle db
    → IsSingle q.1
Outcome-IsSingle b db (r, db') act free (inl (_, st)) single =
    Saved-IsSingle b.id (as_row b) db db' (Stored-Saved b db db' st)
      (λ j q. no_clash_slot b db.bookings j q act free) single
Outcome-IsSingle b db (r, db') act free (inr (inl (_, same))) single = rw same single
Outcome-IsSingle b db (r, db') act free (inr (inr (_, inl same))) single = rw same single
Outcome-IsSingle b db (r, db') act free (inr (inr (_, inr st))) single =
    Saved-IsSingle b.id (as_row b) db db' (Stored-Saved b db db' st)
      (λ j q. no_clash_slot b db.bookings j q act free) single

create-IsSingle :
    (f : CreateFaults) (now : ℕ) (b : Booking) (db : Db)
    → is_active b.status ≡ true
    → IsSingle db
    → IsSingle (create_with_conference_job f now b db).1
create-IsSingle f now b db act single = elim (create_free f now b db) [
  | inl same ↦ rw same single
  | inr free ↦
      Outcome-IsSingle (stamped now b) db (create_with_conference_job f now b db) act free
        (create_with_conference_job-Outcome f now b db
          (no_clash_id (stamped now b) db.bookings free))
        single
]

module _ (s : SlotService) where
  release_slot-db :
      (net : Net) (e : s.Env) (slot b : ℕ) (w : World s)
      → (release_slot s net e slot b w).1.db ≡ w.db
  unfolding release_slot
  release_slot-db unsent e slot b w = refl
  release_slot-db unanswered e slot b w = refl
  release_slot-db answered e slot b w = refl

  booked-db :
      (net : Net) (e : s.Env) (slot b user : ℕ) (req : CreateBookingRequest) (w : World s)
      → (Requests.booked s user req (book_slot s net e slot b w)).1.db ≡ w.db
  unfolding book_slot
  booked-db unsent e slot b user req w = refl
  booked-db unanswered e slot b user req w = refl
  booked-db answered e slot b user req w = ground arith

  stored-db :
      (slot : ℕ) (q : Result Tables.Error Booking × Db) (w : World s)
      → (Requests.stored s slot q w).1.db ≡ q.1
  stored-db slot q w = ground arith

  create_step-IsSingle :
      (e : CreateEnv s) (p : Creation) (w : World s)
      → IsSingle w.db
      → IsSingle (create_step s e p w).1.db
  unfolding create_step
  create_step-IsSingle e idle w single = single
  create_step-IsSingle e (asking user req) w single =
      rw (booked-db e.book_net e.book_env req.slot e.booking_id user req w) single
  create_step-IsSingle e (holding user req meta) w single =
      let q =
        create_with_conference_job e.create e.now (new_booking e.booking_id user req meta) w.db in
      rw (stored-db req.slot q w)
        (create-IsSingle e.create e.now (new_booking e.booking_id user req meta) w.db refl single)
  create_step-IsSingle e (unsure slot) w single = single
  create_step-IsSingle e (compensating slot) w single =
      rw (release_slot-db e.release_net e.release_env slot e.booking_id w) single
  create_step-IsSingle e (created r) w single = single

  released-db :
      (id user : ℕ) (q : Result Service.Error (Unit {0}) × World s)
      → (Requests.released s id user q).1.db ≡ q.1.db
  released-db id user q = ground arith

  closed-db :
      (q : Result Tables.Error Booking × Db) (w : World s) → (Requests.closed s q w).1.db ≡ q.1
  closed-db q w = ground arith

  cancel_step-IsSingle :
      (e : CancelEnv s) (p : Cancellation) (w : World s)
      → IsSingle w.db
      → IsSingle (cancel_step s e p w).1.db
  unfolding cancel_step
  cancel_step-IsSingle e quiet w single = single
  cancel_step-IsSingle e (looking id user) w single = single
  cancel_step-IsSingle e (cleared id user slot) w single =
      rw
        (
          released-db id user (release_slot s e.release_net e.release_env slot id w),
          release_slot-db e.release_net e.release_env slot id w,
        )
        single
  cancel_step-IsSingle e (freed id user) w single =
      rw (closed-db (Bookings.cancel e.cancel e.now id w.db) w) (
        Closes-IsSingle w.db (Bookings.cancel e.cancel e.now id w.db).1
          (λ j. cancel-Closes e.cancel e.now id j w.db) single)
  cancel_step-IsSingle e (cancelled r) w single = single

  Reach-IsSingle : (slots : s.State) {m : System s} → Reach s slots m → IsSingle m.world.db
  Reach-IsSingle slots Reach.begin = λ i j r q h. cc
  Reach-IsSingle slots (Reach.next {m} r (Step.call_create _ _ _ _ _)) = Reach-IsSingle slots r
  Reach-IsSingle slots (Reach.next {m} r (Step.call_cancel _ _ _ _)) = Reach-IsSingle slots r
  Reach-IsSingle slots (Reach.next {m} r (Step.work _)) = Reach-IsSingle slots r
  Reach-IsSingle slots (Reach.next {m} r (Step.create e)) =
      create_step-IsSingle e (m.creation e.booking_id) m.world (Reach-IsSingle slots r)
  Reach-IsSingle slots (Reach.next {m} r (Step.cancel k e)) =
      cancel_step-IsSingle e (m.cancellation k) m.world (Reach-IsSingle slots r)
  Reach-IsSingle slots (Reach.next {m} r (Step.claim c limit lease)) =
      SameRows-IsSingle m.world.db (claim_conference_jobs c limit lease m.world.db).1
        (claim_conference_jobs-SameRows c limit lease m.world.db) (Reach-IsSingle slots r)
  Reach-IsSingle slots (Reach.next {m} r (Step.settle e job x)) =
      SameRows-IsSingle m.world.db (settle_link e job x m.world.db).1
        (settle_link-SameRows e job x m.world.db) (Reach-IsSingle slots r)
  Reach-IsSingle slots (Reach.next {m} r (Step.discard e job)) =
      SameRows-IsSingle m.world.db
        (discard_conference_job e.finish e.now job.booking job.attempts m.world.db).1
        (discard_conference_job-SameRows e.finish e.now job.booking job.attempts m.world.db)
        (Reach-IsSingle slots r)

  -- With no booking at the start, and whatever the slot service answers and does by itself,
  -- however the calls of any number of creations, cancellations and runs of the worker interleave
  -- and however each call ends: two active bookings of the same slot are one and the same.
  pub no_double_booking :
      (slots : s.State) {m : System s} (id id' : ℕ) (b b' : Booking)
      → Reach s slots m
      → find (has_id id) m.world.db.bookings ≡ some b
      → find (has_id id') m.world.db.bookings ≡ some b'
      → b.status ≡ active
      → b'.status ≡ active
      → b.slot ≡ b'.slot
      → id ≡ id'
  no_double_booking slots id id' b b' r h h' act act' same =
      Reach-IsSingle slots r id id' (as_row b) (as_row b') (ap row_of h) (ap row_of h')
        (rw act refl) (rw act' refl) same
