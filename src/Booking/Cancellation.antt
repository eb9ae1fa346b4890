-- ===== src/Booking/Cancellation.antt =====
-- CancelBooking across the two services: the checks, the release of the slot, and the local change.
use room_booking_platform.Base.{
  ℕ, ◌≡◌, refl, ap, sym, ◌∙◌, ◌≢◌, ◌⊎◌, inl, inr, Bool, true, false, Option, none, some, List, [],
  ◌∷◌, Result, ok, is_ok, err, Exec, if◌then◌else◌, ◌==◌, find, find_passes, update, find-update,
  change, arith, released,
}
use room_booking_platform.Http.{Response, Net, unsent, unanswered, answered, status_of}
use room_booking_platform.Booking.Tables.{
  Status, active, cancelled, Booking, Conference, Db, has_id,
}
use room_booking_platform.Booking.Tables
use room_booking_platform.Booking.Bookings.{get_by_id, cancel, cancel_row, cancel_rows, found}
use room_booking_platform.Booking.SlotService.{SlotService, IsSlotService, SlotView}
use room_booking_platform.Booking.Service.{
  Error, BookingResponse, World, CancelEnv, to_response, release_answer, release_slot,
  cancel_booking, cancel_answer, cancel_found, cancel_released,
}

module _ (s : SlotService) (view : SlotView s) (laws : IsSlotService s view) where
  open view use {IsValid, holder}

  -- The row of the booking `b` after its cancellation.
  pub record IsCancelled (now : ℕ) (b row : Booking) : Type 0 where
    pub same : (row.id ≡ b.id) × (row.slot ≡ b.slot) × (row.user ≡ b.user) × (row.room ≡ b.room)
    pub times :
        (row.slot_start ≡ b.slot_start)
        × (row.slot_end ≡ b.slot_end)
        × (row.created_at ≡ b.created_at)
    pub status : row.status ≡ cancelled
    pub link : row.link ≡ none
    pub cancelled_at : row.cancelled_at ≡ some now
    pub requested : b.requested ≡ true → row.conference ≡ Conference.not_requested
    pub not_asked : b.requested ≡ false → row.conference ≡ b.conference

  cancel_row-IsCancelled : (now : ℕ) (b : Booking) → IsCancelled now b (cancel_row now b)
  cancel_row-IsCancelled now b = record {
    same = (refl, refl, refl, refl);
    times = (refl, refl, refl);
    status = refl;
    link = refl;
    cancelled_at = refl;
    requested = λ h. rw h refl;
    not_asked = λ h. rw h refl;
  }

  -- What a cancellation of the active booking `b` has done.
  pub record Cancelled (now id : ℕ) (b : Booking) (w w' : World s) (r : BookingResponse)
      : Type 0 where
    pub answer : (r.id ≡ b.id) × (r.slot ≡ b.slot) × (r.user ≡ b.user)
    pub answer_status : r.status ≡ cancelled
    pub answer_link : r.link ≡ none
    pub row : Booking
    pub here : find (has_id id) w'.db.bookings ≡ some row
    pub is_cancelled : IsCancelled now b row
    pub others : (j : ℕ) → j ≢ id → find (has_id j) w'.db.bookings ≡ find (has_id j) w.db.bookings
    pub jobs : w'.db.jobs ≡ w.db.jobs
    pub held :
        (j : ℕ)
        → holder j w'.slots
          ≡ (if j == b.slot then released id (holder j w.slots) else holder j w.slots)

  module _ (e : CancelEnv s) (id user : ℕ) where
    pub release_slot-db :
        (net : Net) (v : s.Env) (slot b : ℕ) (w : World s)
        → (release_slot s net v slot b w).1.db ≡ w.db
    unfolding release_slot
    release_slot-db unsent v slot b w = refl
    release_slot-db unanswered v slot b w = refl
    release_slot-db answered v slot b w = refl

    pub release_slot_held :
        (net : Net) (v : s.Env) (slot b : ℕ) (w : World s)
        → IsValid w.slots
        → is_ok (release_slot s net v slot b w).0 ≡ true
        → (j : ℕ)
        → holder j (release_slot s net v slot b w).1.slots
          ≡ (if j == slot then released b (holder j w.slots) else holder j w.slots)
    unfolding release_slot
    release_slot_held unsent v slot b w ok_w h = cc
    release_slot_held unanswered v slot b w ok_w h = cc
    release_slot_held answered v slot b w ok_w h =
        laws.release_ok v slot b w.slots ok_w (release_answered (s.release v slot b w.slots).0 h)
      where
        release_answered :
            (r : Response (Unit {0})) → is_ok (release_answer r) ≡ true → status_of r ≡ 200
        release_answered r h = ground arith

    find-cancel_rows :
        (now j : ℕ) (db : Db)
        → find (has_id j) (cancel_rows now id db).bookings
          ≡ change (has_id id) (cancel_row now) (find (has_id j) db.bookings)
    find-cancel_rows now j db =
        find-update (has_id j) (has_id id) (cancel_row now) (λ b. refl) db.bookings

    find_other :
        (j now : ℕ)
        → j ≢ id
        → (bs : List Booking)
        → find (has_id j) (update (has_id id) (cancel_row now) bs) ≡ find (has_id j) bs
    find_other j now ne [] = refl
    find_other j now ne (b ∷ bs) = ground (arith, find_other j now ne bs)

    pub found_cancelled :
        (now : ℕ) (db : Db) (b : Booking)
        → find (has_id id) db.bookings ≡ some b
        → find (has_id id) (cancel_rows now id db).bookings ≡ some (cancel_row now b)
    found_cancelled now db b h =
        find-cancel_rows now id db
        ∙ ap (change (has_id id) (cancel_row now)) h
        ∙ rw (find_passes (has_id id) db.bookings b h) refl

    cancel_ok :
        (f : Exec) (now : ℕ) (db db' : Db) (b c : Booking)
        → find (has_id id) db.bookings ≡ some b
        → cancel f now id db ≡ (ok c, db')
        → (c ≡ cancel_row now b) × (db' ≡ cancel_rows now id db)
    unfolding cancel
    cancel_ok Exec.done now db db' b c h k = ground (arith, found_cancelled now db b h)
    cancel_ok Exec.failed now db db' b c h k = cc
    cancel_ok Exec.lost now db db' b c h k = cc

    answer_ok :
        (q : Result Tables.Error Booking × Db) (w w' : World s) (r : BookingResponse)
        → cancel_answer s q w ≡ (ok r, w')
        → (c : Booking) × (q ≡ (ok c, w'.db)) × (w'.slots ≡ w.slots) × (r ≡ to_response c)
    answer_ok (ok c, db) w w' r h = (c, ground arith, ground arith, ground arith)
    answer_ok (err x, db) w w' r h = cc

    released_ok :
        (q : Result Error (Unit {0}) × World s) (w' : World s) (r : BookingResponse)
        → cancel_released s e id q ≡ (ok r, w')
        → (is_ok q.0 ≡ true) × (cancel_answer s (cancel e.cancel e.now id q.1.db) q.1 ≡ (ok r, w'))
    released_ok (ok _, w) w' r h = (refl, h)
    released_ok (err x, w) w' r h = cc

    found_ok :
        (fails : Bool) (o : Option Booking) (b : Booking) (w w' : World s) (r : BookingResponse)
        → o ≡ some b
        → b.status ≡ active
        → cancel_found s e id user (if fails then err Tables.Error.database else found o) w
          ≡ (ok r, w')
        → (b.user ≡ user)
          × (cancel_released s e id (release_slot s e.release_net e.release_env b.slot id w)
              ≡ (ok r, w'))
    found_ok true o b w w' r i a h = cc
    found_ok false none b w w' r i a h = cc
    found_ok false (some c) b w w' r i a h = ground arith

    cancelled_shape :
        (w w' : World s) (b : Booking) (r : BookingResponse)
        → find (has_id id) w.db.bookings ≡ some b
        → b.status ≡ active
        → cancel_booking s e id user w ≡ (ok r, w')
        → let p = release_slot s e.release_net e.release_env b.slot id w in
          (b.user ≡ user)
          × (is_ok p.0 ≡ true)
          × (w'.slots ≡ p.1.slots)
          × (w'.db ≡ cancel_rows e.now id w.db)
          × (r ≡ to_response (cancel_row e.now b))
    unfolding cancel_booking get_by_id
    cancelled_shape w w' b r at a h =
        let p = release_slot s e.release_net e.release_env b.slot id w in
        let (own, rest) =
          found_ok e.lookup_fails (find (has_id id) w.db.bookings) b w w' r at a h in
        let (done, rest) = released_ok p w' r rest in
        let (c, ran, slots, answer) = answer_ok (cancel e.cancel e.now id p.1.db) p.1 w' r rest in
        let same = release_slot-db e.release_net e.release_env b.slot id w in
        let (row, db) = cancel_ok e.cancel e.now p.1.db w'.db b c (rw same at) ran in
        (own, done, slots, rw same at db, rw row at answer)

    -- From valid slots, a cancellation of an active booking that succeeds was asked for by its
    -- user. The booking has the status cancelled, the time of the cancellation, no link, and the
    -- conference not_requested if it asked for one; it keeps its id, user, slot, room, times and
    -- creation time. The answer has the id, slot and user, that status and no link. The
    -- booking no longer holds its slot, and no other booking, no job and no other holder changes.
    pub cancel_booking-Cancelled :
        (w w' : World s) (b : Booking) (r : BookingResponse)
        → IsValid w.slots
        → find (has_id id) w.db.bookings ≡ some b
        → b.status ≡ active
        → cancel_booking s e id user w ≡ (ok r, w')
        → (b.user ≡ user) × Cancelled e.now id b w w' r
    cancel_booking-Cancelled w w' b r v at a h =
        let (own, done, slots, db, answer) = cancelled_shape w w' b r at a h in
        (
          own,
          record {
            answer = (ap (λ x. x.id) answer, ap (λ x. x.slot) answer, ap (λ x. x.user) answer);
            answer_status = ap (λ x. x.status) answer;
            answer_link = ap (λ x. x.link) answer;
            row = cancel_row e.now b;
            here = rw db (found_cancelled e.now w.db b at);
            is_cancelled = cancel_row-IsCancelled e.now b;
            others = λ j ne. rw db (find_other j e.now ne w.db.bookings);
            jobs = ap (λ d. d.jobs) db;
            held =
                λ j. rw slots (release_slot_held e.release_net e.release_env b.slot id w v done j);
          },
        )

    found_any :
        (fails : Bool) (o : Option Booking) (w w' : World s) (r : BookingResponse)
        → cancel_found s e id user (if fails then err Tables.Error.database else found o) w
          ≡ (ok r, w')
        → (b : Booking) × (o ≡ some b)
          × (b.user ≡ user)
          × ((b.status ≡ active) ⊎ ((b.status ≡ cancelled) × (w' ≡ w) × (r ≡ to_response b)))
    found_any true o w w' r h = cc
    found_any false none w w' r h = cc
    found_any false (some c) w w' r h = (c, refl, ground arith, ground arith)

    at_cancelled :
        (e2 : CancelEnv s) (w : World s) (b : Booking)
        → e2.lookup_fails ≡ false
        → find (has_id id) w.db.bookings ≡ some b
        → b.user ≡ user
        → b.status ≡ cancelled
        → cancel_booking s e2 id user w ≡ (ok (to_response b), w)
    unfolding cancel_booking get_by_id
    at_cancelled e2 w b l at own a = rw (l, at) (ground arith)

    -- After a cancellation that succeeded, cancelling again gives the same answer and changes
    -- nothing, provided that the lookup works.
    pub cancel_booking_twice :
        (e2 : CancelEnv s) (w w' : World s) (r : BookingResponse)
        → e2.lookup_fails ≡ false
        → cancel_booking s e id user w ≡ (ok r, w')
        → cancel_booking s e2 id user w' ≡ (ok r, w')
    unfolding cancel_booking get_by_id
    cancel_booking_twice e2 w w' r l h =
        let (b, at, own, which) = any in
        elim which [
          | inl a ↦
              let (_, _, _, db, answer) = cancelled_shape w w' b r at a h in
              at_cancelled e2 w' (cancel_row e.now b) l (rw db (found_cancelled e.now w.db b at))
                own refl
              ∙ ap (λ x. (ok x, w')) (sym answer)
          | inr (a, same, answer) ↦
              at_cancelled e2 w' b l (rw same at) own a ∙ ap (λ x. (ok x, w')) (sym answer)
        ]
      where
        any :
            (b : Booking) × (find (has_id id) w.db.bookings ≡ some b)
            × (b.user ≡ user)
            × ((b.status ≡ active) ⊎ ((b.status ≡ cancelled) × (w' ≡ w) × (r ≡ to_response b)))
        any = found_any e.lookup_fails (find (has_id id) w.db.bookings) w w' r h
