-- ===== src/Booking/Saga.antt =====
-- CreateBooking across the two services: a reservation, the local transaction, and the compensation.
use room_booking_platform.Base.{
  ℕ, ◌≡◌, refl, ap, sym, ◌∙◌, ◌≢◌, ◌⊎◌, inl, inr, String, true, false, none, some, Result, ok,
  is_ok, err, if◌then◌else◌, ◌==◌, find, arith, same_text, Bool-cases, released,
}
use mathlib.Core.Path.{subst}
use room_booking_platform.Http.{Response, Net, unsent, unanswered, answered, status_of}
use room_booking_platform.Booking.Tables.{
  Status, active, cancelled, Booking, Db, commit_unknown, database, has_id, is_for,
}
use room_booking_platform.Booking.Tables
use room_booking_platform.Booking.Bookings.{stamped, create_with_conference_job, get_by_id}
use room_booking_platform.Booking.SlotService.{SlotService, IsSlotService, SlotView, SlotMeta}
use room_booking_platform.Booking.Creation.{Stored, Outcome, create_with_conference_job-Outcome}
use room_booking_platform.Booking.Service.{
  Error, BookingResponse, reserved, stored, CreateBookingRequest, World, CreateEnv, to_response,
  new_booking, slot_answer, book_slot, release_slot, create_booking,
}

slot_answer_status :
    (r : Response SlotMeta) (m : SlotMeta) → slot_answer r ≡ ok m → status_of r ≡ 200
slot_answer_status r m h = ground arith

slot_answer_ne : (r : Response SlotMeta) (x : Error) → slot_answer r ≡ err x → status_of r ≢ 200
slot_answer_ne r x h = ground arith

module _ (s : SlotService) (view : SlotView s) (laws : IsSlotService s view) where
  open view use {IsValid, holder}

  -- What bookSlot has done when it returns.
  pub book_slot_ok :
      (net : Net) (e : s.Env) (slot b : ℕ) (w w' : World s) (m : SlotMeta)
      → IsValid w.slots
      → book_slot s net e slot b w ≡ (ok m, w')
      → (holder slot w.slots ≡ none)
        × ((j : ℕ) → holder j w'.slots ≡ (if j == slot then some b else holder j w.slots))
        × (w'.db ≡ w.db)
        × IsValid w'.slots
  unfolding book_slot
  book_slot_ok unsent e slot b w w' m v h = cc
  book_slot_ok unanswered e slot b w w' m v h = cc
  book_slot_ok answered e slot b w w' m v h =
      let status = slot_answer_status (s.book e slot b w.slots).0 m (ap (λ p. p.0) h) in
      let after = ap (λ p. p.1) h in
      let law = laws.book_ok e slot b w.slots v status in
      rw (← after) (law.0, law.1, refl, laws.book_valid e slot b w.slots v)

  -- A reservation that is not lost on the way, and that the service does not fail, changes the slots
  -- only if it succeeds.
  book_slot_err :
      (net : Net) (e : s.Env) (slot b : ℕ) (w w' : World s) (x : Error)
      → IsValid w.slots
      → net ≢ unanswered
      → status_of (s.book e slot b w.slots).0 ≢ 500
      → book_slot s net e slot b w ≡ (err x, w')
      → ((j : ℕ) → holder j w'.slots ≡ holder j w.slots) × (w'.db ≡ w.db)
  unfolding book_slot
  book_slot_err unsent e slot b w w' x v n st h = rw (← ap (λ p. p.1) h) ((λ j. refl), refl)
  book_slot_err unanswered e slot b w w' x v n st h = absurd (n refl)
  book_slot_err answered e slot b w w' x v n st h = rw (← ap (λ p. p.1) h) (
    laws.book_refused e slot b w.slots v
        (slot_answer_ne (s.book e slot b w.slots).0 x (ap (λ p. p.0) h)) st,
    refl,
  )

  -- A release that is answered with success.
  release_slot_ok :
      (net : Net) (e : s.Env) (slot b : ℕ) (w : World s)
      → IsValid w.slots
      → net ≡ answered
      → status_of (s.release e slot b w.slots).0 ≡ 200
      → ((j : ℕ)
          → holder j (release_slot s net e slot b w).1.slots
            ≡ (if j == slot then released b (holder j w.slots) else holder j w.slots))
        × ((release_slot s net e slot b w).1.db ≡ w.db)
  unfolding release_slot
  release_slot_ok unsent e slot b w v n st = cc
  release_slot_ok unanswered e slot b w v n st = cc
  release_slot_ok answered e slot b w v n st = (laws.release_ok e slot b w.slots v st, refl)

  module _ (e : CreateEnv s) (user : ℕ) (req : CreateBookingRequest) where
    create_booking_err_early :
        (role : String) (w : World s)
        → ((same_text role "admin" ≡ true) ⊎ (req.slot ≡ 0))
        → ((create_booking s e user role req w).1 ≡ w)
          × (is_ok (create_booking s e user role req w).0 ≡ false)
    unfolding create_booking
    create_booking_err_early role w h = ground arith

    create_booking-reserved :
        (role : String) (w : World s)
        → same_text role "admin" ≡ false
        → req.slot ≢ 0
        → create_booking s e user role req w
          ≡ reserved s e user req (book_slot s e.book_net e.book_env req.slot e.booking_id w)
    unfolding create_booking
    create_booking-reserved role w a n = ground arith

    -- After the transaction: an answer with success is that of the stored booking.
    stored_ok :
        (b : Booking) (c : Result Tables.Error Booking × Db) (w w' : World s) (r : BookingResponse)
        → b.id ≡ e.booking_id
        → find (has_id b.id) w.db.bookings ≡ none
        → Outcome b w.db c
        → stored s e req.slot c w ≡ (ok r, w')
        → (w'.slots ≡ w.slots) × Stored b w.db w'.db × (r ≡ to_response b)
    unfolding get_by_id
    stored_ok b (ok c, db) w w' r i fresh o h = ground arith
    stored_ok b (err Tables.Error.database, db) w w' r i fresh o h = cc
    stored_ok b (err Tables.Error.booking_not_found, db) w w' r i fresh o h = cc
    stored_ok b (err Tables.Error.commit_unknown, db) w w' r i fresh o h = ground arith

    -- If the transaction is not acknowledged, an error leaves the bookings as they were, provided the
    -- lookup is not refused; and then the slot is released.
    stored_err :
        (b : Booking) (c : Result Tables.Error Booking × Db) (w w' : World s) (x : Error)
        → b.id ≡ e.booking_id
        → e.lookup_fails ≡ false
        → find (has_id b.id) w.db.bookings ≡ none
        → Outcome b w.db c
        → stored s e req.slot c w ≡ (err x, w')
        → w' ≡ (release_slot s e.release_net e.release_env req.slot e.booking_id w).1
    unfolding get_by_id
    stored_err b (ok c, db) w w' x i l fresh o h = cc
    stored_err b (err Tables.Error.database, db) w w' x i l fresh o h = ground arith
    stored_err b (err Tables.Error.booking_not_found, db) w w' x i l fresh o h = ground arith
    stored_err b (err Tables.Error.commit_unknown, db) w w' x i l fresh o h = ground arith

    -- What a CreateBooking that succeeds has found and done.
    pub record Created (w w' : World s) (r : BookingResponse) : Type 0 where
      pub unheld : holder req.slot w.slots ≡ none
      pub held :
          (j : ℕ)
          → holder j w'.slots ≡ (if j == req.slot then some e.booking_id else holder j w.slots)
      pub booking : Booking
      pub stored : Stored booking w.db w'.db
      pub answer : r ≡ to_response booking
      pub owner : (booking.id ≡ e.booking_id) × (booking.user ≡ user) × (booking.slot ≡ req.slot)
      pub status : (booking.status ≡ active) × (booking.requested ≡ req.conference)

    reserved_ok :
        (p : Result Error SlotMeta × World s) (w w' : World s) (r : BookingResponse)
        → IsValid w.slots
        → find (has_id e.booking_id) w.db.bookings ≡ none
        → book_slot s e.book_net e.book_env req.slot e.booking_id w ≡ p
        → reserved s e user req p ≡ (ok r, w')
        → Created w w' r
    reserved_ok (err x, u) w w' r v fresh eq h = cc
    reserved_ok (ok meta, u) w w' r v fresh eq h =
        let (unheld, held, db, _) =
          book_slot_ok e.book_net e.book_env req.slot e.booking_id w u meta v eq in
        let b = stamped e.now (new_booking e.booking_id user req meta) in
        let fresh' : find (has_id e.booking_id) u.db.bookings ≡ none = rw db fresh in
        let outcome =
          create_with_conference_job-Outcome e.create e.now (new_booking e.booking_id user req meta)
            u.db fresh' in
        let (slots, stored, answer) =
          stored_ok b
            (create_with_conference_job e.create e.now (new_booking e.booking_id user req meta)
              u.db)
            u w' r refl fresh' outcome h in
        record {
          unheld = unheld;
          held = λ j. rw slots (held j);
          booking = b;
          stored = subst (λ d. Stored b d w'.db) db stored;
          answer = answer;
          owner = (refl, refl, refl);
          status = (refl, refl);
        }

    -- From valid slots and with an id that no booking has, a CreateBooking that succeeds was not
    -- asked for by an admin; it found the slot unheld, and leaves it held by the new booking,
    -- which is stored as an active booking of the user, with its conference job if it asked for
    -- one; no other slot and no other booking changes.
    pub create_booking-Created :
        (role : String) (w w' : World s) (r : BookingResponse)
        → IsValid w.slots
        → find (has_id e.booking_id) w.db.bookings ≡ none
        → create_booking s e user role req w ≡ (ok r, w')
        → (same_text role "admin" ≡ false) × Created w w' r
    create_booking-Created role w w' r v fresh h = elim (Bool-cases (same_text role "admin")) [
      | inl y ↦ absurd (early (inl y))
      | inr n ↦ elim (Bool-cases (req.slot == 0)) [
        | inl z ↦ absurd (early (inr (ground arith)))
        | inr ne ↦ (
          n,
          reserved_ok (book_slot s e.book_net e.book_env req.slot e.booking_id w) w w' r v fresh
              refl (sym (create_booking-reserved role w n (λ z. ground arith)) ∙ h),
        )
      ]
    ]
      where
        early : ((same_text role "admin" ≡ true) ⊎ (req.slot ≡ 0)) → ⊥
        early c = cc ((create_booking_err_early role w c).1, ap (λ p. is_ok p.0) h)

    reserved_err :
        (p : Result Error SlotMeta × World s) (w w' : World s) (x : Error)
        → IsValid w.slots
        → find (has_id e.booking_id) w.db.bookings ≡ none
        → e.book_net ≢ unanswered
        → status_of (s.book e.book_env req.slot e.booking_id w.slots).0 ≢ 500
        → e.lookup_fails ≡ false
        → e.release_net ≡ answered
        → ((t : s.State) → status_of (s.release e.release_env req.slot e.booking_id t).0 ≡ 200)
        → book_slot s e.book_net e.book_env req.slot e.booking_id w ≡ p
        → reserved s e user req p ≡ (err x, w')
        → ((j : ℕ) → holder j w'.slots ≡ holder j w.slots) × (w'.db ≡ w.db)
    reserved_err (err y, u) w w' x v fresh bn st l rn rs eq h =
        rw (← ap (λ p. p.1) h)
          (book_slot_err e.book_net e.book_env req.slot e.booking_id w u y v bn st eq)
    reserved_err (ok meta, u) w w' x v fresh bn st l rn rs eq h =
        let (unheld, held, db, v') =
          book_slot_ok e.book_net e.book_env req.slot e.booking_id w u meta v eq in
        let b = stamped e.now (new_booking e.booking_id user req meta) in
        let fresh' : find (has_id e.booking_id) u.db.bookings ≡ none = rw db fresh in
        let outcome =
          create_with_conference_job-Outcome e.create e.now (new_booking e.booking_id user req meta)
            u.db fresh' in
        let after =
          stored_err b
            (create_with_conference_job e.create e.now (new_booking e.booking_id user req meta)
              u.db)
            u w' x refl l fresh' outcome h in
        let (back, same) =
          release_slot_ok e.release_net e.release_env req.slot e.booking_id u v' rn (rs u.slots) in
        rw after ((λ j. rw (back j, held j) (ground (arith, unheld))), same ∙ db)

    -- From valid slots and with an id that no booking has, a CreateBooking that fails leaves the
    -- holder of every slot and every row of booking_db as it was, provided that the reservation
    -- was not left without an answer or ended by a 500, that the lookup after an unknown commit is
    -- served, and that the compensation is answered with 200.
    pub create_booking_atomic :
        (role : String) (w w' : World s) (x : Error)
        → IsValid w.slots
        → find (has_id e.booking_id) w.db.bookings ≡ none
        → e.book_net ≢ unanswered
        → status_of (s.book e.book_env req.slot e.booking_id w.slots).0 ≢ 500
        → e.lookup_fails ≡ false
        → e.release_net ≡ answered
        → ((t : s.State) → status_of (s.release e.release_env req.slot e.booking_id t).0 ≡ 200)
        → create_booking s e user role req w ≡ (err x, w')
        → ((j : ℕ) → holder j w'.slots ≡ holder j w.slots) × (w'.db ≡ w.db)
    create_booking_atomic role w w' x v fresh bn st l rn rs h =
        elim (Bool-cases (same_text role "admin")) [
          | inl y ↦ unchanged (inl y)
          | inr n ↦ elim (Bool-cases (req.slot == 0)) [
            | inl z ↦ unchanged (inr (ground arith))
            | inr ne ↦
                reserved_err (book_slot s e.book_net e.book_env req.slot e.booking_id w) w w' x v
                  fresh bn st l rn rs refl
                  (sym (create_booking-reserved role w n (λ z. ground arith)) ∙ h)
          ]
        ]
      where
        unchanged :
            ((same_text role "admin" ≡ true) ⊎ (req.slot ≡ 0))
            → ((j : ℕ) → holder j w'.slots ≡ holder j w.slots) × (w'.db ≡ w.db)
        unchanged c =
            let same = sym (create_booking_err_early role w c).0 ∙ ap (λ p. p.1) h in
            rw (← same) ((λ j. refl), refl)
