-- ===== src/Booking/Calls.antt =====
-- The calls of a creation, one place after the other.
use room_booking_platform.Base.{
  ℕ, ◌≡◌, refl, ap, ◌∙◌, ◌≢◌, inl, inr, Bool, true, false, Option, none, some, Result, ok, err,
  if◌then◌else◌, find, arith,
}
use mathlib.Core.Path.{subst}
use room_booking_platform.Http.{Net, unsent, unanswered, answered}
use room_booking_platform.Booking.Tables.{Booking, Db, commit_unknown, database, has_id}
use room_booking_platform.Booking.Tables
use room_booking_platform.Booking.Bookings.{stamped, found, get_by_id}
use room_booking_platform.Booking.Creation.{Stored, Outcome, create_with_conference_job-Outcome}
use room_booking_platform.Booking.SlotService.{SlotService, IsSlotService, SlotView, SlotMeta}
use room_booking_platform.Booking.Service.{
  Error, to_response, CreateBookingRequest, World, CreateEnv, new_booking, book_slot, release_slot,
}
use room_booking_platform.Booking.Requests.{
  Creation, idle, asking, holding, unsure, compensating, created, Cancellation, cleared,
  create_step,
}
use room_booking_platform.Booking.Requests
use room_booking_platform.Booking.Interleaving.{Withdrawn}
use room_booking_platform.Booking.Rows.{Row, as_row, row_of, row, row-none, Saved, Stored-Saved}
use room_booking_platform.Booking.Saga.{book_slot_ok}
use room_booking_platform.Booking.Holding.{unsaved, IsHeld, Moved, slots-Moved, same-Moved}

module _ (s : SlotService) (view : SlotView s) (laws : IsSlotService s view) where
  open view use {IsValid, holder}

  -- A call of availability-service, however it ends.
  pub record Asked (b : ℕ) (w w' : World s) : Type 0 where
    pub valid : IsValid w'.slots
    pub db : w'.db ≡ w.db
    pub slots : (j c : ℕ) → c ≢ b → holder j w.slots ≡ some c → holder j w'.slots ≡ some c

  Asked-refl : (b : ℕ) (w : World s) → IsValid w.slots → Asked b w w
  Asked-refl b w v = record { valid = v; db = refl; slots = λ j c ne h. h }

  book_slot_stays :
      (e : s.Env) (slot b : ℕ) (w : World s)
      → IsValid w.slots
      → Asked b w (record w { slots = (s.book e slot b w.slots).1 })
  book_slot_stays e slot b w v = record {
    valid = laws.book_valid e slot b w.slots v;
    db = refl;
    slots = λ j c ne h. elim (laws.book_any e slot b w.slots v j) [
      | inl same ↦ same ∙ h
      | inr (none_here, _) ↦ cc
    ];
  }

  release_slot_stays :
      (e : s.Env) (slot b : ℕ) (w : World s)
      → IsValid w.slots
      → Asked b w (record w { slots = (s.release e slot b w.slots).1 })
  release_slot_stays e slot b w v = record {
    valid = laws.release_valid e slot b w.slots v;
    db = refl;
    slots = λ j c ne h. elim (laws.release_any e slot b w.slots v j) [
      | inl same ↦ same ∙ h
      | inr own ↦ absurd (ne (ground (arith, own)))
    ];
  }

  pub book_slot-Asked :
      (net : Net) (e : s.Env) (slot b : ℕ) (w : World s)
      → IsValid w.slots
      → Asked b w (book_slot s net e slot b w).1
  unfolding book_slot
  book_slot-Asked unsent e slot b w v = Asked-refl b w v
  book_slot-Asked unanswered e slot b w v = book_slot_stays e slot b w v
  book_slot-Asked answered e slot b w v = book_slot_stays e slot b w v

  pub release_slot-Asked :
      (net : Net) (e : s.Env) (slot b : ℕ) (w : World s)
      → IsValid w.slots
      → Asked b w (release_slot s net e slot b w).1
  unfolding release_slot
  release_slot-Asked unsent e slot b w v = Asked-refl b w v
  release_slot-Asked unanswered e slot b w v = release_slot_stays e slot b w v
  release_slot-Asked answered e slot b w v = release_slot_stays e slot b w v

  module _ (e : CreateEnv s) (w : World s) (cr : ℕ → Creation) (ca : ℕ → Cancellation)
      (wd : Withdrawn) (inv : IsHeld s view laws w cr ca wd) where
    abbrev Here : Creation × World s → Type 0
    Here (p, w') = Moved s view laws e.booking_id p wd w w'

    Asked-Here :
        (p : Creation) (w' : World s)
        → row e.booking_id w.db ≡ none
        → Asked e.booking_id w w'
        → ((user : ℕ) (req : CreateBookingRequest) (meta : SlotMeta)
            → p ≡ holding user req meta
            → holder req.slot w'.slots ≡ some e.booking_id)
        → Here (p, w')
    Asked-Here p w' none_here a =
        slots-Moved s view laws e.booking_id p wd w w' none_here a.db a.valid a.slots

    booked-Moved :
        (user : ℕ) (req : CreateBookingRequest) (q : Result Error SlotMeta × World s)
        → row e.booking_id w.db ≡ none
        → book_slot s e.book_net e.book_env req.slot e.booking_id w ≡ q
        → Here (Requests.booked s user req q)
    booked-Moved user req q none_here eq =
        let a =
          subst (λ p. Asked e.booking_id w p.1) eq
            (book_slot-Asked e.book_net e.book_env req.slot e.booking_id w inv.valid) in
        go q a eq
      where
        go :
            (q : Result Error SlotMeta × World s)
            → Asked e.booking_id w q.1
            → book_slot s e.book_net e.book_env req.slot e.booking_id w ≡ q
            → Here (Requests.booked s user req q)
        go (err x, w') a eq = Asked-Here (created (err x)) w' none_here a (λ _ _ _ h. cc)
        go (ok meta, w') a eq =
            let (_, held, _, _) =
              book_slot_ok s view laws e.book_net e.book_env req.slot e.booking_id w w' meta
                inv.valid eq in
            Asked-Here (holding user req meta) w' none_here a
              (λ user' req' meta' h. ground (arith, h, held req.slot))

    -- The transaction has stored nothing, or the booking.
    plain-Moved :
        (p : Creation) (db : Db)
        → row e.booking_id w.db ≡ none
        → db ≡ w.db
        → ((user : ℕ) (req : CreateBookingRequest) (meta : SlotMeta) → p ≢ holding user req meta)
        → Here (p, record w { db = db })
    plain-Moved p db none_here same no_slot =
        Asked-Here p (record w { db = db }) none_here
          (record { valid = inv.valid; db = same; slots = λ j c ne h. h })
          (λ user req meta h. absurd (no_slot user req meta h))

    Saved-Moved :
        (p : Creation) (r : Row) (db : Db)
        → row e.booking_id w.db ≡ none
        → unsaved p ≡ false
        → holder r.slot w.slots ≡ some e.booking_id
        → Saved e.booking_id r w.db db
        → Here (p, record w { db = db })
    Saved-Moved p r db none_here u h st = record {
      valid = inv.valid;
      fresh = λ t. cc;
      reserved = λ user req meta at. absurd (saved_place at u);
      held = λ q at a n. ground (arith, h, st.here, at);
      others = st.others;
      stays = λ q at. cc;
      slots = λ j c ne k. k;
    }
      where
        saved_place :
            {user : ℕ} {req : CreateBookingRequest} {meta : SlotMeta}
            → p ≡ holding user req meta
            → unsaved p ≡ false
            → ⊥
        saved_place at u = cc

    module _ (user : ℕ) (req : CreateBookingRequest) (meta : SlotMeta)
        (none_here : row e.booking_id w.db ≡ none)
        (held : holder req.slot w.slots ≡ some e.booking_id) where
      abbrev booking : Booking
      booking = stamped e.now (new_booking e.booking_id user req meta)

      unsaved-Here :
          (db : Db)
          → db ≡ w.db
          → (p : Creation)
          → ((user : ℕ) (req : CreateBookingRequest) (meta : SlotMeta) → p ≢ holding user req meta)
          → Here (p, record w { db = db })
      unsaved-Here db same p no_slot = plain-Moved p db none_here same no_slot

      saved-Here :
          (db : Db) (p : Creation)
          → unsaved p ≡ false
          → Stored booking w.db db
          → Here (p, record w { db = db })
      saved-Here db p u st =
          Saved-Moved p (as_row booking) db none_here u held (Stored-Saved booking w.db db st)

      stored-Moved :
          (q : Result Tables.Error Booking × Db)
          → Outcome booking w.db q
          → Here (Requests.stored s req.slot q w)
      stored-Moved (ok c, db) o = elim o [
        | inl (_, st) ↦ saved-Here db (created (ok (to_response c))) refl st
        | inr (inl (never, _)) ↦ cc
        | inr (inr (never, _)) ↦ cc
      ]
      stored-Moved (err Tables.Error.commit_unknown, db) o = elim o [
        | inl (never, _) ↦ cc
        | inr (inl (never, _)) ↦ cc
        | inr (inr (_, inl same)) ↦ unsaved-Here db same (unsure req.slot) (λ _ _ _ h. cc)
        | inr (inr (_, inr st)) ↦ saved-Here db (unsure req.slot) refl st
      ]
      stored-Moved (err Tables.Error.booking_not_found, db) o = elim o [
        | inl (never, _) ↦ cc
        | inr (inl (never, _)) ↦ cc
        | inr (inr (never, _)) ↦ cc
      ]
      stored-Moved (err Tables.Error.database, db) o = elim o [
        | inl (never, _) ↦ cc
        | inr (inl (_, same)) ↦ unsaved-Here db same (compensating req.slot) (λ _ _ _ h. cc)
        | inr (inr (never, _)) ↦ cc
      ]

    idle-Here :
        (p : Creation)
        → (unsaved p ≡ true → row e.booking_id w.db ≡ none)
        → ((user : ℕ) (req : CreateBookingRequest) (meta : SlotMeta) → p ≢ holding user req meta)
        → Here (p, w)
    idle-Here p = same-Moved s view laws e.booking_id p w cr ca wd inv

    looked_up-Moved :
        (slot : ℕ) (fails : Bool) (o : Option Booking)
        → find (has_id e.booking_id) w.db.bookings ≡ o
        → Here (Requests.looked_up s slot (if fails then err database else found o), w)
    looked_up-Moved slot true o h = idle-Here (created (err Error.failed)) (λ u. cc) (λ _ _ _ e. cc)
    looked_up-Moved slot false none h =
        idle-Here (compensating slot) (λ _. ap row_of h) (λ _ _ _ e. cc)
    looked_up-Moved slot false (some b) h =
        idle-Here (created (ok (to_response b))) (λ u. cc) (λ _ _ _ e. cc)

    -- The next call of a creation keeps what it says of its booking.
    pub create_step-Moved : (p : Creation) → cr e.booking_id ≡ p → Here (create_step s e p w)
    unfolding create_step get_by_id
    create_step-Moved idle at =
        idle-Here idle (λ _. inv.fresh e.booking_id (rw at refl)) (λ _ _ _ h. cc)
    create_step-Moved (asking user req) at =
        booked-Moved user req _ (inv.fresh e.booking_id (rw at refl)) refl
    create_step-Moved (holding user req meta) at =
        let none_here = inv.fresh e.booking_id (rw at refl) in
        stored-Moved user req meta none_here (inv.reserved e.booking_id user req meta at) _ (
          create_with_conference_job-Outcome e.create e.now (new_booking e.booking_id user req meta)
            w.db (row-none e.booking_id w.db none_here))
    create_step-Moved (unsure slot) at =
        looked_up-Moved slot e.lookup_fails (find (has_id e.booking_id) w.db.bookings) refl
    create_step-Moved (compensating slot) at =
        Asked-Here (created (err Error.failed)) _ (inv.fresh e.booking_id (rw at refl))
          (release_slot-Asked e.release_net e.release_env slot e.booking_id w inv.valid)
          (λ _ _ _ h. cc)
    create_step-Moved (created r) at = idle-Here (created r) (λ h. cc) (λ _ _ _ h. cc)
