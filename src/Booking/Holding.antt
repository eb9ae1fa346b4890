-- ===== src/Booking/Holding.antt =====
-- What the slots and the bookings agree on, while requests interleave: the invariant, and the steps
-- of a creation.
use room_booking_platform.Base.{
  ℕ, ◌≡◌, refl, ap, sym, ◌∙◌, ◌≢◌, inl, inr, Bool, true, false, none, some, ◌==◌, arith, put,
  Bool-cases,
}
use mathlib.Core.Path.{subst}
use room_booking_platform.Booking.SlotService.{SlotService, IsSlotService, SlotView, SlotMeta}
use room_booking_platform.Booking.Service.{CreateBookingRequest, World}
use room_booking_platform.Booking.Requests.{
  Creation, holding, unsure, created, Cancellation, cleared,
}
use room_booking_platform.Booking.Interleaving.{Withdrawn}
use room_booking_platform.Booking.Rows.{Row, row}

-- A creation that has not stored its booking, for certain.
abbrev pub unsaved : Creation → Bool
unsaved (unsure _) = false
unsaved (created _) = false
unsaved _ = true

module _ (s : SlotService) (view : SlotView s) (laws : IsSlotService s view) where
  open view use {IsValid, holder}

  pub record IsHeld (w : World s) (cr : ℕ → Creation) (ca : ℕ → Cancellation) (wd : Withdrawn)
      : Type 0 where
    pub valid : IsValid w.slots
    pub fresh : (id : ℕ) → unsaved (cr id) ≡ true → row id w.db ≡ none
    -- A creation that has reserved its slot holds it.
    pub reserved :
        (id user : ℕ) (req : CreateBookingRequest) (meta : SlotMeta)
        → cr id ≡ holding user req meta
        → holder req.slot w.slots ≡ some id
    -- An active booking holds its slot, unless a CancelBooking has released it.
    pub held :
        (id : ℕ) (r : Row)
        → row id w.db ≡ some r
        → r.active ≡ true
        → wd id ≡ none
        → holder r.slot w.slots ≡ some id
    -- Such a CancelBooking is one of the user of the booking.
    pub cleared_by :
        (k id user slot : ℕ)
        → ca k ≡ cleared id user slot
        → (r : Row) × (row id w.db ≡ some r) × (r.user ≡ user)
    pub withdrawn_by :
        (id user : ℕ) → wd id ≡ some user → (r : Row) × (row id w.db ≡ some r) × (r.user ≡ user)

  -- What the call of a creation does to the databases, where the creation stands at `p` after it.
  pub record Moved (id : ℕ) (p : Creation) (wd : Withdrawn) (w w' : World s) : Type 0 where
    pub valid : IsValid w'.slots
    pub fresh : unsaved p ≡ true → row id w'.db ≡ none
    pub reserved :
        (user : ℕ) (req : CreateBookingRequest) (meta : SlotMeta)
        → p ≡ holding user req meta
        → holder req.slot w'.slots ≡ some id
    pub held :
        (r : Row)
        → row id w'.db ≡ some r
        → r.active ≡ true
        → wd id ≡ none
        → holder r.slot w'.slots ≡ some id
    pub others : (j : ℕ) → j ≢ id → row j w'.db ≡ row j w.db
    pub stays : (r : Row) → row id w.db ≡ some r → row id w'.db ≡ some r
    pub slots : (j c : ℕ) → c ≢ id → holder j w.slots ≡ some c → holder j w'.slots ≡ some c

  module _ (id : ℕ) (p : Creation) (w w' : World s) (cr : ℕ → Creation) (ca : ℕ → Cancellation)
      (wd : Withdrawn) (inv : IsHeld w cr ca wd) (mv : Moved id p wd w w') where
    still : (j : ℕ) (r : Row) → row j w.db ≡ some r → row j w'.db ≡ some r
    still j r h = elim (Bool-cases (id == j)) [
      | inl y ↦
          let e : id ≡ j = ground arith in subst (λ i. row i w'.db ≡ some r) e (mv.stays r (rw e h))
      | inr n ↦ mv.others j (λ e. ground arith) ∙ h
    ]

    fresh_still : (j : ℕ) → unsaved (put cr id p j) ≡ true → row j w'.db ≡ none
    fresh_still j u = elim (Bool-cases (id == j)) [
      | inl y ↦
          let e : id ≡ j = ground arith in subst (λ i. row i w'.db ≡ none) e (mv.fresh (rw y at u))
      | inr n ↦ mv.others j (λ e. ground arith) ∙ inv.fresh j (rw n at u)
    ]

    reserved_still :
        (j user : ℕ) (req : CreateBookingRequest) (meta : SlotMeta)
        → put cr id p j ≡ holding user req meta
        → holder req.slot w'.slots ≡ some j
    reserved_still j user req meta h = elim (Bool-cases (id == j)) [
      | inl y ↦
          let e : id ≡ j = ground arith in
          subst (λ i. holder req.slot w'.slots ≡ some i) e (mv.reserved user req meta (rw y at h))
      | inr n ↦ mv.slots req.slot j (λ e. ground arith) (inv.reserved j user req meta (rw n at h))
    ]

    held_still :
        (j : ℕ) (r : Row)
        → row j w'.db ≡ some r
        → r.active ≡ true
        → wd j ≡ none
        → holder r.slot w'.slots ≡ some j
    held_still j r h a n = elim (Bool-cases (id == j)) [
      | inl y ↦
          let e : id ≡ j = ground arith in
          subst (λ i. holder r.slot w'.slots ≡ some i) e (mv.held r (rw e h) a (rw e n))
      | inr ne ↦
          let other : j ≢ id = λ e. ground arith in
          mv.slots r.slot j other (inv.held j r (sym (mv.others j other) ∙ h) a n)
    ]

    pub Moved-IsHeld : IsHeld w' (put cr id p) ca wd
    Moved-IsHeld = record {
      valid = mv.valid;
      fresh = fresh_still;
      reserved = reserved_still;
      held = held_still;
      cleared_by = λ k j user slot e.
          let (r, at, own) = inv.cleared_by k j user slot e in (r, still j r at, own);
      withdrawn_by =
          λ j user e. let (r, at, own) = inv.withdrawn_by j user e in (r, still j r at, own);
    }

  -- A call of availability-service about the booking `id`, with no booking stored.
  pub slots-Moved :
      (id : ℕ) (p : Creation) (wd : Withdrawn) (w w' : World s)
      → row id w.db ≡ none
      → w'.db ≡ w.db
      → IsValid w'.slots
      → ((j c : ℕ) → c ≢ id → holder j w.slots ≡ some c → holder j w'.slots ≡ some c)
      → ((user : ℕ) (req : CreateBookingRequest) (meta : SlotMeta)
          → p ≡ holding user req meta
          → holder req.slot w'.slots ≡ some id)
      → Moved id p wd w w'
  slots-Moved id p wd w w' none_here same v slots reserved = record {
    valid = v;
    fresh = λ _. rw same none_here;
    reserved = reserved;
    held = λ r h. absurd (no_row (subst (λ d. row id d ≡ none) (sym same) none_here) h);
    others = λ j ne. ap (row j) same;
    stays = λ r h. rw same h;
    slots = slots;
  }
    where
      no_row : {r : Row} → row id w'.db ≡ none → row id w'.db ≡ some r → ⊥
      no_row a b = cc

  -- A call that changes nothing.
  pub same-Moved :
      (id : ℕ) (p : Creation) (w : World s) (cr : ℕ → Creation) (ca : ℕ → Cancellation)
      (wd : Withdrawn)
      → IsHeld w cr ca wd
      → (unsaved p ≡ true → row id w.db ≡ none)
      → ((user : ℕ) (req : CreateBookingRequest) (meta : SlotMeta) → p ≢ holding user req meta)
      → Moved id p wd w w
  same-Moved id p w cr ca wd inv fresh no_slot = record {
    valid = inv.valid;
    fresh = fresh;
    reserved = λ user req meta e. absurd (no_slot user req meta e);
    held = inv.held id;
    others = λ j ne. refl;
    stays = λ r h. h;
    slots = λ j c ne h. h;
  }
