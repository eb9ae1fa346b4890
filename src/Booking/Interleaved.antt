-- ===== src/Booking/Interleaved.antt =====
-- Requests and the worker interleaving: what holds in every state that they reach.
use room_booking_platform.Base.{
  ℕ, ◌≡◌, refl, ap, ◌∙◌, ◌⊎◌, inl, inr, String, some, find, arith, put, Option-cases,
}
use room_booking_platform.Booking.Tables.{active, Booking, has_id}
use room_booking_platform.Booking.SlotService.{SlotService, IsSlotService, SlotView}
use room_booking_platform.Booking.Service.{CreateBookingRequest, CreateEnv}
use room_booking_platform.Booking.Requests.{idle, looking, create_called, create_step}
use room_booking_platform.Booking.Interleaving.{System, Step, Reach}
use room_booking_platform.Booking.Rows.{
  as_row, row_of, claim_conference_jobs-SameRows, settle_link-SameRows,
  discard_conference_job-SameRows,
}
use room_booking_platform.Booking.Withdrawals.{placed-IsHeld, same-IsHeld, cancel_step-IsHeld}
use room_booking_platform.Booking.Holding.{IsHeld, same-Moved, Moved-IsHeld}
use room_booking_platform.Booking.Calls.{create_step-Moved}

module _ (s : SlotService) (view : SlotView s) (laws : IsSlotService s view) where
  open view use {IsValid, holder}

  module _ {m : System s}
      (inv : IsHeld s view laws m.world m.creation m.cancellation m.withdrawn) where
    create-IsHeld :
        (e : CreateEnv s)
        → let (p, w) = create_step s e (m.creation e.booking_id) m.world in
          IsHeld s view laws w (put m.creation e.booking_id p) m.cancellation m.withdrawn
    create-IsHeld e =
        let (p, w) = create_step s e (m.creation e.booking_id) m.world in
        Moved-IsHeld s view laws e.booking_id p m.world w m.creation m.cancellation m.withdrawn inv
          (create_step-Moved s view laws e m.world m.creation m.cancellation m.withdrawn inv
            (m.creation e.booking_id) refl)

    call_create-IsHeld :
        (id user : ℕ) (role : String) (req : CreateBookingRequest)
        → m.creation id ≡ idle
        → IsHeld s view laws m.world
            (put m.creation id (create_called s user role req))
            m.cancellation
            m.withdrawn
    call_create-IsHeld id user role req h =
        Moved-IsHeld s view laws id (create_called s user role req) m.world m.world m.creation
          m.cancellation m.withdrawn inv
          (same-Moved s view laws id (create_called s user role req) m.world m.creation
            m.cancellation m.withdrawn inv (λ _. inv.fresh id (rw h refl))
            (λ _ _ _ x. ground arith))

    work-IsHeld :
        (x : s.Work)
        → IsHeld s view laws
            (record m.world { slots = s.work x m.world.slots })
            m.creation
            m.cancellation
            m.withdrawn
    work-IsHeld x =
        let same = laws.work_holder x m.world.slots inv.valid in
        record {
          valid = laws.work_valid x m.world.slots inv.valid;
          fresh = inv.fresh;
          reserved = λ id user req meta h. same req.slot ∙ inv.reserved id user req meta h;
          held = λ id r h a n. same r.slot ∙ inv.held id r h a n;
          cleared_by = inv.cleared_by;
          withdrawn_by = inv.withdrawn_by;
        }

    Step-IsHeld :
        {m' : System s}
        → Step s m m'
        → IsHeld s view laws m'.world m'.creation m'.cancellation m'.withdrawn
    Step-IsHeld (Step.call_create id user role req h) = call_create-IsHeld id user role req h
    Step-IsHeld (Step.call_cancel k id user h) =
        placed-IsHeld s view laws m.world m.creation m.cancellation m.withdrawn inv k
          (looking id user) (λ _ _ _ x. cc)
    Step-IsHeld (Step.work x) = work-IsHeld x
    Step-IsHeld (Step.create e) = create-IsHeld e
    Step-IsHeld (Step.cancel k e) =
        cancel_step-IsHeld s view laws m.world m.creation m.cancellation m.withdrawn inv k e
          (m.cancellation k) refl
    Step-IsHeld (Step.claim c limit lease) =
        same-IsHeld s view laws m.world m.creation m.cancellation m.withdrawn inv _
          (claim_conference_jobs-SameRows c limit lease m.world.db)
    Step-IsHeld (Step.settle e job r) =
        same-IsHeld s view laws m.world m.creation m.cancellation m.withdrawn inv _
          (settle_link-SameRows e job r m.world.db)
    Step-IsHeld (Step.discard e job) =
        same-IsHeld s view laws m.world m.creation m.cancellation m.withdrawn inv _
          (discard_conference_job-SameRows e.finish e.now job.booking job.attempts m.world.db)

  module _ (slots : s.State) (v : IsValid slots) where
    Reach-IsHeld :
        {m : System s}
        → Reach s slots m
        → IsHeld s view laws m.world m.creation m.cancellation m.withdrawn
    Reach-IsHeld Reach.begin = record {
      valid = v;
      fresh = λ id u. refl;
      reserved = λ id user req meta h. cc;
      held = λ id r h a n. cc;
      cleared_by = λ k id user slot h. cc;
      withdrawn_by = λ id user h. cc;
    }
    Reach-IsHeld (Reach.next r st) = Step-IsHeld (Reach-IsHeld r) st

    -- Over a slot service that keeps its laws, from valid slots and with no booking at the start,
    -- however the calls of any number of creations, cancellations, runs of the worker and work of
    -- the slot service by itself interleave, and however each call ends: a booking that is active
    -- holds its slot, unless a CancelBooking of its own user has asked the slot service to release
    -- it.
    pub active_held :
        {m : System s} (id : ℕ) (b : Booking)
        → Reach s slots m
        → find (has_id id) m.world.db.bookings ≡ some b
        → b.status ≡ active
        → (holder b.slot m.world.slots ≡ some id) ⊎ (m.withdrawn id ≡ some b.user)
    active_held {m} id b r h act = elim (Option-cases (m.withdrawn id)) [
      | inl n ↦ inl ((Reach-IsHeld r).held id (as_row b) (ap row_of h) (rw act refl) n)
      | inr (user, by) ↦
          let (q, at, own) = (Reach-IsHeld r).withdrawn_by id user by in
          inr (by ∙ ap some (ground (arith, at, own, ap row_of h)))
    ]
