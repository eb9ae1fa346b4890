-- ===== src/Booking/CancelErrors.antt =====
-- CancelBooking when it is refused, or when one of its steps fails.
use room_booking_platform.Base.{
  ℕ, ◌≡◌, refl, ap, sym, ◌∙◌, ◌≢◌, Bool, true, false, Option, none, some, Result, ok, is_ok, err,
  Exec, if◌then◌else◌, ◌==◌, find, arith, released,
}
use room_booking_platform.Booking.Tables.{
  Status, active, cancelled, Booking, Conference, Db, has_id,
}
use room_booking_platform.Booking.Tables
use room_booking_platform.Booking.Bookings.{get_by_id, cancel, found}
use room_booking_platform.Booking.SlotService.{SlotService, IsSlotService, SlotView}
use room_booking_platform.Booking.Service.{
  Error, World, CancelEnv, release_slot, cancel_booking, cancel_answer, cancel_found,
  cancel_released,
}
use room_booking_platform.Booking.Cancellation.{release_slot-db, release_slot_held, found_cancelled}

module _ (s : SlotService) (view : SlotView s) (laws : IsSlotService s view) where
  open view use {IsValid, holder}

  module _ (e : CancelEnv s) (id user : ℕ) where
    refused_found :
        (fails : Bool) (o : Option Booking) (w : World s)
        → ((b : Booking) → o ≡ some b → b.user ≢ user)
        → let p =
            cancel_found s e id user (if fails then err Tables.Error.database else found o) w in
          (p.1 ≡ w) × (is_ok p.0 ≡ false)
    refused_found true o w h = (refl, refl)
    refused_found false none w h = (refl, refl)
    refused_found false (some b) w h = ground (arith, h b refl)

    -- A cancellation by someone else than the user of the booking, or of a booking that is not there,
    -- is refused, and nothing changes.
    pub cancel_booking_refused :
        (w : World s)
        → ((b : Booking) → find (has_id id) w.db.bookings ≡ some b → b.user ≢ user)
        → ((cancel_booking s e id user w).1 ≡ w) × (is_ok (cancel_booking s e id user w).0 ≡ false)
    unfolding cancel_booking get_by_id
    cancel_booking_refused w h = refused_found e.lookup_fails (find (has_id id) w.db.bookings) w h

    cancel_err :
        (f : Exec) (now : ℕ) (db : Db) (b : Booking) (w : World s)
        → f ≢ Exec.lost
        → find (has_id id) db.bookings ≡ some b
        → is_ok (cancel_answer s (cancel f now id db) w).0 ≡ false
        → (cancel_answer s (cancel f now id db) w).1.db ≡ db
    unfolding cancel
    cancel_err Exec.done now db b w n h k =
        ground (arith, found_cancelled s view laws e id user now db b h)
    cancel_err Exec.failed now db b w n h k = refl
    cancel_err Exec.lost now db b w n h k = absurd (n refl)

    released_kept :
        (q : Result Error (Unit {0}) × World s) (b : Booking) (db : Db)
        → e.cancel ≢ Exec.lost
        → q.1.db ≡ db
        → find (has_id id) db.bookings ≡ some b
        → is_ok (cancel_released s e id q).0 ≡ false
        → (cancel_released s e id q).1.db ≡ db
    released_kept (ok _, w) b db n same at k =
        cancel_err e.cancel e.now w.db b w n (rw same at) k ∙ same
    released_kept (err x, w) b db n same at k = same

    found_kept :
        (fails : Bool) (o : Option Booking) (w : World s)
        → find (has_id id) w.db.bookings ≡ o
        → e.cancel ≢ Exec.lost
        → let p =
            cancel_found s e id user (if fails then err Tables.Error.database else found o) w in
          is_ok p.0 ≡ false → p.1.db ≡ w.db
    found_kept true o w at n k = refl
    found_kept false none w at n k = refl
    found_kept false (some b) w at n k = ground (
      arith,
      released_kept (release_slot s e.release_net e.release_env b.slot id w) b w.db n
          (release_slot-db s view laws e id user e.release_net e.release_env b.slot id w) at,
    )

    -- A cancellation that fails leaves booking_db as it was, unless the answer of its own statement was
    -- lost.
    pub cancel_booking_kept :
        (w w' : World s) (x : Error)
        → e.cancel ≢ Exec.lost
        → cancel_booking s e id user w ≡ (err x, w')
        → w'.db ≡ w.db
    unfolding cancel_booking get_by_id
    cancel_booking_kept w w' x n h =
        sym (ap (λ p. p.1.db) h)
        ∙ found_kept e.lookup_fails (find (has_id id) w.db.bookings) w refl n
            (ap (λ p. is_ok p.0) h)

    half_released :
        (q : Result Error (Unit {0}) × World s)
        → is_ok q.0 ≡ true
        → e.cancel ≡ Exec.failed
        → (is_ok (cancel_released s e id q).0 ≡ false) × ((cancel_released s e id q).1 ≡ q.1)
    unfolding cancel
    half_released (ok _, w) h f = rw f (refl, refl)
    half_released (err x, w) h f = cc

    found_half :
        (w : World s) (b : Booking)
        → e.lookup_fails ≡ false
        → find (has_id id) w.db.bookings ≡ some b
        → b.user ≡ user
        → b.status ≡ active
        → cancel_booking s e id user w
          ≡ cancel_released s e id (release_slot s e.release_net e.release_env b.slot id w)
    unfolding cancel_booking get_by_id
    found_half w b l at own a = rw (l, at) (ground arith)

    not_released : (h : Option ℕ) → released id h ≢ some id
    not_released h e = ground arith

    -- From valid slots, if its user cancels an active booking, the lookup works, the release is
    -- answered with success, and the statement of the cancellation then fails, the answer is an
    -- error, and the booking stays active without holding its slot.
    pub cancel_booking_half :
        (w : World s) (b : Booking)
        → IsValid w.slots
        → e.lookup_fails ≡ false
        → find (has_id id) w.db.bookings ≡ some b
        → b.user ≡ user
        → b.status ≡ active
        → is_ok (release_slot s e.release_net e.release_env b.slot id w).0 ≡ true
        → e.cancel ≡ Exec.failed
        → (is_ok (cancel_booking s e id user w).0 ≡ false)
          × (find (has_id id) (cancel_booking s e id user w).1.db.bookings ≡ some b)
          × (holder b.slot (cancel_booking s e id user w).1.slots ≢ some id)
    cancel_booking_half w b v l at own a done f =
        let p = release_slot s e.release_net e.release_env b.slot id w in
        let (refused, same) = half_released p done f in
        let kept = release_slot-db s view laws e id user e.release_net e.release_env b.slot id w in
        let held =
          release_slot_held s view laws e id user e.release_net e.release_env b.slot id w v done
            b.slot in
        rw (found_half w b l at own a) (
          refused,
          rw (same, kept) at,
          λ h. not_released (holder b.slot w.slots) (still (rw same at h) held),
        )
      where
        still :
            holder b.slot (release_slot s e.release_net e.release_env b.slot id w).1.slots ≡ some id
            → holder b.slot (release_slot s e.release_net e.release_env b.slot id w).1.slots ≡ (
                if b.slot == b.slot
                then released id (holder b.slot w.slots)
                else holder b.slot w.slots)
            → released id (holder b.slot w.slots) ≡ some id
        still h k = ground arith
