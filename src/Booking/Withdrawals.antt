-- ===== src/Booking/Withdrawals.antt =====
-- The calls of a cancellation and of the worker keep what the slots and the bookings agree on.
use room_booking_platform.Base.{
  ℕ, ◌≡◌, refl, ap, sym, ◌∙◌, ◌≢◌, inl, inr, Bool, true, false, Option, none, some, Result, ok, err,
  if◌then◌else◌, ◌==◌, find, arith, put, Bool-cases,
}
use mathlib.Core.Path.{subst}
use room_booking_platform.Booking.Tables.{Booking, Db, commit_unknown, database, has_id}
use room_booking_platform.Booking.Tables
use room_booking_platform.Booking.Bookings.{is_active, found, get_by_id}
use room_booking_platform.Booking.Bookings
use room_booking_platform.Booking.SlotService.{SlotService, IsSlotService, SlotView}
use room_booking_platform.Booking.Service.{Error, to_response, World, CancelEnv, release_slot}
use room_booking_platform.Booking.Requests.{
  Creation, idle, asking, holding, unsure, compensating, created, Cancellation, quiet, looking,
  cleared, freed, cancelled, create_called, create_step, cancel_step,
}
use room_booking_platform.Booking.Requests
use room_booking_platform.Booking.Interleaving.{Withdrawn, note}
use room_booking_platform.Booking.Rows.{Row, as_row, row_of, row, SameRows, Closes, cancel-Closes}
use room_booking_platform.Booking.Holding.{unsaved, IsHeld}
use room_booking_platform.Booking.Calls.{Asked, release_slot-Asked}

module _ (s : SlotService) (view : SlotView s) (laws : IsSlotService s view) where
  open view use {IsValid, holder}

  module _ (w : World s) (cr : ℕ → Creation) (ca : ℕ → Cancellation) (wd : Withdrawn)
      (inv : IsHeld s view laws w cr ca wd) where
    -- A cancellation that goes to another place.
    pub placed-IsHeld :
        (k : ℕ) (p : Cancellation)
        → ((id user slot : ℕ)
            → p ≡ cleared id user slot
            → (r : Row) × (row id w.db ≡ some r) × (r.user ≡ user))
        → IsHeld s view laws w cr (put ca k p) wd
    placed-IsHeld k p known = record {
      valid = inv.valid;
      fresh = inv.fresh;
      reserved = inv.reserved;
      held = inv.held;
      cleared_by = λ j id user slot h. elim (Bool-cases (k == j)) [
        | inl y ↦ known id user slot (rw y at h)
        | inr n ↦ inv.cleared_by j id user slot (rw n at h)
      ];
      withdrawn_by = inv.withdrawn_by;
    }

    -- A statement that leaves the rows, but for what it closes.
    closed-IsHeld :
        (db : Db)
        → ((j : ℕ) → Closes (row j w.db) (row j db))
        → IsHeld s view laws (record w { db = db }) cr ca wd
    closed-IsHeld db closes = record {
      valid = inv.valid;
      fresh = λ id u. none_still id (inv.fresh id u);
      reserved = inv.reserved;
      held = λ id r h a n. elim (closes id) [
        | inl same ↦ inv.held id r (sym same ∙ h) a n
        | inr (q, _, shut) ↦ absurd (shut_row q r (sym shut ∙ h) a)
      ];
      cleared_by = λ k id user slot h.
          let (r, at, own) = inv.cleared_by k id user slot h in some_still id r user at own;
      withdrawn_by =
          λ id user h. let (r, at, own) = inv.withdrawn_by id user h in some_still id r user at own;
    }
      where
        none_still : (id : ℕ) → row id w.db ≡ none → row id db ≡ none
        none_still id h = elim (closes id) [ inl same ↦ same ∙ h | inr (q, at, _) ↦ cc ]

        some_still :
            (id : ℕ) (r : Row) (user : ℕ)
            → row id w.db ≡ some r
            → r.user ≡ user
            → (q : Row) × (row id db ≡ some q) × (q.user ≡ user)
        some_still id r user h own = elim (closes id) [
          | inl same ↦ (r, same ∙ h, own)
          | inr (q, at, shut) ↦ (record q { active = false }, shut, ground (arith, at, h, own))
        ]

        shut_row : (q r : Row) → some (record q { active = false }) ≡ some r → r.active ≡ true → ⊥
        shut_row q r e a = ground arith

    pub same-IsHeld :
        (db : Db) → SameRows w.db db → IsHeld s view laws (record w { db = db }) cr ca wd
    same-IsHeld db same = closed-IsHeld db (λ j. inl (same j))

    -- A release that a cancellation asks for.
    module _ (id user : ℕ) (w' : World s)
        (known : (r : Row) × (row id w.db ≡ some r) × (r.user ≡ user))
        (a : Asked s view laws id w w') where
      rows : (j : ℕ) → row j w'.db ≡ row j w.db
      rows j = ap (row j) a.db

      other_creation : (j : ℕ) → unsaved (cr j) ≡ true → j ≢ id
      other_creation j u e =
          let (r, at, _) = known in some_ne (subst (λ i. row i w.db ≡ none) e (inv.fresh j u)) at
        where
          some_ne : {q : Row} → row id w.db ≡ none → row id w.db ≡ some q → ⊥
          some_ne x y = cc

      put-none : (j : ℕ) → put wd id (some user) j ≡ none → (j ≢ id) × (wd j ≡ none)
      put-none j h = elim (Bool-cases (id == j)) [
        | inl y ↦ absurd (some_none (rw y at h))
        | inr n ↦ (λ e. ground arith, rw n at h)
      ]
        where
          some_none : some user ≡ none → ⊥
          some_none h = cc

      still_known :
          (j u : ℕ)
          → (r : Row) × (row j w.db ≡ some r) × (r.user ≡ u)
          → (r : Row) × (row j w'.db ≡ some r) × (r.user ≡ u)
      still_known j u (r, at, own) = (r, rows j ∙ at, own)

      released-IsHeld : IsHeld s view laws w' cr ca (put wd id (some user))
      released-IsHeld = record {
        valid = a.valid;
        fresh = λ j u. rows j ∙ inv.fresh j u;
        reserved = λ j u req meta h.
            a.slots req.slot j (other_creation j (rw h refl)) (inv.reserved j u req meta h);
        held = λ j r h act n.
            let (ne, n') = put-none j n in
            a.slots r.slot j ne (inv.held j r (sym (rows j) ∙ h) act n');
        cleared_by = λ k j u slot h. still_known j u (inv.cleared_by k j u slot h);
        withdrawn_by = λ j u h. elim (Bool-cases (id == j)) [
          | inl y ↦
              let e : id ≡ j = ground arith in
              subst (λ i. (r : Row) × (row i w'.db ≡ some r) × (r.user ≡ u)) e
                (still_known id u (as_user u (rw y at h)))
          | inr n ↦ still_known j u (inv.withdrawn_by j u (rw n at h))
        ];
      }
        where
          as_user : (u : ℕ) → some user ≡ some u → (r : Row) × (row id w.db ≡ some r) × (r.user ≡ u)
          as_user u h = let (r, at, own) = known in (r, at, ground (arith, own, h))

  module _ (w : World s) (cr : ℕ → Creation) (ca : ℕ → Cancellation) (wd : Withdrawn)
      (inv : IsHeld s view laws w cr ca wd) (k : ℕ) (e : CancelEnv s) where
    abbrev There : Cancellation → Cancellation × World s → Type 0
    There p (p', w') = IsHeld s view laws w' cr (put ca k p') (note p wd)

    found-There :
        (id user : ℕ) (fails : Bool) (o : Option Booking)
        → find (has_id id) w.db.bookings ≡ o
        → There
            (looking id user)
            (Requests.found s id user (if fails then err database else found o), w)
    found-There id user true o h =
        placed-IsHeld w cr ca wd inv k (cancelled (err Error.failed)) (λ _ _ _ x. cc)
    found-There id user false none h =
        placed-IsHeld w cr ca wd inv k (cancelled (err Error.booking_not_found)) (λ _ _ _ x. cc)
    found-There id user false (some b) h = elim (Bool-cases (b.user == user)) [
      | inr other ↦
          rw other
            (placed-IsHeld w cr ca wd inv k (cancelled (err Error.forbidden)) (λ _ _ _ x. cc))
      | inl own ↦ elim (Bool-cases (is_active b.status)) [
        | inr over ↦
            rw (own, over)
              (placed-IsHeld w cr ca wd inv k (cancelled (ok (to_response b))) (λ _ _ _ x. cc))
        | inl act ↦
            rw (own, act)
              (placed-IsHeld w cr ca wd inv k (cleared id user b.slot)
                (λ i u slot x. ground (arith, x, own, owner b h own)))
      ]
    ]
      where
        owner :
            (b : Booking)
            → find (has_id id) w.db.bookings ≡ some b
            → (b.user == user) ≡ true
            → (r : Row) × (row id w.db ≡ some r) × (r.user ≡ user)
        owner b h own = (as_row b, ap row_of h, ground arith)

    released-There :
        (id user slot : ℕ) (q : Result Error (Unit {0}) × World s)
        → (r : Row) × (row id w.db ≡ some r) × (r.user ≡ user)
        → Asked s view laws id w q.1
        → There (cleared id user slot) (Requests.released s id user q)
    released-There id user slot (ok _, w') known a =
        placed-IsHeld w' cr ca (put wd id (some user))
          (released-IsHeld w cr ca wd inv id user w' known a) k (freed id user) (λ _ _ _ h. cc)
    released-There id user slot (err _, w') known a =
        placed-IsHeld w' cr ca (put wd id (some user))
          (released-IsHeld w cr ca wd inv id user w' known a) k (cancelled (err Error.failed))
          (λ _ _ _ h. cc)

    closed-There :
        (id user : ℕ) (q : Result Tables.Error Booking × Db)
        → ((j : ℕ) → Closes (row j w.db) (row j q.1))
        → There (freed id user) (Requests.closed s q w)
    closed-There id user (ok b, db) c =
        placed-IsHeld (record w { db = db }) cr ca wd (closed-IsHeld w cr ca wd inv db c) k
          (cancelled (ok (to_response b))) (λ _ _ _ h. cc)
    closed-There id user (err _, db) c =
        placed-IsHeld (record w { db = db }) cr ca wd (closed-IsHeld w cr ca wd inv db c) k
          (cancelled (err Error.failed)) (λ _ _ _ h. cc)

    pub cancel_step-IsHeld : (p : Cancellation) → ca k ≡ p → There p (cancel_step s e p w)
    unfolding cancel_step get_by_id
    cancel_step-IsHeld quiet at = placed-IsHeld w cr ca wd inv k quiet (λ _ _ _ h. cc)
    cancel_step-IsHeld (looking id user) at =
        found-There id user e.lookup_fails (find (has_id id) w.db.bookings) refl
    cancel_step-IsHeld (cleared id user slot) at =
        released-There id user slot (release_slot s e.release_net e.release_env slot id w)
          (inv.cleared_by k id user slot at)
          (release_slot-Asked s view laws e.release_net e.release_env slot id w inv.valid)
    cancel_step-IsHeld (freed id user) at =
        closed-There id user (Bookings.cancel e.cancel e.now id w.db)
          (λ j. cancel-Closes e.cancel e.now id j w.db)
    cancel_step-IsHeld (cancelled r) at =
        placed-IsHeld w cr ca wd inv k (cancelled r) (λ _ _ _ h. cc)
