-- ===== src/Booking/SlotService.antt =====
-- What booking-service uses of availability-service: two calls over HTTP, and the laws that they
-- keep, with the work that the service does beside them. A slot is held by at most one booking.
use room_booking_platform.Base.{ℕ, ◌≡◌, ◌≢◌, ◌⊎◌, Option, none, some, if◌then◌else◌, ◌==◌, released}
use room_booking_platform.Http.{Response, status_of}

-- slotMetaResponse
pub record SlotMeta : Type 0 where
  pub room : ℕ
  pub start_at : ℕ
  pub end_at : ℕ

-- `Env` is what decides a call beside its arguments: the clock, and the faults of the service.
pub record SlotService : Type 1 where
  pub State : Type 0
  pub Env : Type 0
  pub book : Env → ℕ → ℕ → State → Response SlotMeta × State
  pub release : Env → ℕ → ℕ → State → Response (Unit {0}) × State
  -- What the service does to the slots by itself, beside the calls.
  pub Work : Type 0
  pub work : Work → State → State

-- How the slots are seen from outside: which states occur, and which booking holds a slot.
pub record SlotView (s : SlotService) : Type 1 where
  pub IsValid : s.State → Type 0
  pub holder : ℕ → s.State → Option ℕ

-- The laws, over the states that are valid.
pub record IsSlotService (s : SlotService) (view : SlotView s) : Type 0 where
  pub book_valid :
      (e : s.Env) (slot b : ℕ) (t : s.State) → view.IsValid t → view.IsValid (s.book e slot b t).1
  pub release_valid :
      (e : s.Env) (slot b : ℕ) (t : s.State)
      → view.IsValid t
      → view.IsValid (s.release e slot b t).1
  -- A status 200 says that the slot was free and is held by the booking now, and no other changed.
  pub book_ok :
      (e : s.Env) (slot b : ℕ) (t : s.State)
      → view.IsValid t
      → status_of (s.book e slot b t).0 ≡ 200
      → (view.holder slot t ≡ none)
        × ((j : ℕ)
            → view.holder j (s.book e slot b t).1 ≡ (if j == slot then some b else view.holder j t))
  -- A status other than 200 and 500 says that nothing has changed hands.
  pub book_refused :
      (e : s.Env) (slot b : ℕ) (t : s.State)
      → view.IsValid t
      → status_of (s.book e slot b t).0 ≢ 200
      → status_of (s.book e slot b t).0 ≢ 500
      → (j : ℕ) → view.holder j (s.book e slot b t).1 ≡ view.holder j t
  -- A release with status 200 has taken the slot from the booking, if it held it.
  pub release_ok :
      (e : s.Env) (slot b : ℕ) (t : s.State)
      → view.IsValid t
      → status_of (s.release e slot b t).0 ≡ 200
      → (j : ℕ)
      → view.holder j (s.release e slot b t).1
        ≡ (if j == slot then released b (view.holder j t) else view.holder j t)
  -- Whatever the status, a slot stays with its holder, or it had none and is the booking's now.
  pub book_any :
      (e : s.Env) (slot b : ℕ) (t : s.State)
      → view.IsValid t
      → (j : ℕ)
      → (view.holder j (s.book e slot b t).1 ≡ view.holder j t)
        ⊎ ((view.holder j t ≡ none) × (view.holder j (s.book e slot b t).1 ≡ some b))
  -- Whatever the status, a slot is taken from nobody but the booking.
  pub release_any :
      (e : s.Env) (slot b : ℕ) (t : s.State)
      → view.IsValid t
      → (j : ℕ)
      → (view.holder j (s.release e slot b t).1 ≡ view.holder j t) ⊎ (view.holder j t ≡ some b)
  -- By itself, the service gives no slot to anybody and takes none.
  pub work_valid : (x : s.Work) (t : s.State) → view.IsValid t → view.IsValid (s.work x t)
  pub work_holder :
      (x : s.Work) (t : s.State)
      → view.IsValid t
      → (j : ℕ) → view.holder j (s.work x t) ≡ view.holder j t
