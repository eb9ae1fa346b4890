-- ===== src/Availability/Horizon.antt =====
-- How far ExtendSlots generates.
use room_booking_platform.Base.{ℕ, ◌*◌, ◌≤◌, ◌≡◌, some, lookup}
use room_booking_platform.Clock.{day}
use room_booking_platform.Availability.Tables.{Slot, Db}
use room_booking_platform.Availability.Tables

-- A room for which slots are generated up to an instant.
abbrev pub IsExtended : ℕ → ℕ → Db → Type 0
IsExtended target room db = (d : ℕ) × (lookup room db.generated ≡ some d) × (target ≤ d * day)
