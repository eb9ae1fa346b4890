-- ===== src/Booking/Pages.antt =====
-- The pages of ListBookings, one after another.
use room_booking_platform.Base.{
  ℕ, zero, suc, ◌≤◌, Bool, false, List, [], ◌++◌, Result, ok, err, leb, AllPairs,
}
use mathlib.Core.List.{Perm}
use mathlib.Core.List.Perm
use room_booking_platform.Text.{pos}
use room_booking_platform.Booking.Tables.{Booking, Db}
use room_booking_platform.Booking.Service.{Error, BookingResponse, list_bookings}

abbrev newer : Booking → Booking → Bool
newer b c = leb c.created_at b.created_at

abbrev pub AreNewestFirst : List Booking → Type 0
AreNewestFirst bs = AllPairs (λ b c. c.created_at ≤ b.created_at) bs

abbrev pub answered : Result Error (List BookingResponse × ℕ) → List BookingResponse
answered (ok (bs, total)) = bs
answered (err _) = []

-- The pages from 1 to `n` of this size, put together.
abbrev pub pages : ℕ → ℕ → Db → List BookingResponse
pages zero size db = []
pages (suc n) size db =
    pages n size db ++ answered (list_bookings false false (pos (suc n)) (pos size) db)
