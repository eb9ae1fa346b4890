-- ===== src/Booking/Listing.antt =====
-- The pages of ListBookings.
use room_booking_platform.Base.{
  ℕ, zero, suc, ◌-◌, ◌*◌, ◌%◌, ◌^◌, ◌≤◌, ◌≡◌, Bool, true, false, List, [], ◌∷◌, ok, map, length,
  take, drop, leb, ltb, arith, if◌then◌else◌, some, none,
}
use room_booking_platform.Text.{ℤ}
use room_booking_platform.Booking.Tables.{Booking, Db}
use room_booking_platform.Booking.Bookings.{list_all, order_by, with_total}
use room_booking_platform.Booking.Service.{
  BookingResponse, to_response, at_least_one, at_most, page_responses, list_bookings,
}

take_le : (n : ℕ) (bs : List Booking) → length (map to_response (take n bs)) ≤ n
take_le zero bs = omega arith
take_le (suc n) [] = omega arith
take_le (suc n) (b ∷ bs) = ground (arith, take_le n bs)

at_most_le : (bound n : ℕ) → at_most bound n ≤ bound
at_most_le bound n = ground arith

at_most_asked : (bound n : ℕ) → at_most bound n ≤ n
at_most_asked bound n = ground arith

le_trans : {a b c : ℕ} → a ≤ b → b ≤ c → a ≤ c
le_trans h k = omega arith

-- A page that is answered: it is no longer than asked for.
page_le :
    (fits : Bool) (size count total : ℕ) (all : List Booking) (bs : List BookingResponse)
    → page_responses (with_total (if fits then some (take size all) else none) count)
      ≡ ok (bs, total)
    → (length bs ≤ size) × (total ≡ count)
page_le true size count total all bs h =
    let page_is : map to_response (take size all) ≡ bs = cc in
    (rw (← page_is) (take_le size all), cc)
page_le false size count total all bs h = cc

-- A page has at most the asked number of bookings, or 20 where less than 1 is asked for, and never
-- more than 100; the total is the number of all bookings.
pub list_bookings_bounded :
    (count_fails query_fails : Bool) (page size : ℤ) (db : Db) (bs : List BookingResponse)
    (total : ℕ)
    → list_bookings count_fails query_fails page size db ≡ ok (bs, total)
    → (length bs ≤ at_least_one 20 size) × (length bs ≤ 100) × (total ≡ length db.bookings)
unfolding list_bookings list_all
list_bookings_bounded true query_fails page size db bs total h = cc
list_bookings_bounded false true page size db bs total h = cc
list_bookings_bounded false false page size db bs total h =
    let bound = at_most 100 (at_least_one 20 size) in
    let newest = order_by (λ b c. leb c.created_at b.created_at) db.bookings in
    let offset = (at_least_one 1 page - 1) * bound % 2 ^ 64 in
    let (short, total_is) =
      page_le (ltb offset (2 ^ 63)) bound (length db.bookings) total (drop offset newest) bs h in
    (
      le_trans short (at_most_asked 100 (at_least_one 20 size)),
      le_trans short (at_most_le 100 (at_least_one 20 size)),
      total_is,
    )
