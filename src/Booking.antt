-- ===== src/Booking.antt =====
-- services/booking-service: bookings, their creation and cancellation across two services, and the
-- jobs that obtain conference links.
pub mod Tables
pub mod Bookings
pub mod Jobs
pub mod SlotService
pub mod Service
pub mod Creation
pub mod Saga
pub mod Worker
pub mod Consistency
pub mod Claims
pub mod Insertion
pub mod Closing
pub mod Processing
pub mod Ticks
pub mod Progress
pub mod Handler
pub mod Cancellation
pub mod CancelErrors
pub mod Listing
pub mod Pages
pub mod Answers
pub mod Requests
pub mod Alone
pub mod Rows
pub mod Interleaving
pub mod Holding
pub mod Calls
pub mod Withdrawals
pub mod Interleaved
pub mod Uniqueness
