-- ===== src/Tests.antt =====
-- Witnesses of the theorems, at concrete tables and requests.
mod Reservations
mod Generation
mod Bookings
mod Jobs
mod Gateway
mod Requests
mod Conference
mod Auth
mod Rooms
mod Interleaving
