-- ===== src/Availability.antt =====
-- services/availability-service: the rooms' schedules, the slots generated from them, and the
-- reservation of a slot.
pub mod Tables
pub mod Slots
pub mod Schedules
pub mod Generation
pub mod Service
pub mod Handler
pub mod Rounds
pub mod Invariant
pub mod Reservation
pub mod Handover
pub mod Holders
pub mod Extension
pub mod Horizon
pub mod Worker
pub mod Coverage
pub mod Dates
pub mod Scheduled
pub mod Insertion
pub mod Acceptance
pub mod Offers
pub mod Stored
