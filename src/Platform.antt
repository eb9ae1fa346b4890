-- ===== src/Platform.antt =====
-- The services put together: availability-service as booking-service calls it.
pub mod Slots
pub mod Sessions
pub mod Rooms
pub mod Routing
