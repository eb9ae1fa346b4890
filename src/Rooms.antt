-- ===== src/Rooms.antt =====
-- services/room-service: the rooms.
pub mod Table
pub mod Handler
pub mod Existence
