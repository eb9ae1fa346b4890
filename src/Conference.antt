-- ===== src/Conference.antt =====
-- services/conference-mock-service: a store of links behind a lock, and the endpoint on it.
pub mod Store
pub mod Handler
pub mod Threads
pub mod Locking
pub mod Links
