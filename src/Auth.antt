-- ===== src/Auth.antt =====
-- services/auth-service: the users, and the tokens that they get.
pub mod Users
pub mod Service
pub mod Handler
pub mod Accounts
pub mod Roles
pub mod Login
