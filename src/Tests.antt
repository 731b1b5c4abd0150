-- ===== src/Tests.antt =====
-- The theorems at concrete inputs, in a small office.
pub mod Office
pub mod Access
pub mod Roles
pub mod Routes
pub mod Tables
pub mod Accounts
pub mod Plumbing
