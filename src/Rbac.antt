-- ===== src/Rbac.antt =====
-- src/modules/rbac: roles, their permissions, their assignment to users, and per-user overrides.
pub mod Role
pub mod Assignment
pub mod Override
pub mod Permission
pub mod Scheduler
