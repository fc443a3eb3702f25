-- ===== src/Access.antt =====
-- Who may do what: packages/tenant-context and packages/authorization.
pub mod Context
pub mod Isolation
pub mod Claims
pub mod Roles
pub mod Matrix
pub mod Modes
pub mod Tests
