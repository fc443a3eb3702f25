-- ===== src/Orchestrator/Invalidation.antt =====
-- services/orchestrator/src/security-state-invalidation.mjs: a subject that is suspended or whose
-- certificate is revoked loses its sessions and its cache entries.
pub mod Text
pub mod Redis
pub mod Scripts
pub mod Keys
pub mod Store
pub mod Effect
pub mod Applied
pub mod Purge
pub mod Once
pub mod Registered
pub mod Memory
pub mod Worker
pub mod Delivery
pub mod Completion
mod Tests
