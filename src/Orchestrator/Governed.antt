-- ===== src/Orchestrator/Governed.antt =====
-- services/orchestrator/src/governed-recovery.mjs: a tenant administrator authorizes the recovery of a
-- subject.
pub mod Request
pub mod Service
pub mod Evaluated
pub mod Steps
pub mod Guarantees
mod Tests
