-- ===== src/Orchestrator.antt =====
-- The orchestrator service: services/orchestrator/src/index.mjs, the state machine of the security
-- actions, the rules that trigger an action, and the rules of recovery.
pub mod State
pub mod Actions
pub mod Lifecycle
pub mod Kinds
pub mod Evidence
pub mod Triggers
pub mod Outcomes
pub mod Recovery
pub mod Eligibility
pub mod Sequences
pub mod Execution
pub mod Invalidation
pub mod Governed
pub mod Worker
pub mod Delivery
pub mod Retries
mod Runs
mod Tests
