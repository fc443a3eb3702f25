-- ===== src/Policy.antt =====
-- The policy engine: services/policy/src/adaptive-authorization-policy.mjs, the validation of the policy
-- data of a tenant, and apps/api/src/policy-enforcement.mjs, the enforcement of a decision.
pub mod Rules
pub mod Configuration
pub mod Accepted
pub mod Guarantees
mod Tests
pub mod Canonical
pub mod Client
pub mod Input
pub mod Enforcement
pub mod Answered
pub mod Enforced
mod Decisions
