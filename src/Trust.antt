-- ===== src/Trust.antt =====
-- The trust service: packages/trust-model and services/trust.
pub mod Model
pub mod Score
pub mod Smoothing
pub mod Rounding
pub mod Controls
mod Tests
