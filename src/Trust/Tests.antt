-- ===== src/Trust/Tests.antt =====
-- The tests and the examples of the trust service.
mod Scores
mod Controls
mod Smoothing
