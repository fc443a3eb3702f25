-- ===== src/Trust/Smoothing.antt =====
-- services/trust/src/temporal-smoothing.mjs: the smoothed score of a subject over time. An instant is
-- a number of milliseconds; the power of 2 in the decay is a parameter.
pub mod Decode
pub mod Advance
pub mod Averages
pub mod Decay
