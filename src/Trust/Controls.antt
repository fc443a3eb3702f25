-- ===== src/Trust/Controls.antt =====
-- services/trust/src/trust-transition-controls.mjs: the bands of a trust score, their hysteresis, the
-- influence cap of a source and the overrides of critical evidence. The constant fields `policy` and
-- `configuration` of the results are left out.
pub mod Decode
pub mod Apply
pub mod Bounds
pub mod Invariant
pub mod Recovery
