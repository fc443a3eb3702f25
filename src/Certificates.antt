-- ===== src/Certificates.antt =====
-- packages/certificate-status: the status of a presented certificate.
pub mod Status
pub mod Acceptance
pub mod Responses
pub mod Tests
