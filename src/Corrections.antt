-- ===== src/Corrections.antt =====
-- app/services/attendance_correction_service.py: a claimed punch-out for an auto-closed shift, from
-- the claim to its review.
pub mod Claim
pub mod Review
pub mod Decided
pub mod Listing
