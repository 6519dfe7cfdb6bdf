-- ===== src/Lifecycle.antt =====
-- What the records of the log can and cannot do to the rows that are there.
pub mod ClaimHistory
pub mod CandidateHistory
pub mod Validity
pub mod Idempotent
