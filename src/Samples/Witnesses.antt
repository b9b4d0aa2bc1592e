-- ===== src/Samples/Witnesses.antt =====
-- The theorems at concrete inputs.
mod Jobs
mod Parts
mod Endpoints
mod Support
