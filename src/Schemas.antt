-- ===== src/Schemas.antt =====
-- app/schemas.
pub mod Events
pub mod Extraction
