-- ===== src/Services.antt =====
-- app/services.
pub mod JobService
pub mod Queue
pub mod Publisher
pub mod TextExtraction
pub mod FileValidation
pub mod FileStorage
pub mod Metrics
