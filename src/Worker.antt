-- ===== src/Worker.antt =====
-- app/worker: one event processed end to end, the consume loop and the sweepers.
pub mod Reached
pub mod RetryPolicy
pub mod Processor
pub mod Consumer
pub mod Recovery
pub mod Main
