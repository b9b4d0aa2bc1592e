-- ===== src/Api.antt =====
-- app/api/routes: the endpoints that change state.
pub mod Publishing
pub mod Jobs
pub mod Documents
pub mod Reached
pub mod Health
pub mod Handlers
