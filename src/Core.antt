-- ===== src/Core.antt =====
-- app/core: the enumerations, the exception hierarchy, and the outcome of code that may raise.
pub mod Enums
pub mod Errors
pub mod Exec
pub mod Settings
pub mod Whitespace
pub mod Config
pub mod Paths
pub mod Logging
