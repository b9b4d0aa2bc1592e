-- ===== src/Llm.antt =====
-- app/llm.
pub mod Outputs
pub mod Prompts
pub mod OpenAi
pub mod Factory
pub mod Fake
