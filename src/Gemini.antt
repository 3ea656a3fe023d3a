-- ===== src/Gemini.antt =====
-- internal/adapters/gemini: the rotation of API keys.
pub mod Rotation
pub mod Tried
