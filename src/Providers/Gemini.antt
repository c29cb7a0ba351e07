-- ===== src/Providers/Gemini.antt =====
-- app/providers/gemini.py: the provider for Google's Gemini API.
pub mod Request
pub mod Reply
pub mod Stream
pub mod Embeddings
pub mod Guarantees
