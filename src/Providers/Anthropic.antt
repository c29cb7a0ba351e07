-- ===== src/Providers/Anthropic.antt =====
-- app/providers/anthropic.py: the provider for Anthropic's Messages API.
pub mod Content
pub mod Tools
pub mod Request
pub mod Reply
pub mod Stream
pub mod Events
pub mod Refinement
pub mod Guarantees
pub mod Blocks
pub mod Results
