-- ===== src/Rag.antt =====
-- The retrieval-augmented answer path (backend/app/rag).
pub mod Errors
pub mod Events
pub mod State
pub mod Fusion
pub mod Dense
pub mod Citations
pub mod Compression
pub mod Hybrid
pub mod Rerank
pub mod Retriever
pub mod Prompt
pub mod Stream
pub mod Flags
pub mod Generator
pub mod Baseline
pub mod Rewrite
