-- ===== src/Memory.antt =====
-- Conversation memory (backend/app/memory).
pub mod Window
pub mod Service
pub mod Pairs
pub mod Totals
pub mod Overtaken
pub mod Folding
