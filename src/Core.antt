-- ===== src/Core.antt =====
-- The types that every part of the backend shares (backend/app/core).
pub mod Result
pub mod Settings
pub mod Contracts
