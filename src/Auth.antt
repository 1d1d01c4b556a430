-- ===== src/Auth.antt =====
-- Accounts and sessions (backend/app/auth, backend/app/core/security.py).
pub mod Tables
pub mod Tokens
pub mod Accounts
pub mod Service
pub mod Deps
pub mod Sessions
pub mod Ended
pub mod Lockout
