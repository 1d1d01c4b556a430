-- ===== src/Caching.antt =====
-- The answer cache (backend/app/caching).
pub mod Keys
pub mod RedisHot
pub mod Entries
pub mod Store
pub mod Ids
pub mod Loaded
pub mod Bounded
pub mod Reached
pub mod Hits
pub mod Seam
