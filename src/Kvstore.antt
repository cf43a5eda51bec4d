-- ===== src/Kvstore.antt =====
-- The key-value store of kvstore/src/server: one module for each C file, and `Text` for strings.
pub mod Text
pub mod Outcome
pub mod Uthash
pub mod CacheSet
pub mod Cache
pub mod Store
pub mod Message
pub mod Queue
pub mod Log
pub mod Server
pub mod Master
pub mod Examples
