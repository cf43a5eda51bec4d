-- ===== src/Kvstore/Examples.antt =====
-- Concrete instances of what the key-value store is given, and the theorems at concrete inputs.
pub mod Memory
mod CacheTests
mod StoreTests
mod ServerTests
mod LogTests
mod QueueTests
mod MasterTests
