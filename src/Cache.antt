-- ===== src/Cache.antt =====
-- bigcache: the local cache.
pub mod Encoding
pub mod Config
pub mod Fnv
pub mod Library
pub mod Ttl
pub mod Shard
pub mod BigCache
pub mod Iterator
