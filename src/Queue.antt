-- ===== src/Queue.antt =====
-- bigcache/queue: the byte queue of a shard and the list of its free blocks.
pub mod FreeList
pub mod BytesQueue
