-- ===== src/Tests/Iterator.antt =====
-- An iterator over a cache of one shard with one entry.
use ngbigcache.Base.{◌≡◌, refl, ok, value, ◌∷◌, [], ◌>>=◌, arith}
use ngbigcache.Base.Assoc as assoc
use ngbigcache.Cache.Config.{default_config}
use ngbigcache.Cache.Shard.{get}
use ngbigcache.Cache.Shard.Set.{answer}
use ngbigcache.Cache.BigCache.{BigCache}
use ngbigcache.Cache.Iterator.{EntryInfo, new_iterator, value_at}
use ngbigcache.Cache.Iterator.Reference.{read_shards}
use ngbigcache.Cache.Iterator.Walk.{walk, walk-read_shards}
use ngbigcache.Cache.Iterator.Entry.{value_at-get}
use ngbigcache.Tests.Cache.{library, full_shard, full_shard-Caches, full_shard-get, wrapped_bytes}
use ngbigcache.Tests.Refines.{one_cache}

abbrev small_cache : BigCache library
small_cache = record one_cache { config = record default_config { shards = 1 } }

walk-read_shards_example :
    (do it ← new_iterator small_cache; walk 5 small_cache it) ≡ read_shards small_cache.shards
unfolding assoc.put
walk-read_shards_example =
    walk-read_shards small_cache 5 (refl, tt) refl (omega arith) (omega arith)

value_at-get_example :
    (info : EntryInfo) × (value_at full_shard 1 ≡ ok (value info))
    × (info.hash ≡ 77)
    × (answer (get full_shard info.key 77) ≡ ok (value info.entry))
value_at-get_example =
    value_at-get full_shard ((1, wrapped_bytes) ∷ []) 77 1 full_shard-Caches full_shard-get
