-- ===== src/Cache/Config.antt =====
-- bigcache/config.go, bigcache/utils.go, bigcache/stats.go: sizes computed from the configuration.
-- The callback, the logger and the hasher of `Config` are parameters of the shard.
use ngbigcache.Base.{
  ℕ, zero, suc, ◌*◌, ◌/◌, Bool, true, ltb, ◌==◌, if◌then◌else◌, Run, ok, panic, ◌>>=◌,
}
use Prim.Native.Nat.{bit_and}

pub record Config : Type 0 where
  pub shards : ℕ
  pub life_window : ℕ
  pub clean_window : ℕ
  pub max_entries_in_window : ℕ
  pub max_entry_size : ℕ
  pub verbose : Bool
  pub hard_max_cache_size : ℕ

abbrev pub minimum_entries_in_shard : ℕ
minimum_entries_in_shard = 10

unfoldable pub max : ℕ → ℕ → ℕ
max a b = if ltb b a then a else b

unfoldable pub convert_mb_to_bytes : ℕ → ℕ
convert_mb_to_bytes value = value * 1024 * 1024

-- `isPowerOfTwo`: at 0, `number - 1` has all bits set and the test passes
unfoldable pub is_power_of_two : ℕ → Bool
is_power_of_two zero = true
is_power_of_two (suc n) = bit_and (suc n) n == 0

-- `DefaultConfig`, with the life window in hours as nanoseconds
unfoldable pub default_config : Config
default_config = record {
  shards = 16;
  life_window = 3_600_000_000_000 * 72;
  clean_window = 0;
  max_entries_in_window = 1000 * 10 * 60;
  max_entry_size = 500;
  verbose = true;
  hard_max_cache_size = 0;
}

-- An integer division by 0 panics.
unfoldable pub div : ℕ → ℕ → Run ℕ
div a b = if b == 0 then panic else ok (a / b)

-- `initialShardSize`
unfoldable pub initial_shard_size : Config → Run ℕ
unfolding div max
initial_shard_size c = do
  n ← div c.max_entries_in_window c.shards
  ok (max n minimum_entries_in_shard)

-- `maximumShardSize`
unfoldable pub maximum_shard_size : Config → Run ℕ
unfolding div convert_mb_to_bytes
maximum_shard_size c =
    if ltb 0 c.hard_max_cache_size
    then div (convert_mb_to_bytes c.hard_max_cache_size) c.shards
    else ok 0

-- `SetShard`
unfoldable pub set_shard : Config → ℕ → Config
set_shard c num = record c { shards = num }

-- `Stats`
pub record Stats : Type 0 where
  pub hits : ℕ
  pub misses : ℕ
  pub del_hits : ℕ
  pub del_misses : ℕ
  pub collisions : ℕ
  pub evict_count : ℕ

abbrev pub zero_stats : Stats
zero_stats = record {
  hits = 0;
  misses = 0;
  del_hits = 0;
  del_misses = 0;
  collisions = 0;
  evict_count = 0;
}
