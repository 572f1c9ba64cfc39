-- ===== src/Cache/BigCache.antt =====
-- bigcache/bigcache.go: the cache: a shard for each value of the low bits of a key's hash.
--
-- `set_at` on the list of shards is the write through a pointer of the slice. An index outside it
-- panics. The hasher is the library's, so the default hasher of a configuration without one is
-- `Fnv.sum64` given there; `on_remove` says whether a callback is configured. The life window in
-- seconds is computed by the conversion of a `time.Duration`, so it is an argument.
pub mod Sharding
pub mod Abstract
pub mod Refines
pub mod Timeless
pub mod Runs
use ngbigcache.Base.{
  ℕ, zero, suc, ◌+◌, ◌-◌, ◌%◌, ◌^◌, Bool, true, false, Option, none, some, List, [], ◌∷◌, ◌++◌,
  if◌then◌else◌, Bytes, Run, ok, panic, ◌>>=◌, Result, value, error, get_elem?, set,
}
use Prim.Native.Nat.{bit_and}
use ngbigcache.Base.Int.{ℤ}
use ngbigcache.Cache.Config.{Config, Stats, zero_stats, is_power_of_two, maximum_shard_size}
use ngbigcache.Cache.Encoding.{read_key_from_entry, read_entry, read_timestamp_from_entry}
use ngbigcache.Cache.Library.{Library}
use ngbigcache.Cache.Shard.{Shard, CacheError, Removals, init_new_shard}
use ngbigcache.Cache.Shard as shard
use ngbigcache.Cache.Shard.Evict.{outlived}

-- `BigCache`
pub record BigCache (lib : Library) : Type 0 where
  pub shards : List (Shard lib)
  pub life_window : ℕ
  pub config : Config
  pub shard_mask : ℕ
  pub max_shard_size : ℕ

-- `providedOnRemove` and `notProvidedOnRemove`
unfoldable pub provided_on_remove : Bytes → Run Removals
provided_on_remove wrapped = do
  key ← read_key_from_entry wrapped
  entry ← read_entry wrapped
  ok ((key, entry) ∷ [])

unfoldable pub not_provided_on_remove : Bytes → Run Removals
not_provided_on_remove wrapped = ok []

-- The loop of `newBigCache`: `n` shards, of which the first has number `num`.
unfoldable pub init_shards :
    (lib : Library) → Config → (Bytes → Run Removals) → ℕ → ℕ → ℕ → Run (List (Shard lib))
init_shards lib c callback life_window zero num = ok []
init_shards lib c callback life_window (suc n) num = do
  s ← init_new_shard lib c callback life_window num
  rest ← init_shards lib c callback life_window n (num + 1)
  ok (s ∷ rest)

-- `newBigCache`: `none` is the error on the number of shards
unfoldable pub new_big_cache : (lib : Library) → Config → Bool → ℕ → Run (Option (BigCache lib))
unfolding init_shards
new_big_cache lib c on_remove life_window =
    let made : Run (Option (BigCache lib)) = (do
      maximum ← maximum_shard_size c
      shards ←
          init_shards lib c (if on_remove then provided_on_remove else not_provided_on_remove)
            life_window c.shards 1
      ok (
          some (record {
            shards = shards;
            life_window = life_window;
            config = c;
            shard_mask = (c.shards + 2 ^ 64 - 1) % 2 ^ 64;
            max_shard_size = maximum % 2 ^ 32;
          }))) in
    if is_power_of_two c.shards then made else ok none

-- `Stats`: the sums over the shards
abbrev add_stats : Stats → Stats → Stats
add_stats a b = record {
  hits = a.hits + b.hits;
  misses = a.misses + b.misses;
  del_hits = a.del_hits + b.del_hits;
  del_misses = a.del_misses + b.del_misses;
  collisions = a.collisions + b.collisions;
  evict_count = a.evict_count + b.evict_count;
}

module _ {lib : Library} where
  -- The index in `getShard`.
  unfoldable pub shard_index : BigCache lib → ℕ → ℕ
  shard_index c hash = bit_and hash c.shard_mask

  -- `getShard`
  unfoldable pub get_shard : BigCache lib → ℕ → Run (Shard lib)
  unfolding shard_index
  get_shard c hash = elim (get_elem? c.shards (shard_index c hash)) [ none ↦ panic | some s ↦ ok s ]

  abbrev pub put_shard : BigCache lib → ℕ → Shard lib → BigCache lib
  put_shard c hash s = record c { shards = set c.shards (shard_index c hash) s }

  -- `Get`
  unfoldable pub get : BigCache lib → Bytes → Run (BigCache lib × Result CacheError Bytes)
  unfolding get_shard
  get c key = do
    s ← get_shard c (lib.sum64 key)
    r ← shard.get s key (lib.sum64 key)
    ok (put_shard c (lib.sum64 key) r.0, r.1)

  -- `Set`
  unfoldable pub set_entry :
      BigCache lib → Bytes → Bytes → ℤ → ℕ → ℕ → Run (BigCache lib × ℕ × Option CacheError)
  unfolding get_shard
  set_entry c key entry duration epoch now = do
    s ← get_shard c (lib.sum64 key)
    r ← shard.set s key (lib.sum64 key) entry duration epoch now
    ok (put_shard c (lib.sum64 key) r.0, r.1, r.2)

  -- `Delete`
  unfoldable pub delete : BigCache lib → Bytes → ℕ → Run (BigCache lib × Option CacheError)
  unfolding get_shard
  delete c key now = do
    s ← get_shard c (lib.sum64 key)
    r ← shard.del s key (lib.sum64 key) now
    ok (put_shard c (lib.sum64 key) r.0, r.1)

  unfoldable pub reset_shards : List (Shard lib) → Config → Run (List (Shard lib))
  reset_shards [] c = ok []
  reset_shards (s ∷ rest) c = do s' ← shard.reset s c; rest' ← reset_shards rest c; ok (s' ∷ rest')

  -- `Reset`
  unfoldable pub reset : BigCache lib → Run (BigCache lib)
  unfolding reset_shards
  reset c = do shards ← reset_shards c.shards c.config; ok (record c { shards = shards })

  unfoldable pub sum_len : List (Shard lib) → ℕ → Run ℕ
  sum_len [] sum = ok sum
  sum_len (s ∷ rest) sum = do n ← shard.len s; sum_len rest (sum + n)

  -- `Len`
  unfoldable pub len : BigCache lib → Run ℕ
  unfolding sum_len
  len c = sum_len c.shards 0

  unfoldable pub sum_stats : List (Shard lib) → Stats → Stats
  sum_stats [] sum = sum
  sum_stats (s ∷ rest) sum = sum_stats rest (add_stats sum (shard.get_stats s))

  -- `Stats`
  unfoldable pub stats : BigCache lib → Stats
  unfolding sum_stats
  stats c = sum_stats c.shards zero_stats

  -- `onEvict`
  unfoldable pub on_evict :
      BigCache lib → Bytes → ℕ → (BigCache lib → Run (BigCache lib)) → Run (BigCache lib × Bool)
  unfolding outlived
  on_evict c oldest current evict = do
    timestamp ← read_timestamp_from_entry oldest
    if outlived timestamp current c.life_window
        then (evict c >>= λ c'. ok (c', true))
        else ok (c, false)
