-- ===== src/Cache/Shard/Evict.antt =====
-- bigcache/shard.go and bigcache/ttl.go: the eviction of expired entries.
--
-- `eviction` is a goroutine that waits for the timer. What it does when the timer fires is
-- `eviction`, with the second that the clock shows at each pass of its inner loop; `none` says that
-- it would make more passes than there are readings.
pub mod Key
pub mod Pass
use ngbigcache.Base.{
  ℕ, ◌+◌, ◌-◌, ◌%◌, ◌^◌, Bool, true, false, Option, none, some, List, [], ◌∷◌, ◌==◌, if◌then◌else◌,
  Bytes, Run, ok, blocked, ◌>>=◌, value, error, ltb,
}
use ngbigcache.Queue.BytesQueue as queue
use ngbigcache.Cache.Encoding.{read_timestamp_from_entry}
use ngbigcache.Cache.Library.{Library}
use ngbigcache.Cache.Ttl.{TtlManager, interval}
use ngbigcache.Cache.Ttl as ttl
use ngbigcache.Cache.Shard.{Shard, item_index, take_out, delhit, delmiss}

-- `currentTimestamp - oldestTimestamp > lifeWindow`, with the subtraction of uint64
unfoldable pub outlived : ℕ → ℕ → ℕ → Bool
outlived oldest current life_window = ltb life_window ((current + 2 ^ 64 - oldest) % 2 ^ 64)

module _ {lib : Library} where
  -- One pass of the loop of `evictDel`: the key of the set is looked up by its hash.
  unfoldable pub evict_key : ℕ → Shard lib → Bytes → Run (Shard lib)
  evict_key timestamp s key =
      let hash = lib.sum64 key in
      let index = item_index s.hashmap hash in
      let counted : Shard lib = record s {
        stats = record s.stats { evict_count = s.stats.evict_count + 1 };
      } in
      if index == 0 then ok (delmiss counted) else do
        r ← queue.get s.entries index
        elim r [
          | error e ↦ ok (delmiss counted)
          | value wrapped ↦ do
            stored ← read_timestamp_from_entry wrapped
            if stored == timestamp
                then (take_out counted hash index wrapped >>= λ gone. ok (delhit gone))
                else ok counted
        ]

  unfoldable pub evict_keys : ℕ → Shard lib → List Bytes → Run (Shard lib)
  unfolding evict_key
  evict_keys timestamp s [] = ok s
  evict_keys timestamp s (key ∷ keys) = do
    s' ← evict_key timestamp s key
    evict_keys timestamp s' keys

  -- `evictDel`, with `Values` as the order of the loop
  unfoldable pub evict_del : Shard lib → ℕ → lib.sets.Set → Run (Shard lib)
  unfolding evict_keys
  evict_del s timestamp set =
      if s.locked then blocked else evict_keys timestamp s (lib.sets.values set)

  -- `onEvict`: the callback `evict` is applied to the shard, and its error is dropped.
  unfoldable pub on_evict :
      Shard lib → Bytes → ℕ → (Shard lib → Run (Shard lib)) → Run (Shard lib × Bool)
  unfolding outlived
  on_evict s oldest current evict = do
    timestamp ← read_timestamp_from_entry oldest
    if outlived timestamp current s.life_window
        then (evict s >>= λ s'. ok (s', true))
        else ok (s, false)

  -- `timeTree.Remove`, and `evict`
  unfoldable pub expire : Shard lib → ℕ → lib.sets.Set → Run (Shard lib)
  unfolding evict_del
  expire s key set =
      evict_del
        (record s {
          ttl_table = record s.ttl_table {
            time_tree = lib.time_trees.remove s.ttl_table.time_tree key;
          };
        })
        key set

  -- One pass of the inner loop: `true` where it makes another.
  unfoldable pub eviction_pass : Shard lib → ℕ → Run (Shard lib × Bool)
  unfolding expire
  eviction_pass s now = elim (ttl.peek s.ttl_table) [
    | none ↦ ok (s, false)
    | some (key, set) ↦
        if interval key now == 0
        then (expire s key set >>= λ s'. ok (s', true))
        else ok (record s { ttl_table = ttl.reset_timer s.ttl_table key now }, false)
  ]

  unfoldable pub eviction_loop : Shard lib → List ℕ → Run (Option (Shard lib))
  unfolding eviction_pass
  eviction_loop s [] = ok none
  eviction_loop s (now ∷ later) = do
    r ← eviction_pass s now
    if r.1 then eviction_loop r.0 later else ok (some r.0)

  -- `eviction`, when the timer fires
  unfoldable pub eviction : Shard lib → List ℕ → Run (Option (Shard lib))
  unfolding expire eviction_loop
  eviction s readings =
      let fired : Shard lib = record s { ttl_table = record s.ttl_table { timer = none } } in
      elim (ttl.peek s.ttl_table) [
        | none ↦ ok (some fired)
        | some (key, set) ↦ (expire fired key set >>= λ s'. eviction_loop s' readings)
      ]
