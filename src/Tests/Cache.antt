-- ===== src/Tests/Cache.antt =====
-- bigcache at concrete data.
use ngbigcache.Base.{
  In, ℕ, ◌+◌, ◌≤◌, ◌^◌, ◌≡◌, ◌⊎◌, refl, inl, [], ◌∷◌, ◌++◌, arith, length, Bytes, true, false,
  copy_at, le_bytes, put_le, ok, value, error, none, some, if◌then◌else◌, eq_bytes,
}
use ngbigcache.Base.Assoc as assoc
use ngbigcache.Base.Int.{pos}
use ngbigcache.Gods.Assoc.{assoc_tree}
use ngbigcache.Gods.Keys.{key_set}
use ngbigcache.Queue.BytesQueue.{BytesQueue, QueueError, full_queue, new_bytes_queue}
use ngbigcache.Queue.BytesQueue as queue
use ngbigcache.Queue.FreeList.{find, find_start, new_free_list}
use ngbigcache.Queue.BytesQueue.Layout.{Lays, entry_bytes, without}
use ngbigcache.Queue.BytesQueue.New.{
  new_free_list-IsValid, new_free_list-Free, new_bytes_queue-Lays,
}
use ngbigcache.Queue.BytesQueue.Place.{placed-Lays}
use ngbigcache.Cache.Config.{default_config, zero_stats, is_power_of_two}
use ngbigcache.Cache.Encoding.{wrap_entry}
use ngbigcache.Cache.Encoding.RoundTrip.{layout}
use ngbigcache.Cache.Library.{Library}
use ngbigcache.Cache.Ttl.{TtlManager, new_ttl_manager}
use ngbigcache.Cache.Shard.{
  Shard, entry_not_found, get, set, del, hit, miss, collision, expiry_timestamp, item_index,
  drop_previous,
}
use ngbigcache.Cache.Shard.Keeps.{Keeps}
use ngbigcache.Cache.Shard.Get.{get_lem}
use ngbigcache.Cache.Shard.Set.{Caches, Saved, Lost, answer, set_get}
use ngbigcache.Cache.Shard.Store.{stored, stored-Keeps, get_self}
use ngbigcache.Cache.Shard.Evict.{evict_del}
use ngbigcache.Cache.Shard.Evict.Pass.{Due, evict_del-get}
use ngbigcache.Cache.Shard.Evict.Key.{HasStamp}
use ngbigcache.Queue.BytesQueue.Layout.{Entries}
use ngbigcache.Cache.Shard.Del.{del_get}
use ngbigcache.Cache.BigCache.{BigCache, new_big_cache, get_shard}
use ngbigcache.Cache.BigCache.Sharding.{new_big_cache_lem}

-- Every duration is a minute, and every key has the hash 77.
abbrev pub library : Library
library = record {
  index_trees = assoc_tree ℕ;
  sets = key_set;
  time_trees = assoc_tree key_set.Set;
  sum64 = λ key. 77;
  seconds = λ d. 60;
  sum64-lt = λ key. omega arith;
}

abbrev pub start : BytesQueue library.index_trees
start = new_bytes_queue library.index_trees 64 0 false

abbrev pub new_shard : Shard library
new_shard = record {
  shared_num = 1;
  hashmap = [];
  entries = start;
  locked = false;
  entry_buffer = [];
  on_remove = λ wrapped. ok [];
  removed = [];
  is_verbose = false;
  life_window = 60;
  stats = zero_stats;
  ttl_table = new_ttl_manager library;
}

pub new_shard-Keeps : (Open : ℕ → Type 0) → Keeps new_shard [] Open
unfolding assoc.get
new_shard-Keeps Open = record {
  unlocked = refl;
  lays = new_bytes_queue-Lays library.index_trees 64 0 false (omega arith);
  indexed = λ h i o e. no_index h i e;
  apart = λ h k i o p e f. no_index h i e;
}
  where
    no_index : (h i : ℕ) {A : Type 0} → assoc.get {V = ℕ} [] h ≡ some i → A
    no_index h i e = absurd (cc)

abbrev pub key_bytes : Bytes
key_bytes = 107 ∷ 101 ∷ 121 ∷ []

abbrev pub value_bytes : Bytes
value_bytes = 1 ∷ 2 ∷ []

set_get_example :
    Saved new_shard key_bytes 77 value_bytes
      (expiry_timestamp library (pos 1) 1000)
      (set new_shard key_bytes 77 value_bytes (pos 1) 1000 1000)
    ⊎ Lost new_shard (set new_shard key_bytes 77 value_bytes (pos 1) 1000 1000)
set_get_example =
    set_get new_shard [] (new_shard-Keeps (λ h. ⊥)) key_bytes 77 value_bytes (pos 1) 1000 1000
      (omega arith) (omega arith) (unfold new_bytes_queue in omega arith)

-- A shard that holds the entry at index 1.
abbrev pub wrapped_bytes : Bytes
wrapped_bytes = layout 60 77 key_bytes value_bytes

abbrev pub full : BytesQueue library.index_trees
full = record start {
  array = copy_at start.array 1 (entry_bytes wrapped_bytes);
  header_buffer = le_bytes 4 (length wrapped_bytes);
  tail = 28;
  right_margin = 28;
  count = start.count + 1;
}

pub full-Lays : Lays full ((1, wrapped_bytes) ∷ [])
unfolding new_bytes_queue le_bytes
full-Lays =
    placed-Lays start [] (new_bytes_queue-Lays library.index_trees 64 0 false (omega arith)) 1
      wrapped_bytes (omega arith) (omega arith) (omega arith) (λ j e h. elim h [ ]) 28 28
      start.freelist refl (omega arith) (omega arith) (omega arith)
      (new_free_list-IsValid library.index_trees)
      (λ p f. absurd (new_free_list-Free library.index_trees p f))

abbrev pub full_shard : Shard library
full_shard =
    stored new_shard [] 77 (new_shard-Keeps (λ h. h ≡ 77)) 60 key_bytes value_bytes (omega arith)
      (omega arith) (omega arith) 1 full full-Lays [] (new_ttl_manager library)

full_small : full.capacity ≤ 2 ^ 32
unfolding new_bytes_queue
full_small = omega arith

pub full_shard-Caches : Caches full_shard ((1, wrapped_bytes) ∷ [])
full_shard-Caches =
    stored-Keeps new_shard [] 77 (new_shard-Keeps (λ h. h ≡ 77)) 60 key_bytes value_bytes
      (omega arith) (omega arith) (omega arith) 1 full full-Lays full_small []
      (new_ttl_manager library)

pub full_shard-get : assoc.get full_shard.hashmap 77 ≡ some 1
full_shard-get =
    get_self new_shard [] 77 (new_shard-Keeps (λ h. h ≡ 77)) 60 key_bytes value_bytes (omega arith)
      (omega arith) (omega arith) 1 full full-Lays full_small

-- Another key with the same hash.
abbrev pub other_key : Bytes
other_key = 0 ∷ []

get_lem_example :
    get full_shard other_key 77
    ≡ ok (
        if eq_bytes other_key key_bytes
        then (hit full_shard, value value_bytes)
        else (collision full_shard, error (entry_not_found other_key)))
get_lem_example =
    get_lem full_shard ((1, wrapped_bytes) ∷ []) (λ h. ⊥) full_shard-Caches 77 1 full_shard-get 60
      key_bytes value_bytes (omega arith) (omega arith) (omega arith) (inl refl) other_key

del_get_example :
    (s' : Shard library) × (del full_shard other_key 77 1000 ≡ ok (s', none))
    × Caches s' (without 1 ((1, wrapped_bytes) ∷ []))
    × (s'.removed ≡ full_shard.removed ++ [])
    × ((k : Bytes) → get s' k 77 ≡ ok (miss s', error (entry_not_found k)))
    × ((k : Bytes) (other : ℕ)
        → (77 ≡ other) ⊎ (answer (get s' k other) ≡ answer (get full_shard k other)))
del_get_example =
    del_get full_shard ((1, wrapped_bytes) ∷ []) full_shard-Caches 77 1 full_shard-get 60 key_bytes
      value_bytes (omega arith) (omega arith) (omega arith) (inl refl) [] refl other_key 1000

abbrev minute : ℕ
minute = 60

abbrev table : TtlManager library
table = new_ttl_manager library

no_timestamp : (other : ℕ) → library.time_trees.get table.time_tree other ≡ none
unfolding new_ttl_manager assoc.get
no_timestamp other = refl

new_big_cache_lem_example :
    (cache : BigCache library) × (new_big_cache library default_config true 60 ≡ ok (some cache))
    × ((hash : ℕ) → (s : Shard library) × (get_shard cache hash ≡ ok s) × Caches s [])
new_big_cache_lem_example =
    new_big_cache_lem library default_config (unfold default_config in omega arith)
      (unfold default_config in omega arith) true 60 power (unfold default_config in omega arith)
  where
    power : is_power_of_two default_config.shards ≡ true
    power = unfold default_config in unfold is_power_of_two in refl

-- A queue of 30 bytes that cannot grow.
abbrev small_shard : Shard library
small_shard = record new_shard { entries = new_bytes_queue library.index_trees 30 30 false }

abbrev long_bytes : Bytes
long_bytes = 1 ∷ 2 ∷ 3 ∷ 4 ∷ 5 ∷ 6 ∷ 7 ∷ 8 ∷ 9 ∷ []

small_drop :
    drop_previous small_shard key_bytes (item_index small_shard.hashmap 77) 1000 ≡ ok small_shard
unfolding drop_previous assoc.get
small_drop = refl

small_wrap :
    wrap_entry
      (expiry_timestamp library (pos 0) 1000)
      77
      key_bytes
      long_bytes
      small_shard.entry_buffer
    ≡ ok (layout 0 77 key_bytes long_bytes, layout 0 77 key_bytes long_bytes)
unfolding wrap_entry expiry_timestamp put_le copy_at le_bytes
small_wrap = refl

small_push :
    queue.push small_shard.entries (layout 0 77 key_bytes long_bytes)
    ≡ ok (small_shard.entries, error full_queue)
unfolding queue.push new_bytes_queue find find_start le_bytes new_free_list
small_push = refl

-- The set of the key alone.
abbrev key_alone : library.sets.Set
key_alone = library.sets.add library.sets.new key_bytes

evict_del-get_example :
    (s' : Shard library) × (es' : Entries) × (evict_del full_shard 60 key_alone ≡ ok s')
    × Caches s' es'
    × ((hash : ℕ)
        → ((key : Bytes) → answer (get s' key hash) ≡ answer (get full_shard key hash))
          ⊎ (Due full_shard 60 (library.sets.values key_alone) hash
              × ((key : Bytes) → answer (get s' key hash) ≡ ok (error (entry_not_found key)))))
    × ((key : Bytes)
        → In key (library.sets.values key_alone)
        → ¬ (HasStamp s' (library.sum64 key) 60))
evict_del-get_example =
    evict_del-get full_shard ((1, wrapped_bytes) ∷ []) 60 key_alone full_shard-Caches
      (λ timestamp hash key entry. ([], refl))
