-- ===== src/Tests/Refines.antt =====
-- A cache of one shard, with one entry, and the table that it represents.
use ngbigcache.Base.{
  ℕ, zero, suc, List, ◌+◌, ◌*◌, ◌<◌, ◌≤◌, ◌^◌, ◌≡◌, ◌≢◌, ◌⊎◌, ◌∙◌, refl, sym, ap, subst, Option,
  none, some, [], ◌∷◌, ==-cases, inl, inr, length, Bytes, eq_bytes_refl, ok, value, arith,
}
use ngbigcache.Base.Assoc as assoc
use ngbigcache.Base.Assoc.{get-put}
use ngbigcache.Base.Int.{pos}
use Prim.Native.Nat.{bit_and}
use mathlib.Core.Option.{some-injective}
use ngbigcache.Cache.Config.{default_config}
use ngbigcache.Cache.Shard.{Shard, CacheError, Removals, expiry_timestamp, hit}
use ngbigcache.Cache.Shard as shard
use ngbigcache.Cache.Shard.Get.{get_lem, get_miss}
use ngbigcache.Queue.BytesQueue.{new_bytes_queue}
use ngbigcache.Cache.BigCache.{BigCache, set_entry, delete}
use ngbigcache.Cache.BigCache.Sharding.{bit_and-le}
use ngbigcache.Cache.BigCache.Abstract.{
  Table, change, Answers, IsShardOf, Represents, found-Answers,
}
use ngbigcache.Cache.BigCache.Refines.{set_entry-Represents, delete-Represents}
use ngbigcache.Cache.BigCache.Timeless.{Timeless, AllTimeless}
use ngbigcache.Cache.Ttl.{new_ttl_manager}
use ngbigcache.Cache.BigCache.Runs.{
  HasRoom, Call, set_call, get_call, Allowed, run, table_run, table_after, run-table_run,
}
use ngbigcache.Tests.Cache.{
  library, full_shard, key_bytes, value_bytes, other_key, wrapped_bytes, full_shard-Caches,
  full_shard-get,
}

abbrev pub one_cache : BigCache library
one_cache = record {
  shards = full_shard ∷ [];
  life_window = 60;
  config = default_config;
  shard_mask = 0;
  max_shard_size = 0;
}

abbrev pub one_entry : Table
one_entry = change (λ hash. none) 77 (some (key_bytes, value_bytes))

only_shard : (hash : ℕ) → IsShardOf one_cache hash full_shard
only_shard hash = rw (let e : bit_and hash 0 ≡ 0 = omega (arith, bit_and-le hash 0) in e) refl

is_full : (hash : ℕ) (s : Shard library) → IsShardOf one_cache hash s → full_shard ≡ s
is_full hash s at = some-injective _ _ (sym (only_shard hash) ∙ at)

found_there : shard.get full_shard key_bytes 77 ≡ ok (hit full_shard, value value_bytes)
found_there =
    get_lem full_shard ((1, wrapped_bytes) ∷ []) (λ h. ⊥) full_shard-Caches 77 1 full_shard-get 60
      key_bytes value_bytes (omega arith) (omega arith) (omega arith) (inl refl) key_bytes
    ∙ rw (eq_bytes_refl key_bytes) refl

elsewhere : (other : ℕ) → 77 ≢ other → assoc.get full_shard.hashmap other ≡ none
unfolding assoc.get assoc.put assoc.remove
elsewhere other n = ground (arith, n)

pub one_cache-Represents : Represents one_cache one_entry
one_cache-Represents hash = (
  full_shard,
  only_shard hash,
  ((1, wrapped_bytes) ∷ [], full_shard-Caches),
  elim (==-cases 77 hash) [
    | inl (_, e) ↦
        subst (λ h. Answers full_shard h (one_entry h)) e
          (found-Answers full_shard ((1, wrapped_bytes) ∷ []) key_bytes value_bytes 77
            full_shard-Caches found_there)
    | inr (f, n) ↦ λ asked.
        rw (f, get_miss full_shard full_shard-Caches.unlocked asked hash (elsewhere hash n)) refl
  ],
)

pub one_cache-HasRoom : (key : Bytes) → length key ≤ 100 → HasRoom one_cache key value_bytes
unfolding new_bytes_queue
one_cache-HasRoom key le s at =
    subst
      (λ (x : Shard library).
        (x.entries.max_capacity ≡ 0)
        × ((x.entries.capacity + (2 + 18 + length key + 4)) * 2 ≤ 2 ^ 32))
      (is_full (library.sum64 key) s at) (refl, omega (arith, le))

-- A second key takes the place of the first.
abbrev some_calls : List Call
some_calls =
    set_call other_key value_bytes (pos 0) 1000 1000 ∷ get_call other_key ∷ get_call key_bytes ∷ []

some_calls-Allowed : Allowed some_calls one_cache
some_calls-Allowed = (
  refl,
  omega arith,
  one_cache-HasRoom other_key (omega arith),
  λ c ts e. λ c1 r1 e1. λ c2 r2 e2. tt,
)

one_cache-AllTimeless : AllTimeless one_cache
unfolding new_ttl_manager assoc.get
one_cache-AllTimeless zero s at =
    subst Timeless (some-injective full_shard s at) (λ k. library.time_trees.get-empty k)
one_cache-AllTimeless (suc i) s at = absurd (let f : none ≡ some s = at in cc)

run-table_run_example :
    (c' : BigCache library) × (run some_calls one_cache
      ≡ ok (c', table_run (λ key. 77) some_calls one_entry))
    × Represents c' (table_after (λ key. 77) some_calls one_entry)
    × AllTimeless c'
run-table_run_example =
    run-table_run some_calls one_cache one_entry one_cache-Represents one_cache-AllTimeless
      some_calls-Allowed

set_entry-Represents_example :
    (c' : BigCache library) × (timestamp : ℕ) × (set_entry one_cache other_key value_bytes
        (pos 1)
        1000
        1000
      ≡ ok (c', timestamp, none))
    × (((timestamp ≡ expiry_timestamp library (pos 1) 1000)
          × Represents c' (change one_entry 77 (some (other_key, value_bytes))))
        ⊎ ((s : Shard library) × IsShardOf one_cache 77 s × (0 < s.entries.max_capacity)))
set_entry-Represents_example =
    set_entry-Represents one_cache one_entry one_cache-Represents other_key value_bytes (pos 1) 1000
      1000 (omega arith) (λ s at. (one_cache-HasRoom other_key (omega arith) s at).1)

delete-Represents_example :
    (c' : BigCache library) × (e : Option CacheError) × (delete one_cache other_key 1000
      ≡ ok (c', e))
    × ((e ≡ none) ⊎ (one_entry 77 ≡ none))
    × Represents c' (change one_entry 77 none)
delete-Represents_example =
    delete-Represents one_cache one_entry one_cache-Represents other_key 1000
      (λ s at d w. ([], ap (λ (x : Shard library). x.on_remove d) (sym (is_full 77 s at))))
