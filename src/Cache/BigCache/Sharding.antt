-- ===== src/Cache/BigCache/Sharding.antt =====
-- The shard of a key: the mask picks one of the shards, if there is one.
use ngbigcache.Base.{
  ℕ, zero, suc, ◌+◌, ◌-◌, ◌*◌, ◌/◌, ◌%◌, ◌≤◌, ◌<◌, ◌^◌, ◌≡◌, refl, ap, Bool, true, false, some,
  List, [], ◌∷◌, length, get_elem?, Bytes, arith, Run, ok, panic, if◌then◌else◌, Bool-cases, inl,
  inr,
}
use ngbigcache.Base.{ltb, subst, ne→==_false}
use ngbigcache.Cache.Config.{initial_shard_size, div, max, convert_mb_to_bytes}
use ngbigcache.Base.{replicate}
use ngbigcache.Cache.Config.{zero_stats}
use ngbigcache.Cache.Encoding.{headers_size_in_bytes}
use ngbigcache.Queue.BytesQueue.{new_bytes_queue}
use ngbigcache.Cache.Ttl.{new_ttl_manager}
use ngbigcache.Base.Assoc as assoc
use ngbigcache.Cache.Shard.Set.{Caches}
use ngbigcache.Queue.BytesQueue.New.{new_bytes_queue-Lays}
use Prim.Native.Nat.{min, bit_and, digits, bit_and-bitwise}
use mathlib.Core.Option.{some-injective}
use ngbigcache.Cache.Config.{Config, is_power_of_two, maximum_shard_size}
use ngbigcache.Cache.Library.{Library}
use ngbigcache.Cache.Shard.{Shard, Removals, init_new_shard}
use ngbigcache.Cache.BigCache.{
  BigCache, init_shards, new_big_cache, get_shard, shard_index, get, provided_on_remove,
  not_provided_on_remove,
}

digits-le : (n a b : ℕ) → digits (λ c. 0) min n a b ≤ b
digits-le zero a b = omega arith
digits-le (suc n) zero b = omega arith
digits-le (suc n) (suc a) b = omega (arith, digits-le n (suc a / 2) (b / 2))

pub bit_and-le : (a b : ℕ) → bit_and a b ≤ b
bit_and-le a b = rw (bit_and-bitwise a b) (digits-le a a b)

get_elem?-lt :
    {A : Type 0} → (xs : List A) (n : ℕ) → n < length xs → (x : A) × (get_elem? xs n ≡ some x)
get_elem?-lt [] n h = absurd (omega arith)
get_elem?-lt (x ∷ xs) zero h = (x, refl)
get_elem?-lt (x ∷ xs) (suc n) h = get_elem?-lt xs n (omega arith)

no_index : (h i : ℕ) {A : Type 0} → assoc.get {V = ℕ} [] h ≡ some i → A
unfolding assoc.get
no_index h i e = absurd (cc)

pub get_shard_lem :
    {lib : Library} (cache : BigCache lib) (hash : ℕ) (s : Shard lib)
    → get_elem? cache.shards (bit_and hash cache.shard_mask) ≡ some s
    → get_shard cache hash ≡ ok s
unfolding get_shard shard_index
get_shard_lem cache hash s e = rw (get_shard, e) refl

mul-pos : (a b : ℕ) → 1 ≤ a → 1 ≤ b → 1 ≤ a * b
mul-pos zero b h k = absurd (omega arith)
mul-pos (suc a) zero h k = absurd (omega arith)
mul-pos (suc a) (suc b) h k = omega arith

module _ (lib : Library) (c : Config) (some_shard : 1 ≤ c.shards)
    (some_size : 1 ≤ c.max_entry_size) where
  -- The sizes of a shard.
  initial_ok : (n : ℕ) × (initial_shard_size c ≡ ok n) × (10 ≤ n)
  unfolding initial_shard_size div max
  initial_ok =
      rw (ne→==_false c.shards 0 (λ e. omega (arith, e)))
        (max (c.max_entries_in_window / c.shards) 10, refl, ground arith)

  maximum_ok : (n : ℕ) × (maximum_shard_size c ≡ ok n)
  unfolding maximum_shard_size div
  maximum_ok = elim (Bool-cases (ltb 0 c.hard_max_cache_size)) [
    | inl t ↦ (
      convert_mb_to_bytes c.hard_max_cache_size / c.shards,
      rw (t, ne→==_false c.shards 0 (λ e. omega (arith, e))) refl,
    )
    | inr f ↦ (0, rw f refl)
  ]

  module _ (callback : Bytes → Run Removals) (life_window : ℕ) where
    -- A new shard is well-formed and has no entries.
    fresh_shard :
        (num : ℕ)
        → (s : Shard lib) × (init_new_shard lib c callback life_window num ≡ ok s) × Caches s []
    unfolding init_new_shard
    fresh_shard num =
        let (initial, e, le) = initial_ok in
        let (maximum, f) = maximum_ok in
        let s : Shard lib = record {
          shared_num = num;
          hashmap = [];
          entries = new_bytes_queue lib.index_trees (initial * c.max_entry_size) maximum c.verbose;
          locked = false;
          entry_buffer = replicate (c.max_entry_size + headers_size_in_bytes) 0;
          on_remove = callback;
          removed = [];
          is_verbose = c.verbose;
          life_window = life_window;
          stats = zero_stats;
          ttl_table = new_ttl_manager lib;
        } in
        (
          s,
          rw (e, f) refl,
          record {
            unlocked = refl;
            lays =
                new_bytes_queue-Lays lib.index_trees (initial * c.max_entry_size) maximum c.verbose
                  (mul-pos initial c.max_entry_size (omega arith) some_size);
            indexed = λ h i o e. no_index h i e;
            apart = λ h k i o p e f. no_index h i e;
          },
        )

    fresh_shards :
        (n num : ℕ)
        → (shards : List (Shard lib)) × (init_shards lib c callback life_window n num ≡ ok shards)
          × (length shards ≡ n)
          × ((i : ℕ) (s : Shard lib) → get_elem? shards i ≡ some s → Caches s [])
    unfolding init_shards
    fresh_shards zero num = ([], refl, refl, λ i s e. absurd (cc))
    fresh_shards (suc n) num =
        let (s, e, fresh) = fresh_shard num in
        let (shards, f, size, all) = fresh_shards n (num + 1) in
        (s ∷ shards, rw (e, f) refl, ap suc size, each s fresh shards all)
      where
        each :
            (s : Shard lib)
            → Caches s []
            → (shards : List (Shard lib))
            → ((i : ℕ) (s : Shard lib) → get_elem? shards i ≡ some s → Caches s [])
            → (i : ℕ) (t : Shard lib) → get_elem? (s ∷ shards) i ≡ some t
            → Caches t []
        each s fresh shards all zero t e = subst (λ x. Caches x []) (some-injective _ _ e) fresh
        each s fresh shards all (suc i) t e = all i t e

  -- For a number of shards that is a power of two, at least 1 and at most 2^64, and entries of at
  -- least one byte, the cache is made, and the shard of every hash exists, is well-formed and has no
  -- entries.
  pub new_big_cache_lem :
      (on_remove : Bool) (life_window : ℕ)
      → is_power_of_two c.shards ≡ true
      → c.shards ≤ 2 ^ 64
      → (cache : BigCache lib) × (new_big_cache lib c on_remove life_window ≡ ok (some cache))
        × ((hash : ℕ) → (s : Shard lib) × (get_shard cache hash ≡ ok s) × Caches s [])
  unfolding new_big_cache get_shard
  new_big_cache_lem on_remove life_window power fits =
      let callback : Bytes → Run Removals =
        if on_remove then provided_on_remove else not_provided_on_remove in
      let (maximum, e) = maximum_ok in
      let (shards, f, size, all) = fresh_shards callback life_window c.shards 1 in
      let mask : (c.shards + 2 ^ 64 - 1) % 2 ^ 64 ≡ c.shards - 1 = omega arith in
      let cache : BigCache lib = record {
        shards = shards;
        life_window = life_window;
        config = c;
        shard_mask = (c.shards + 2 ^ 64 - 1) % 2 ^ 64;
        max_shard_size = maximum % 2 ^ 32;
      } in
      (
        cache,
        rw (power, e, f) refl,
        λ hash.
            let (s, g) =
              get_elem?-lt shards (bit_and hash ((c.shards + 2 ^ 64 - 1) % 2 ^ 64))
                (omega (arith, bit_and-le hash ((c.shards + 2 ^ 64 - 1) % 2 ^ 64), mask, size)) in
            (s, get_shard_lem cache hash s g, all _ s g),
      )

-- With a configuration of 0 shards and no maximal size, the cache is made without an error, and
-- every `Get` of it panics.
pub no_shards-panic :
    (lib : Library) (c : Config) (on_remove : Bool) (life_window : ℕ)
    → c.shards ≡ 0
    → c.hard_max_cache_size ≡ 0
    → (cache : BigCache lib) × (new_big_cache lib c on_remove life_window ≡ ok (some cache))
      × ((key : Bytes) → get cache key ≡ panic)
unfolding new_big_cache get get_shard is_power_of_two init_shards maximum_shard_size
no_shards-panic lib c on_remove life_window zero_shards no_max = (
  record {
    shards = [];
    life_window = life_window;
    config = c;
    shard_mask = (c.shards + 2 ^ 64 - 1) % 2 ^ 64;
    max_shard_size = 0;
  },
  rw (zero_shards, no_max) refl,
  λ key. refl,
)
