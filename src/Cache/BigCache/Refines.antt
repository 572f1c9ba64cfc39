-- ===== src/Cache/BigCache/Refines.antt =====
-- The operations of bigcache/bigcache.go on a cache, and on the table that it stands for.
use ngbigcache.Base.{
  ℕ, ◌+◌, ◌*◌, ◌<◌, ◌≤◌, ◌^◌, ◌≡◌, ◌≢◌, ◌∙◌, ◌⊎◌, sym, refl, ap, Bool, true, Option, none, some,
  Option-cases, In, inl, inr, length, Bytes, ok, panic, get_elem?, value, error, arith, [],
  eq_bytes_refl,
}
use ngbigcache.Base.Int.{ℤ}
use Prim.Native.Nat.{bit_and}
use ngbigcache.Base.Assoc as assoc
use ngbigcache.Queue.BytesQueue.Layout.{Entries}
use ngbigcache.Cache.Config.{Config, is_power_of_two}
use ngbigcache.Cache.Encoding.RoundTrip.{layout}
use ngbigcache.Cache.Library.{Library}
use ngbigcache.Cache.Shard.{
  Shard, CacheError, Removals, entry_not_found, expiry_timestamp, item_index, delmiss,
}
use ngbigcache.Cache.Shard as shard
use ngbigcache.Cache.Shard.Keeps.{IsWrapped}
use ngbigcache.Cache.Shard.Get.{get_miss}
use ngbigcache.Cache.Shard.Set.{Caches, answer, set_get}
use ngbigcache.Cache.Shard.Del.{del_get}
use ngbigcache.Cache.BigCache.{
  BigCache, get, set_entry, delete, get_shard, put_shard, new_big_cache, shard_index,
}
use ngbigcache.Cache.BigCache.Sharding.{new_big_cache_lem, get_shard_lem}
use ngbigcache.Cache.BigCache.Abstract.{
  Table, look, change, Answers, IsShardOf, Represents, found-Answers, same_entries, get_step,
  replace-Represents,
}

pub change_self : (t : Table) (hash : ℕ) (e : Option (Bytes × Bytes)) → change t hash e hash ≡ e
change_self t hash e = ground arith

change_other :
    (t : Table) (hash : ℕ) (e : Option (Bytes × Bytes)) (other : ℕ)
    → hash ≢ other
    → change t hash e other ≡ t other
change_other t hash e other n = ground (arith, n)

module _ {lib : Library} (c : BigCache lib) (t : Table) (represents : Represents c t)
    (key : Bytes) where
  abbrev hash : ℕ
  hash = lib.sum64 key

  -- If a cache represents a table, then `Get` of any key returns what the table has for it, and the
  -- cache still represents the table.
  pub get-Represents :
      (c' : BigCache lib) × (get c key ≡ ok (c', look (t (lib.sum64 key)) key)) × Represents c' t
  unfolding get shard_index
  get-Represents =
      let (s, at, (es, keeps), answers) = represents hash in
      let (s', r, e, keeps', same) = get_step s es hash key keeps in
      let f : answer (shard.get s key hash) ≡ ok r = rw e refl in
      let q : r ≡ look (t hash) key = (let g = answers key in cc) in
      (
        put_shard c hash s',
        rw (get_shard_lem c hash s at, e, q) refl,
        replace-Represents c t t hash s s' es represents at keeps'
            (λ asked. same asked hash ∙ answers asked) (λ asked other. inr (same asked other))
            (λ other n. refl),
      )

  -- If a cache represents a table, the key has at most 65517 bytes, and the queue of its shard,
  -- doubled with the new entry, has at most 2^32 bytes, then `Set` returns no error, and either it
  -- returns the time of expiry and the cache then represents the table with the key and the value in
  -- the place of the key's hash, or the queue of the shard has a maximal size.
  pub set_entry-Represents :
      (entry : Bytes) (duration : ℤ) (epoch now : ℕ)
      → length key ≤ 65517
      → ((s : Shard lib)
          → IsShardOf c (lib.sum64 key) s
          → (s.entries.capacity + (length entry + 18 + length key + 4)) * 2 ≤ 2 ^ 32)
      → (c' : BigCache lib) × (timestamp : ℕ) × (set_entry c key entry duration epoch now
          ≡ ok (c', timestamp, none))
        × (((timestamp ≡ expiry_timestamp lib duration epoch)
              × Represents c' (change t (lib.sum64 key) (some (key, entry))))
            ⊎ ((s : Shard lib) × IsShardOf c (lib.sum64 key) s × (0 < s.entries.max_capacity)))
  unfolding set_entry shard_index
  set_entry-Represents entry duration epoch now key_fits room =
      let (s, at, (es, keeps), answers) = represents hash in
      let t' = change t hash (some (key, entry)) in
      elim (set_get s es keeps key hash entry duration epoch now (lib.sum64-lt key) key_fits
        (room s at)) [
          | inl (s', e, (es', keeps'), found, same) ↦ (
            put_shard c hash s',
            expiry_timestamp lib duration epoch,
            rw (get_shard_lem c hash s at, e) refl,
            inl (
              refl,
              replace-Represents c t t' hash s s' es' represents at keeps'
                  (rw (change_self t hash (some (key, entry)))
                    (found-Answers s' es' key entry hash keeps' found))
                  same (change_other t hash (some (key, entry))),
            ),
          )
          | inr (s', e, _, max) ↦
              (put_shard c hash s', 0, rw (get_shard_lem c hash s at, e) refl, inr (s, at, max))
        ]

  nothing_at :
      {s : Shard lib} {es : Entries}
      → Caches s es
      → assoc.get s.hashmap hash ≡ none
      → Answers s hash (t hash)
      → t hash ≡ none
  nothing_at {s} keeps n answers = elim (Option-cases (t hash)) [
    | inl e ↦ e
    | inr ((k, v), e) ↦ absurd (
        let f : answer (shard.get s k hash) ≡ ok (error (entry_not_found k)) =
          rw (get_miss s keeps.unlocked k hash n) refl in
        let g : answer (shard.get s k hash) ≡ ok (value v) =
          answers k ∙ rw (e, eq_bytes_refl k) refl in
        cc)
  ]

  -- If a cache represents a table, and the callback of the key's shard returns on every wrapped
  -- entry, then `Delete` returns, with an error only if the table has nothing in the place of the
  -- key's hash, and the cache then represents the table with nothing in that place.
  pub delete-Represents :
      (now : ℕ)
      → ((s : Shard lib)
          → IsShardOf c (lib.sum64 key) s
          → (d : Bytes) → IsWrapped (lib.sum64 key) d
          → (calls : Removals) × (s.on_remove d ≡ ok calls))
      → (c' : BigCache lib) × (e : Option CacheError) × (delete c key now ≡ ok (c', e))
        × ((e ≡ none) ⊎ (t (lib.sum64 key) ≡ none))
        × Represents c' (change t (lib.sum64 key) none)
  unfolding delete shard_index shard.del delmiss
  delete-Represents now returns =
      let (s, at, (es, keeps), answers) = represents hash in
      elim (Option-cases (assoc.get s.hashmap hash)) [
        | inl n ↦
            let (keeps', same) = same_entries s (delmiss s) es keeps refl refl refl in
            let nothing = nothing_at keeps n answers in
            (
              put_shard c hash (delmiss s),
              some (entry_not_found key),
              rw (get_shard_lem c hash s at, item_index, n, keeps.unlocked) refl,
              inr nothing,
              replace-Represents c t (change t hash none) hash s (delmiss s) es represents at keeps'
                  (λ asked.
                    rw (change_self t hash none)
                      (same asked hash ∙ answers asked ∙ rw nothing refl))
                  (λ asked other. inr (same asked other)) (change_other t hash none),
            )
        | inr (i, f) ↦
            let (d, m, (stamp, k, v, st, hf, kf, p)) = keeps.indexed hash i (λ x. x) f in
            let m' : In (i, layout stamp hash k v) es = rw⁻¹ p m in
            let (calls, called) =
              returns s at (layout stamp hash k v) (stamp, k, v, st, hf, kf, refl) in
            let (s', e, keeps', _, gone, same) =
              del_get s es keeps hash i f stamp k v st hf kf m' calls called key now in
            (
              put_shard c hash s',
              none,
              rw (get_shard_lem c hash s at, e) refl,
              inl refl,
              replace-Represents c t (change t hash none) hash s s' _ represents at keeps'
                  (λ asked. rw (gone asked, change_self t hash none) refl) same
                  (change_other t hash none),
            )
      ]

pub shard_at :
    {lib : Library} (c : BigCache lib) (hash : ℕ) (s : Shard lib)
    → get_shard c hash ≡ ok s
    → IsShardOf c hash s
unfolding get_shard shard_index
shard_at c hash s e = elim (Option-cases (get_elem? c.shards (bit_and hash c.shard_mask))) [
  | inl n ↦ absurd (let f : get_shard c hash ≡ panic = rw (get_shard, n) refl in cc)
  | inr (s', f) ↦
      (let g : get_shard c hash ≡ ok s' = rw (get_shard, f) refl in
        let q : s ≡ s' = cc in f ∙ ap some (sym q))
]

-- A well-formed shard without entries has no hash in its map.
empty_map :
    {lib : Library} (s : Shard lib) → Caches s [] → (hash : ℕ) → assoc.get s.hashmap hash ≡ none
empty_map s keeps hash = elim (Option-cases (assoc.get s.hashmap hash)) [
  | inl n ↦ n
  | inr (i, f) ↦ absurd ((keeps.indexed hash i (λ x. x) f).1)
]

-- For a number of shards that is a power of two, at least 1 and at most 2^64, and entries of at least
-- one byte, a new cache represents the empty table.
pub new_big_cache-Represents :
    (lib : Library) (c : Config) (on_remove : Bool) (life_window : ℕ)
    → 1 ≤ c.shards
    → 1 ≤ c.max_entry_size
    → is_power_of_two c.shards ≡ true
    → c.shards ≤ 2 ^ 64
    → (cache : BigCache lib) × (new_big_cache lib c on_remove life_window ≡ ok (some cache))
      × Represents cache (λ hash. none)
new_big_cache-Represents lib c on_remove life_window some_shard some_size power fits =
    let (cache, e, all) =
      new_big_cache_lem lib c some_shard some_size on_remove life_window power fits in
    (
      cache,
      e,
      λ hash.
          let (s, f, keeps) = all hash in
          (
            s,
            shard_at cache hash s f,
            ([], keeps),
            λ asked. rw (get_miss s keeps.unlocked asked hash (empty_map s keeps hash)) refl,
          ),
    )
