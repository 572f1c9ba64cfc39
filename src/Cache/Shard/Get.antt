-- ===== src/Cache/Shard/Get.antt =====
-- What `get` returns for a hash that the map has.
use ngbigcache.Base.{
  ℕ, ◌≤◌, ◌<◌, ◌^◌, ◌≡◌, refl, some, none, In, arith, length, Bytes, false, ok, value, error,
  if◌then◌else◌, eq_bytes, ne→==_false, ◌==◌,
}
use ngbigcache.Base.Assoc as assoc
use ngbigcache.Queue.BytesQueue as queue
use ngbigcache.Queue.BytesQueue.Layout.{Entries}
use ngbigcache.Queue.BytesQueue.Read.{get-held}
use ngbigcache.Cache.Encoding.RoundTrip.{
  layout, length-layout, read_key-wrapped, read_entry-wrapped,
}
use ngbigcache.Cache.Library.{Library}
use ngbigcache.Cache.Shard.{
  Shard, entry_not_found, get, get_wrapped, item_index, hit, miss, collision,
}
use ngbigcache.Cache.Shard.Keeps.{Keeps}

module _ {lib : Library} (s : Shard lib) (es : Entries) (Open : ℕ → Type 0)
    (keeps : Keeps s es Open) (hash i : ℕ) (indexed : assoc.get s.hashmap hash ≡ some i)
    (timestamp : ℕ) (key entry : Bytes) (stamp_fits : timestamp < 2 ^ 64)
    (hash_fits : hash < 2 ^ 64) (key_fits : length key ≤ 65517)
    (held : In (i, layout timestamp hash key entry) es) where
  pub item_index_eq : item_index s.hashmap hash ≡ i
  item_index_eq = rw (indexed, item_index) refl

  pub index_test : (i == 0) ≡ false
  index_test = ne→==_false i 0 (λ e. omega (arith, e, (keeps.lays.holds i _ held).above))

  pub queue_get : queue.get s.entries i ≡ ok (value (layout timestamp hash key entry))
  queue_get =
      get-held s.entries es i (layout timestamp hash key entry) keeps.lays held
        (omega (arith, length-layout timestamp hash key entry))

  -- If the map of a well-formed shard has the hash, at the index of the wrapped entry of a key of at
  -- most 65517 bytes, then `get` of a key returns the value if the key is the one of the entry, and
  -- else counts a collision and reports that the key was not found.
  pub get_lem :
      (asked : Bytes)
      → get s asked hash
        ≡ ok (
            if eq_bytes asked key
            then (hit s, value entry)
            else (collision s, error (entry_not_found asked)))
  unfolding get get_wrapped
  get_lem asked =
      rw
        (
          item_index_eq,
          index_test,
          queue_get,
          read_key-wrapped timestamp hash key entry stamp_fits hash_fits key_fits,
          read_entry-wrapped timestamp hash key entry stamp_fits hash_fits key_fits,
          keeps.unlocked,
        )
        (ground arith)

module _ {lib : Library} (s : Shard lib) (unlocked : s.locked ≡ false) where
  pub get_miss :
      (asked : Bytes) (hash : ℕ)
      → assoc.get s.hashmap hash ≡ none
      → get s asked hash ≡ ok (miss s, error (entry_not_found asked))
  unfolding get
  get_miss asked hash e = rw (e, item_index, unlocked) refl
