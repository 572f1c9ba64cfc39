-- ===== src/Cache/Iterator.antt =====
-- bigcache/iterator.go: an iterator over the entries of all shards.
--
-- The position before the first element is -1 in the source, so `position` is `currentIndex + 1`.
-- The keys of a shard are copied when the iterator comes to it, in the order of the map. The cache is
-- an argument of each method, which sees it as it is then. The mutex of the iterator is left out.
pub mod Reference
pub mod Next
pub mod Walk
pub mod Entry
use ngbigcache.Base.{
  ℕ, zero, suc, ◌+◌, ◌-◌, Bool, true, false, none, some, List, ltb, if◌then◌else◌, Bytes, Run, ok,
  panic, ◌>>=◌, Result, value, error, get_elem?,
}
use ngbigcache.Cache.Encoding.{
  read_timestamp_from_entry, read_hash_from_entry, read_key_from_entry, read_entry,
}
use ngbigcache.Cache.Library.{Library}
use ngbigcache.Cache.Shard.{Shard, copy_keys, get_entry}
use ngbigcache.Cache.BigCache.{BigCache}

-- `ErrInvalidIteratorState` and `ErrCannotRetrieveEntry`
pub data IteratorError : Type 0 where
  invalid_iterator_state cannot_retrieve_entry : IteratorError

-- `EntryInfo`
pub record EntryInfo : Type 0 where
  pub timestamp : ℕ
  pub hash : ℕ
  pub key : Bytes
  pub entry : Bytes

-- `EntryInfoIterator`
pub record EntryInfoIterator : Type 0 where
  pub current_shard : ℕ
  pub position : ℕ
  pub elements : List ℕ
  pub elements_count : ℕ
  pub valid : Bool

abbrev pub nth : {A : Type 0} → List A → ℕ → Run A
nth xs n = elim (get_elem? xs n) [ none ↦ panic | some x ↦ ok x ]

-- The end of `Value`.
unfoldable pub entry_info : Bytes → Run EntryInfo
entry_info wrapped = do
  timestamp ← read_timestamp_from_entry wrapped
  hash ← read_hash_from_entry wrapped
  key ← read_key_from_entry wrapped
  entry ← read_entry wrapped
  ok (record { timestamp = timestamp; hash = hash; key = key; entry = entry })

module _ {lib : Library} where
  -- `newIterator`
  unfoldable pub new_iterator : BigCache lib → Run EntryInfoIterator
  new_iterator c = do
    s ← nth c.shards 0
    keys ← copy_keys s
    ok (record {
      current_shard = 0;
      position = 0;
      elements = keys.0;
      elements_count = keys.1;
      valid = false;
    })

  -- The loop of `SetNext` over `n` shards from number `i` on.
  unfoldable pub next_shard :
      BigCache lib → EntryInfoIterator → ℕ → ℕ → Run (EntryInfoIterator × Bool)
  next_shard c it zero i = ok (it, false)
  next_shard c it (suc n) i = do
    s ← nth c.shards i
    keys ← copy_keys s
    let copied : EntryInfoIterator = record it { elements = keys.0; elements_count = keys.1 }
    let rest = next_shard c copied n (i + 1)
    if ltb 0 keys.1
        then ok (record copied { position = 1; current_shard = i; valid = true }, true)
        else rest

  -- `SetNext`
  unfoldable pub set_next : BigCache lib → EntryInfoIterator → Run (EntryInfoIterator × Bool)
  unfolding next_shard
  set_next c it =
      let moved : EntryInfoIterator = record it { valid = false; position = it.position + 1 } in
      if ltb it.position it.elements_count
      then ok (record moved { valid = true }, true)
      else next_shard c moved (c.config.shards - (it.current_shard + 1)) (it.current_shard + 1)

  -- The entry of a shard at an index, as `Value` returns it.
  unfoldable pub value_at : Shard lib → ℕ → Run (Result IteratorError EntryInfo)
  unfolding entry_info
  value_at s index = do
    r ← get_entry s index
    elim r [
      | error e ↦ ok (error cannot_retrieve_entry)
      | value wrapped ↦ do info ← entry_info wrapped; ok (value info)
    ]

  -- `Value`, with an empty entry in the error case
  unfoldable pub current_value :
      BigCache lib → EntryInfoIterator → Run (Result IteratorError EntryInfo)
  unfolding value_at
  current_value c it =
      if it.valid
      then (do
        s ← nth c.shards it.current_shard
        index ← nth it.elements (it.position - 1)
        value_at s index)
      else ok (error invalid_iterator_state)
