-- ===== src/Cache/Shard.antt =====
-- bigcache/shard.go: one shard: the index of the hashes of its keys, the queue that holds the
-- entries, the lock, the statistics and the table of expiry times.
--
-- `locked` says that a call returned with the write lock held; a call that takes the lock then is
-- `blocked`. A call that finds the lock free runs to its end, and every return of every method but
-- one gives the lock back before it, so that only that one, where `Push` fails, sets the flag. An entry that `Get` of the queue returned is a slice of the array, so a write
-- to it is a write to the array. The callback is a function from an entry to the calls that it makes
-- of the function of the configuration, and `removed` is the list of these calls. `epoch` is what
-- the clock of the shard reads, `now` the second at which the timer is set. Counters are not
-- taken modulo 2^64. The log line of a collision is left out.
pub mod Evict
pub mod Locked
pub mod Keeps
pub mod Get
pub mod Drop
pub mod Store
pub mod Set
pub mod Del
use ngbigcache.Base.{
  ℕ, ◌+◌, ◌*◌, ◌-◌, ◌%◌, ◌^◌, Bool, true, false, Option, none, some, List, [], ◌∷◌, ◌++◌, ◌==◌,
  if◌then◌else◌, length, replicate, Bytes, copy_at, eq_bytes, Run, ok, blocked, ◌>>=◌, Result,
  value, error, ltb,
}
use ngbigcache.Base.Assoc as assoc
use ngbigcache.Base.Int.{ℤ, is_zero_ℤ}
use ngbigcache.Queue.BytesQueue.{BytesQueue, QueueError, new_bytes_queue, header_entry_size}
use ngbigcache.Queue.BytesQueue as queue
use ngbigcache.Cache.Config.{Config, Stats, zero_stats, initial_shard_size, maximum_shard_size}
use ngbigcache.Cache.Encoding.{
  wrap_entry, read_timestamp_from_entry, read_hash_from_entry, read_key_from_entry, read_entry,
  reset_key_from_entry, headers_size_in_bytes,
}
use ngbigcache.Cache.Library.{Library}
use ngbigcache.Cache.Ttl.{TtlManager, new_ttl_manager}
use ngbigcache.Cache.Ttl as ttl

-- `EntryNotFoundError`, and the errors of the queue.
pub data CacheError : Type 0 where
  entry_not_found : Bytes → CacheError
  queue_error : QueueError → CacheError

-- The calls of the callback: a key and a value each.
abbrev pub Removals : Type 0
Removals = List (Bytes × Bytes)

-- `cacheShard`
pub record Shard (lib : Library) : Type 0 where
  pub shared_num : ℕ
  pub hashmap : List (ℕ × ℕ)
  pub entries : BytesQueue lib.index_trees
  pub locked : Bool
  pub entry_buffer : Bytes
  pub on_remove : Bytes → Run Removals
  pub removed : Removals
  pub is_verbose : Bool
  pub life_window : ℕ
  pub stats : Stats
  pub ttl_table : TtlManager lib

-- `s.hashmap[hashedKey]`
abbrev pub item_index : List (ℕ × ℕ) → ℕ → ℕ
item_index hashmap hash = elim (assoc.get hashmap hash) [ none ↦ 0 | some index ↦ index ]

abbrev pub indices : List (ℕ × ℕ) → List ℕ
indices [] = []
indices ((hash, index) ∷ t) = index ∷ indices t

-- `expiryTimestamp` in `set`
unfoldable pub expiry_timestamp : Library → ℤ → ℕ → ℕ
expiry_timestamp lib duration epoch =
    if is_zero_ℤ duration then 0 else (epoch + lib.seconds duration) % 2 ^ 64

module _ {lib : Library} where
  unfoldable pub hit : Shard lib → Shard lib
  hit s = record s { stats = record s.stats { hits = s.stats.hits + 1 } }

  unfoldable pub miss : Shard lib → Shard lib
  miss s = record s { stats = record s.stats { misses = s.stats.misses + 1 } }

  unfoldable pub delhit : Shard lib → Shard lib
  delhit s = record s { stats = record s.stats { del_hits = s.stats.del_hits + 1 } }

  unfoldable pub delmiss : Shard lib → Shard lib
  delmiss s = record s { stats = record s.stats { del_misses = s.stats.del_misses + 1 } }

  unfoldable pub collision : Shard lib → Shard lib
  collision s = record s { stats = record s.stats { collisions = s.stats.collisions + 1 } }

  -- The read of `get` where the queue gave an entry.
  unfoldable pub get_wrapped : Shard lib → Bytes → Bytes → Run (Shard lib × Result CacheError Bytes)
  unfolding hit collision
  get_wrapped s key wrapped =
      let found : Run (Shard lib × Result CacheError Bytes) =
        (read_entry wrapped >>= λ entry. ok (hit s, value entry)) in
      do
        entry_key ← read_key_from_entry wrapped
        if eq_bytes key entry_key then found else ok (collision s, error (entry_not_found key))

  -- `get`
  unfoldable pub get : Shard lib → Bytes → ℕ → Run (Shard lib × Result CacheError Bytes)
  unfolding get_wrapped miss
  get s key hash =
      if s.locked
      then blocked
      else if item_index s.hashmap hash == 0
      then ok (miss s, error (entry_not_found key))
      else do
        r ← queue.get s.entries (item_index s.hashmap hash)
        elim r [
          | error e ↦ ok (miss s, error (queue_error e))
          | value wrapped ↦ get_wrapped s key wrapped
        ]

  -- `resetKeyFromEntry` on the slice at an index of the queue
  unfoldable pub reset_key : Shard lib → ℕ → Bytes → Run (Shard lib)
  reset_key s index wrapped = do
    cleared ← reset_key_from_entry wrapped
    ok (record s {
      entries = record s.entries {
        array = copy_at s.entries.array (index + header_entry_size) cleared;
      };
    })

  -- `delete`
  unfoldable pub delete : Shard lib → ℕ → Run (Shard lib)
  delete s index = do r ← queue.delete s.entries index; ok (record s { entries = r.0 })

  -- What `set` does with the entry that has the same hash.
  unfoldable pub drop_previous : Shard lib → Bytes → ℕ → ℕ → Run (Shard lib)
  unfolding reset_key delete
  drop_previous s key previous now = if previous == 0 then ok s else do
    r ← queue.get s.entries previous
    elim r [
      | error e ↦ ok s
      | value wrapped ↦ do
        timestamp ← read_timestamp_from_entry wrapped
        cleared ←
            reset_key (record s { ttl_table = ttl.remove s.ttl_table timestamp key now }) previous
              wrapped
        delete cleared previous
    ]

  -- The end of `set`, from the call of `Push`. Where that fails, the lock stays held, and the
  -- error is that of the outer variable, which is nil.
  unfoldable pub push_wrapped :
      Shard lib → Bytes → ℕ → Bytes → Bool → ℕ → ℕ → Run (Shard lib × ℕ × Option CacheError)
  push_wrapped s key hash wrapped expires timestamp now = do
    r ← queue.push s.entries wrapped
    let pushed : Shard lib = record s { entries = r.0 }
    elim r.1 [
      | error e ↦ ok (record pushed { locked = true }, 0, none)
      | value index ↦
          let indexed : Shard lib = record pushed {
            hashmap = assoc.put s.hashmap hash (index % 2 ^ 32);
          } in
          ok (
            if expires
                then record indexed { ttl_table = ttl.put indexed.ttl_table timestamp key now }
                else indexed,
            timestamp,
            none,
          )
    ]

  -- `set`: the timestamp and the error it returns
  unfoldable pub set :
      Shard lib → Bytes → ℕ → Bytes → ℤ → ℕ → ℕ → Run (Shard lib × ℕ × Option CacheError)
  unfolding drop_previous push_wrapped expiry_timestamp
  set s key hash entry duration epoch now = if s.locked then blocked else do
    let timestamp = expiry_timestamp lib duration epoch
    dropped ← drop_previous s key (item_index s.hashmap hash) now
    w ← wrap_entry timestamp hash key entry dropped.entry_buffer
    push_wrapped (record dropped { entry_buffer = w.1 }) key hash w.0
        (if is_zero_ℤ duration then false else true) timestamp now

  -- The part that `del` and `evictDel` share: the hash leaves the index, the callback is called,
  -- and the entry leaves the queue.
  unfoldable pub take_out : Shard lib → ℕ → ℕ → Bytes → Run (Shard lib)
  unfolding reset_key delete
  take_out s hash index wrapped = do
    calls ← s.on_remove wrapped
    cleared ←
        reset_key (record s { hashmap = assoc.remove s.hashmap hash; removed = s.removed ++ calls })
          index wrapped
    delete cleared index

  -- `del`: the error it returns. The timestamp is read after the hash of the entry was cleared,
  -- which does not change it.
  unfoldable pub del : Shard lib → Bytes → ℕ → ℕ → Run (Shard lib × Option CacheError)
  unfolding take_out delhit delmiss
  del s key hash now =
      let index = item_index s.hashmap hash in
      if s.locked
      then blocked
      else if index == 0
      then ok (delmiss s, some (entry_not_found key))
      else do
        r ← queue.get s.entries index
        elim r [
          | error e ↦ ok (delmiss s, some (queue_error e))
          | value wrapped ↦ do
            gone ← take_out s hash index wrapped
            timestamp ← read_timestamp_from_entry wrapped
            ok (
              delhit (record gone { ttl_table = ttl.remove gone.ttl_table timestamp key now }),
              none,
            )
        ]

  -- `getOldestEntry` and `getEntry`
  unfoldable pub get_oldest_entry : Shard lib → Run (Result QueueError Bytes)
  get_oldest_entry s = queue.peek s.entries

  unfoldable pub get_entry : Shard lib → ℕ → Run (Result QueueError Bytes)
  get_entry s index = queue.get s.entries index

  -- `copyKeys`
  unfoldable pub copy_keys : Shard lib → Run (List ℕ × ℕ)
  copy_keys s = if s.locked then blocked else ok (indices s.hashmap, length s.hashmap)

  -- `removeOldestEntry`
  unfoldable pub remove_oldest_entry : Shard lib → Run (Shard lib × Option QueueError)
  remove_oldest_entry s = do
    r ← queue.pop s.entries
    let popped : Shard lib = record s { entries = r.0 }
    elim r.1 [
      | error e ↦ ok (popped, some e)
      | value oldest ↦ do
        hash ← read_hash_from_entry oldest
        calls ← s.on_remove oldest
        ok (
          record popped { hashmap = assoc.remove s.hashmap hash; removed = s.removed ++ calls },
          none,
        )
    ]

  -- `reset`
  unfoldable pub reset : Shard lib → Config → Run (Shard lib)
  reset s c = if s.locked then blocked else do
    size ← initial_shard_size c
    ok (record s {
      hashmap = [];
      entry_buffer = replicate (c.max_entry_size + headers_size_in_bytes) 0;
      entries = queue.reset s.entries;
      ttl_table = ttl.reset s.ttl_table;
    })

  -- `len`
  unfoldable pub len : Shard lib → Run ℕ
  len s = if s.locked then blocked else ok (length s.hashmap)

  -- `getStats`
  unfoldable pub get_stats : Shard lib → Stats
  get_stats s = s.stats

-- `initNewShard`, with the life window in seconds as the call computes it
unfoldable pub init_new_shard :
    (lib : Library) → Config → (Bytes → Run Removals) → ℕ → ℕ → Run (Shard lib)
init_new_shard lib c callback life_window num = do
  initial ← initial_shard_size c
  maximum ← maximum_shard_size c
  ok (record {
    shared_num = num;
    hashmap = [];
    entries = new_bytes_queue lib.index_trees (initial * c.max_entry_size) maximum c.verbose;
    locked = false;
    entry_buffer = replicate (c.max_entry_size + headers_size_in_bytes) 0;
    on_remove = callback;
    removed = [];
    is_verbose = c.verbose;
    life_window = life_window;
    stats = zero_stats;
    ttl_table = new_ttl_manager lib;
  })
