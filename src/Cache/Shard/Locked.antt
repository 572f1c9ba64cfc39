-- ===== src/Cache/Shard/Locked.antt =====
-- What a failed `Push` leaves behind in `set`.
use ngbigcache.Base.{ℕ, ◌≡◌, refl, true, false, none, Bytes, ok, blocked, error}
use ngbigcache.Base.Int.{ℤ}
use ngbigcache.Queue.BytesQueue.{BytesQueue, QueueError}
use ngbigcache.Queue.BytesQueue as queue
use ngbigcache.Cache.Config.{Config}
use ngbigcache.Cache.Encoding.{wrap_entry}
use ngbigcache.Cache.Library.{Library}
use ngbigcache.Cache.Shard.{
  Shard, item_index, get, set, del, reset, len, copy_keys, drop_previous, push_wrapped,
  expiry_timestamp,
}
use ngbigcache.Cache.Shard.Evict.{evict_del}

module _ {lib : Library} where
  -- Every call that takes the lock waits for ever.
  abbrev pub Blocks : Shard lib → Type 0
  Blocks s =
      ((key : Bytes) (hash : ℕ) → get s key hash ≡ blocked)
      × ((key : Bytes) (hash : ℕ) (entry : Bytes) (duration : ℤ) (epoch now : ℕ)
          → set s key hash entry duration epoch now ≡ blocked)
      × ((key : Bytes) (hash now : ℕ) → del s key hash now ≡ blocked)
      × ((timestamp : ℕ) (keys : lib.sets.Set) → evict_del s timestamp keys ≡ blocked)
      × (copy_keys s ≡ blocked)
      × (len s ≡ blocked)
      × ((c : Config) → reset s c ≡ blocked)

  pub locked-Blocks : (s : Shard lib) → s.locked ≡ true → Blocks s
  unfolding get set del evict_del copy_keys len reset
  locked-Blocks s e = (
    λ key hash. rw e refl,
    λ key hash entry duration epoch now. rw e refl,
    λ key hash now. rw e refl,
    λ timestamp keys. rw e refl,
    rw e refl,
    rw e refl,
    λ c. rw e refl,
  )

  -- If `Push` refuses the new entry of a `set`, that returns the timestamp 0 and no error, and
  -- afterwards every call that takes the lock of the shard waits for ever.
  pub set_refused-Blocks :
      (s dropped : Shard lib) (key : Bytes) (hash : ℕ) (entry : Bytes) (duration : ℤ)
      (epoch now : ℕ) (wrapped buffer : Bytes) (q : BytesQueue lib.index_trees) (e : QueueError)
      → s.locked ≡ false
      → drop_previous s key (item_index s.hashmap hash) now ≡ ok dropped
      → wrap_entry (expiry_timestamp lib duration epoch) hash key entry dropped.entry_buffer
        ≡ ok (wrapped, buffer)
      → queue.push dropped.entries wrapped ≡ ok (q, error e)
      → (s' : Shard lib) × (set s key hash entry duration epoch now ≡ ok (s', 0, none)) × Blocks s'
  unfolding set push_wrapped
  set_refused-Blocks s dropped key hash entry duration epoch now wrapped buffer q e free drop wrap
        push =
      (
        record dropped { entry_buffer = buffer; entries = q; locked = true },
        rw (drop, wrap, push, free) refl,
        locked-Blocks _ refl,
      )
