-- ===== src/Cache/BigCache/Timeless.antt =====
-- Calls of bigcache/bigcache.go on entries without a time of expiry: the expiry tables stay empty, so
-- that their goroutines have nothing to evict.
use ngbigcache.Base.{
  ℕ, ◌≡◌, refl, sym, subst, ◌∙◌, true, false, none, some, Option, inl, inr, Bytes, ok, ◌>>=◌,
  eq_bytes, get_elem?, set, get_elem?-set_held, get_elem?-set_ne, ==-cases, ◌==◌, Result,
  if◌then◌else◌,
}
use ngbigcache.Base.Int.{ℤ, is_zero_ℤ}
use ngbigcache.Base.Returns.{Holds, Holds-bind, Holds-if, Holds-ok, Holds-result}
use ngbigcache.Queue.BytesQueue as queue
use ngbigcache.Cache.Library.{Library}
use ngbigcache.Cache.Encoding.{
  read_timestamp_from_entry, reset_key_from_entry, wrap_entry, read_key_from_entry, read_entry,
}
use ngbigcache.Cache.Ttl as ttl
use ngbigcache.Cache.Ttl.{TtlManager}
use ngbigcache.Cache.Shard as shard
use ngbigcache.Cache.Shard.{
  Shard, CacheError, item_index, reset_key, delete, drop_previous, push_wrapped, take_out,
  expiry_timestamp, get_wrapped, delhit, delmiss, hit, miss, collision,
}
use ngbigcache.Cache.BigCache.{
  BigCache, set_entry, get, delete as delete_entry, get_shard, put_shard, shard_index,
}
use ngbigcache.Cache.BigCache.Abstract.{IsShardOf}
use ngbigcache.Cache.BigCache.Refines.{shard_at}
use Prim.Native.Nat.{bit_and}
use mathlib.Core.Option.{some-injective}

module _ {lib : Library} where
  -- The expiry table of a shard has no timestamp.
  abbrev pub Timeless : Shard lib → Type 0
  Timeless s = (k : ℕ) → lib.time_trees.get s.ttl_table.time_tree k ≡ none

  -- The same for the results of `set`, of `get` and of `del`.
  abbrev AfterSet : Shard lib × ℕ × Option CacheError → Type 0
  AfterSet r = Timeless r.0

  abbrev AfterGet : Shard lib × Result CacheError Bytes → Type 0
  AfterGet r = Timeless r.0

  abbrev AfterDel : Shard lib × Option CacheError → Type 0
  AfterDel r = Timeless r.0

  remove-Timeless :
      (s : Shard lib) (timestamp : ℕ) (key : Bytes) (now : ℕ)
      → Timeless s
      → ttl.remove s.ttl_table timestamp key now ≡ s.ttl_table
  unfolding ttl.remove
  remove-Timeless s timestamp key now h = rw (ttl.remove, h timestamp) refl

  removed-Timeless :
      (s : Shard lib) (timestamp : ℕ) (key : Bytes) (now : ℕ)
      → Timeless s
      → Timeless (record s { ttl_table = ttl.remove s.ttl_table timestamp key now })
  removed-Timeless s timestamp key now h k = rw (remove-Timeless s timestamp key now h) (h k)

  reset_key-Timeless :
      (s : Shard lib) (index : ℕ) (wrapped : Bytes)
      → Timeless s
      → Holds Timeless (reset_key s index wrapped)
  unfolding reset_key
  reset_key-Timeless s index wrapped h =
      Holds-bind Timeless (reset_key_from_entry wrapped) _ (λ c e. h)

  delete-Timeless : (s : Shard lib) (index : ℕ) → Timeless s → Holds Timeless (delete s index)
  unfolding delete
  delete-Timeless s index h = Holds-bind Timeless (queue.delete s.entries index) _ (λ r e. h)

  cleared-Timeless :
      (s : Shard lib) (index : ℕ) (wrapped : Bytes)
      → Timeless s
      → Holds Timeless (do cleared ← reset_key s index wrapped; delete cleared index)
  cleared-Timeless s index wrapped h = Holds-bind Timeless (reset_key s index wrapped) _ (λ c e.
      delete-Timeless c index (Holds-ok Timeless _ c (reset_key-Timeless s index wrapped h) e))

  drop_previous-Timeless :
      (s : Shard lib) (key : Bytes) (previous now : ℕ)
      → Timeless s
      → Holds Timeless (drop_previous s key previous now)
  unfolding drop_previous
  drop_previous-Timeless s key previous now h =
      Holds-if Timeless (previous == 0) _ _ (λ _. h)
        (λ _. Holds-bind Timeless (queue.get s.entries previous) _ (λ r _.
          Holds-result Timeless r _ _ (λ e. h)
            (λ wrapped. Holds-bind Timeless (read_timestamp_from_entry wrapped) _ (λ timestamp _.
              cleared-Timeless (record s { ttl_table = ttl.remove s.ttl_table timestamp key now })
                previous wrapped (removed-Timeless s timestamp key now h)))))

  push_wrapped-Timeless :
      (s : Shard lib) (key : Bytes) (hash : ℕ) (wrapped : Bytes) (timestamp now : ℕ)
      → Timeless s
      → Holds AfterSet (push_wrapped s key hash wrapped false timestamp now)
  unfolding push_wrapped
  push_wrapped-Timeless s key hash wrapped timestamp now h =
      Holds-bind AfterSet (queue.push s.entries wrapped) _
        (λ r _. Holds-result AfterSet r.1 _ _ (λ e. h) (λ index. h))

  set-Timeless :
      (s : Shard lib) (key : Bytes) (hash : ℕ) (entry : Bytes) (duration : ℤ) (epoch now : ℕ)
      → is_zero_ℤ duration ≡ true
      → Timeless s
      → Holds AfterSet (shard.set s key hash entry duration epoch now)
  unfolding shard.set
  set-Timeless s key hash entry duration epoch now zero h =
      Holds-if AfterSet s.locked _ _ (λ _. tt)
        (λ _.
          Holds-bind AfterSet (drop_previous s key (item_index s.hashmap hash) now) _ (λ dropped e.
            Holds-bind AfterSet (wrap_entry _ hash key entry dropped.entry_buffer) _ (λ w _.
              subst
                (λ b. Holds AfterSet (
                  push_wrapped (record dropped { entry_buffer = w.1 }) key hash w.0
                    (if b then false else true) (expiry_timestamp lib duration epoch) now))
                (sym zero)
                (push_wrapped-Timeless (record dropped { entry_buffer = w.1 }) key hash w.0 _ now
                  (Holds-ok Timeless _ dropped
                    (drop_previous-Timeless s key (item_index s.hashmap hash) now h) e)))))

  take_out-Timeless :
      (s : Shard lib) (hash index : ℕ) (wrapped : Bytes)
      → Timeless s
      → Holds Timeless (take_out s hash index wrapped)
  unfolding take_out
  take_out-Timeless s hash index wrapped h =
      Holds-bind Timeless (s.on_remove wrapped) _ (λ calls _. cleared-Timeless _ index wrapped h)

  del-Timeless :
      (s : Shard lib) (key : Bytes) (hash now : ℕ)
      → Timeless s
      → Holds AfterDel (shard.del s key hash now)
  unfolding shard.del delhit delmiss
  del-Timeless s key hash now h =
      Holds-if AfterDel s.locked _ _ (λ _. tt)
        (λ _.
          Holds-if AfterDel (item_index s.hashmap hash == 0) _ _ (λ _. h)
            (λ _. Holds-bind AfterDel (queue.get s.entries (item_index s.hashmap hash)) _ (λ r _.
              Holds-result AfterDel r _ _ (λ e. h)
                (λ wrapped.
                  Holds-bind AfterDel (take_out s hash (item_index s.hashmap hash) wrapped) _
                    (λ gone e.
                      Holds-bind AfterDel (read_timestamp_from_entry wrapped) _ (λ timestamp _.
                        removed-Timeless gone timestamp key now (
                          Holds-ok Timeless _ gone
                            (take_out-Timeless s hash (item_index s.hashmap hash) wrapped h)
                            e)))))))

  get-Timeless :
      (s : Shard lib) (key : Bytes) (hash : ℕ) → Timeless s → Holds AfterGet (shard.get s key hash)
  unfolding shard.get get_wrapped hit miss collision
  get-Timeless s key hash h =
      Holds-if AfterGet s.locked _ _ (λ _. tt)
        (λ _.
          Holds-if AfterGet (item_index s.hashmap hash == 0) _ _ (λ _. h)
            (λ _. Holds-bind AfterGet (queue.get s.entries (item_index s.hashmap hash)) _ (λ r _.
              Holds-result AfterGet r _ _ (λ e. h)
                (λ wrapped. Holds-bind AfterGet (read_key_from_entry wrapped) _ (λ k _.
                  Holds-if AfterGet (eq_bytes key k) _ _
                    (λ _. Holds-bind AfterGet (read_entry wrapped) _ (λ entry _. h)) (λ _. h))))))

  -- No shard of a cache has a timestamp in its expiry table.
  abbrev pub AllTimeless : BigCache lib → Type 0
  AllTimeless c = (i : ℕ) (s : Shard lib) → get_elem? c.shards i ≡ some s → Timeless s

  put_shard-AllTimeless :
      (c : BigCache lib) (hash : ℕ) (old s : Shard lib)
      → AllTimeless c
      → IsShardOf c hash old
      → Timeless s
      → AllTimeless (put_shard c hash s)
  unfolding shard_index
  put_shard-AllTimeless c hash old s all held h i x at =
      elim (==-cases (bit_and hash c.shard_mask) i) [
        | inl (_, e) ↦
            let there : get_elem? (set c.shards (bit_and hash c.shard_mask) s) i ≡ some s =
              subst (λ j. get_elem? (set c.shards (bit_and hash c.shard_mask) s) j ≡ some s) e
                (get_elem?-set_held c.shards (bit_and hash c.shard_mask) old s held) in
            subst Timeless (some-injective s x (sym there ∙ at)) h
        | inr (_, n) ↦
            all i x (sym (get_elem?-set_ne c.shards (bit_and hash c.shard_mask) i s n) ∙ at)
      ]

  abbrev AllAfterSet : BigCache lib × ℕ × Option CacheError → Type 0
  AllAfterSet r = AllTimeless r.0

  abbrev AllAfterGet : BigCache lib × Result CacheError Bytes → Type 0
  AllAfterGet r = AllTimeless r.0

  abbrev AllAfterDel : BigCache lib × Option CacheError → Type 0
  AllAfterDel r = AllTimeless r.0

  set_entry-AllTimeless :
      (c : BigCache lib) (key entry : Bytes) (duration : ℤ) (epoch now : ℕ)
      → is_zero_ℤ duration ≡ true
      → AllTimeless c
      → Holds AllAfterSet (set_entry c key entry duration epoch now)
  unfolding set_entry
  set_entry-AllTimeless c key entry duration epoch now zero all =
      let hash = lib.sum64 key in
      Holds-bind AllAfterSet (get_shard c hash) _ (λ s e.
        let held = shard_at c hash s e in
        Holds-bind AllAfterSet (shard.set s key hash entry duration epoch now) _ (λ r f.
          put_shard-AllTimeless c hash s r.0 all held (
            Holds-ok AfterSet _ r
              (set-Timeless s key hash entry duration epoch now zero (all _ s held)) f)))

  get-AllTimeless : (c : BigCache lib) (key : Bytes) → AllTimeless c → Holds AllAfterGet (get c key)
  unfolding get
  get-AllTimeless c key all =
      let hash = lib.sum64 key in
      Holds-bind AllAfterGet (get_shard c hash) _ (λ s e.
        let held = shard_at c hash s e in
        Holds-bind AllAfterGet (shard.get s key hash) _ (λ r f.
          put_shard-AllTimeless c hash s r.0 all held
            (Holds-ok AfterGet _ r (get-Timeless s key hash (all _ s held)) f)))

  delete-AllTimeless :
      (c : BigCache lib) (key : Bytes) (now : ℕ)
      → AllTimeless c
      → Holds AllAfterDel (delete_entry c key now)
  unfolding delete_entry
  delete-AllTimeless c key now all =
      let hash = lib.sum64 key in
      Holds-bind AllAfterDel (get_shard c hash) _ (λ s e.
        let held = shard_at c hash s e in
        Holds-bind AllAfterDel (shard.del s key hash now) _ (λ r f.
          put_shard-AllTimeless c hash s r.0 all held
            (Holds-ok AfterDel _ r (del-Timeless s key hash now (all _ s held)) f)))

  pub kept_set :
      (c c' : BigCache lib) (key entry : Bytes) (duration : ℤ) (epoch now timestamp : ℕ)
      (e : Option CacheError)
      → is_zero_ℤ duration ≡ true
      → AllTimeless c
      → set_entry c key entry duration epoch now ≡ ok (c', timestamp, e)
      → AllTimeless c'
  kept_set c c' key entry duration epoch now timestamp e zero all f =
      Holds-ok AllAfterSet _ (c', timestamp, e)
        (set_entry-AllTimeless c key entry duration epoch now zero all) f

  pub kept_get :
      (c c' : BigCache lib) (key : Bytes) (r : Result CacheError Bytes)
      → AllTimeless c
      → get c key ≡ ok (c', r)
      → AllTimeless c'
  kept_get c c' key r all f = Holds-ok AllAfterGet _ (c', r) (get-AllTimeless c key all) f

  pub kept_delete :
      (c c' : BigCache lib) (key : Bytes) (now : ℕ) (e : Option CacheError)
      → AllTimeless c
      → delete_entry c key now ≡ ok (c', e)
      → AllTimeless c'
  kept_delete c c' key now e all f =
      Holds-ok AllAfterDel _ (c', e) (delete-AllTimeless c key now all) f
