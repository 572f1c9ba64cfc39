-- ===== src/Cluster/Client/Replica.antt =====
-- `Put` of cluster/clusteredBigCache.go, and `handlePut` of cluster/remoteNode.go at another node.
use ngbigcache.Base.{
  ℕ, ◌<◌, ◌≤◌, ◌^◌, ◌≡◌, ◌↔◌, ◌∙◌, refl, sym, ap, true, none, some, List, ◌++◌, ◌==◌, if◌then◌else◌,
  false, Bytes, eq_bytes_refl, ok, ◌>>=◌, value, In, length, arith,
}
use ngbigcache.Base.Int.{ℤ, pos}
use ngbigcache.Utils.SliceList as slice_list
use ngbigcache.Message.{NodeWireMessage, msg_put}
use ngbigcache.Message.Put.{PutMessage}
use ngbigcache.Message.Put as put_message
use ngbigcache.Message.Put.RoundTrip.{wire, serialize_lem, deserialize-serialize_put}
use ngbigcache.Message.Any.{put}
use ngbigcache.Cache.Shard.{expiry_timestamp}
use ngbigcache.Cache.BigCache.{BigCache}
use ngbigcache.Cache.BigCache as big_cache
use ngbigcache.Cache.BigCache.Abstract.{Table, look, Represents}
use ngbigcache.Cache.BigCache.Refines.{change_self, get-Represents}
use ngbigcache.Cache.BigCache.Runs.{HasRoom, with_entry, set_unbounded}
use ngbigcache.Cluster.Types.{Platform, Cluster, cluster_state_started, cluster_mode_active}
use ngbigcache.Cluster.Handlers.{handle_put}
use ngbigcache.Cluster.Client.{
  answered, active_peers, addressed, replicate_to_peers, store_locally, put_data, get_start,
}
use ngbigcache.Cluster.Client.Replicate.{AllRemote, IsActive, active_peers_lem}

module _ {p : Platform} where
  pub stored_active :
      (node : Cluster p) (cache cache' : BigCache p.lib) (key entry : Bytes) (duration : ℤ)
      (epoch now timestamp : ℕ)
      → node.mode ≡ cluster_mode_active
      → node.cache ≡ some cache
      → big_cache.set_entry cache key entry duration epoch now ≡ ok (cache', timestamp, none)
      → store_locally node key entry duration epoch now
        ≡ ok (record node { cache = some cache' }, timestamp, none)
  unfolding store_locally
  stored_active node cache cache' key entry duration epoch now timestamp active has e =
      let on : (node.mode == cluster_mode_active) ≡ true = rw active refl in
      rw (store_locally, on, has, e) refl

  put_stored :
      (node stored : Cluster p) (key entry : Bytes) (duration : ℤ) (epoch now timestamp : ℕ)
      (peers : List ℕ)
      → node.state ≡ cluster_state_started
      → stored.closed ≡ false
      → store_locally node key entry duration epoch now ≡ ok (stored, timestamp, none)
      → active_peers stored (slice_list.values stored.remote_nodes) ≡ ok peers
      → put_data node key entry duration epoch now
        ≡ ok (
          record stored {
            replication_chan =
                stored.replication_chan
                ++ addressed peers
                    (put (record { code = 0; key = key; contents = entry; expiry = timestamp }));
          },
          none,
        )
  unfolding put_data replicate_to_peers store_locally
  put_stored node stored key entry duration epoch now timestamp peers started unclosed e f =
      let on : (node.state == cluster_state_started) ≡ true = rw started refl in
      rw (put_data, on, e, replicate_to_peers, f, unclosed) refl

  handled :
      (node : Cluster p) (cache cache' : BigCache p.lib) (w : NodeWireMessage) (m : PutMessage)
      (remaining : ℕ → ℤ) (epoch now timestamp : ℕ)
      → put_message.deserialize w ≡ ok m
      → node.cache ≡ some cache
      → big_cache.set_entry cache m.key m.contents
          (if m.expiry == 0 then pos 0 else remaining m.expiry)
          epoch
          now
        ≡ ok (cache', timestamp, none)
      → handle_put node w remaining epoch now ≡ ok (record node { cache = some cache' })
  unfolding handle_put
  handled node cache cache' w m remaining epoch now timestamp d has e =
      rw (handle_put, d, has, e) refl

  get_hit :
      (node : Cluster p) (cache cache' : BigCache p.lib) (key rand_str found : Bytes)
      → node.state ≡ cluster_state_started
      → node.mode ≡ cluster_mode_active
      → node.cache ≡ some cache
      → big_cache.get cache key ≡ ok (cache', value found)
      → get_start node key rand_str
        ≡ ok (record node { cache = some cache' }, answered (value found))
  unfolding get_start
  get_hit node cache cache' key rand_str found started active has e =
      let on : (node.state == cluster_state_started) ≡ true = rw started refl in
      let here : (node.mode == cluster_mode_active) ≡ true = rw active refl in
      rw (get_start, on, here, has, e) refl

  -- If a started active node, whose channels are not closed, has a cache that represents a table,
  -- its list points to remote nodes only, the key has at most 65517 bytes and the key's shard has no maximal size and room
  -- for the entry, then `Put` returns no error, the cache represents the table with the key and
  -- the value, and exactly the remote nodes in the list that are not passive are sent the same
  -- key, value and time of expiry.
  pub put_data-replicates :
      (node : Cluster p) (cache : BigCache p.lib) (t : Table) (key entry : Bytes) (duration : ℤ)
      (epoch now : ℕ)
      → node.state ≡ cluster_state_started
      → node.closed ≡ false
      → node.mode ≡ cluster_mode_active
      → node.cache ≡ some cache
      → AllRemote node (slice_list.values node.remote_nodes)
      → Represents cache t
      → length key ≤ 65517
      → HasRoom cache key entry
      → (node' : Cluster p) × (cache' : BigCache p.lib) × (peers : List ℕ) × (put_data node key
            entry duration epoch now
          ≡ ok (node', none))
        × (node'.cache ≡ some cache')
        × Represents cache' (with_entry p.lib t key entry)
        × (node'.replication_chan
            ≡ node.replication_chan
              ++ addressed peers (
                  put (record {
                    code = 0;
                    key = key;
                    contents = entry;
                    expiry = expiry_timestamp p.lib duration epoch;
                  })))
        × (node'.objects ≡ node.objects)
        × ((r : ℕ) → In r peers ↔ (In r (slice_list.values node.remote_nodes) × IsActive node r))
  put_data-replicates node cache t key entry duration epoch now started unclosed active has all
        represents fits room =
      let (cache', e, after) =
        set_unbounded cache t key entry duration epoch now represents fits room in
      let node1 : Cluster p = record node { cache = some cache' } in
      let (peers, f, mem) = active_peers_lem node1 (slice_list.values node.remote_nodes) all in
      (
        record node1 {
          replication_chan =
              node.replication_chan
              ++ addressed peers (
                  put (record {
                    code = 0;
                    key = key;
                    contents = entry;
                    expiry = expiry_timestamp p.lib duration epoch;
                  }));
        },
        cache',
        peers,
        put_stored node node1 key entry duration epoch now _ peers started unclosed
            (stored_active node cache cache' key entry duration epoch now _ active has e) f,
        refl,
        after,
        refl,
        refl,
        mem,
      )

  -- If a put message with a time of expiry that fits 64 bits and a key of at most 65517 bytes is
  -- serialized and given to a started active node, whose cache represents a table and has room for
  -- the entry, then `handlePut` returns, and `Get` of the key at that node then answers the value.
  pub handle_put-get :
      (node : Cluster p) (cache : BigCache p.lib) (t : Table) (m : PutMessage) (remaining : ℕ → ℤ)
      (epoch now : ℕ) (rand_str : Bytes)
      → node.state ≡ cluster_state_started
      → node.mode ≡ cluster_mode_active
      → node.cache ≡ some cache
      → Represents cache t
      → m.expiry < 2 ^ 64
      → length m.key ≤ 65517
      → HasRoom cache m.key m.contents
      → (w : NodeWireMessage) × (node' : Cluster p) × (put_message.serialize m ≡ ok w)
        × (handle_put node w remaining epoch now ≡ ok node')
        × ((cache' : BigCache p.lib) × (node'.cache ≡ some cache')
            × Represents cache' (with_entry p.lib t m.key m.contents))
        × ((node'' : Cluster p) × (get_start node' m.key rand_str
              ≡ ok (node'', answered (value m.contents))))
  handle_put-get node cache t m remaining epoch now rand_str started active has represents small
        fits room =
      let w : NodeWireMessage = record {
        code = msg_put;
        contents = wire m (omega (arith, fits)) small;
      } in
      let s : put_message.serialize m ≡ ok w = serialize_lem m (omega (arith, fits)) small in
      let d : put_message.deserialize w ≡ ok (record m { code = msg_put }) =
        sym (ap (λ r. r >>= put_message.deserialize) s)
        ∙ deserialize-serialize_put m (omega (arith, fits)) small (omega (arith, fits)) in
      let duration : ℤ = if m.expiry == 0 then pos 0 else remaining m.expiry in
      let (cache', e, after) =
        set_unbounded cache t m.key m.contents duration epoch now represents fits room in
      let (cache'', g, _) =
        get-Represents cache' (with_entry p.lib t m.key m.contents) after m.key in
      let l : look (with_entry p.lib t m.key m.contents (p.lib.sum64 m.key)) m.key
          ≡ value m.contents =
        rw (change_self t (p.lib.sum64 m.key) (some (m.key, m.contents)), eq_bytes_refl m.key)
          refl in
      let node' : Cluster p = record node { cache = some cache' } in
      (
        w,
        node',
        s,
        handled node cache cache' w (record m { code = msg_put }) remaining epoch now _ d has e,
        (cache', refl, after),
        (
          record node { cache = some cache'' },
          get_hit node' cache' cache'' m.key rand_str m.contents started active refl
              (g ∙ ap (λ v. ok (cache'', v)) l),
        ),
      )
