-- ===== src/Cluster/Client/Delivery.antt =====
-- A put message on its way from the queue of one node to the cache of another: `networkSender`,
-- `networkConsumer` and `handleMessage` of cluster/remoteNode.go, and `Get` at the other node.
use ngbigcache.Base.{
  ℕ, ◌+◌, ◌<◌, ◌≤◌, ◌^◌, ◌≡◌, ◌∙◌, refl, sym, ap, subst, true, false, some, [], ◌∷◌, Bytes, ok,
  value, get_elem?-set_held, length, arith,
}
use ngbigcache.Base.Int.{ℤ}
use ngbigcache.Message.{NodeWireMessage, msg_put}
use ngbigcache.Message.Put.{PutMessage}
use ngbigcache.Message.Put as put_message
use ngbigcache.Message.Put.RoundTrip.{wire, serialize_lem, length-wire}
use ngbigcache.Message.Any.{put, serialize}
use ngbigcache.Cache.BigCache.{BigCache}
use ngbigcache.Cache.BigCache.Abstract.{Table, Represents}
use ngbigcache.Cluster.Types.{
  Platform, Cluster, RemoteNode, connected, is_disconnected, cluster_state_started,
  cluster_mode_active, remote, set_remote,
}
use ngbigcache.Cluster.Verify.Admission.{IsRemote}
use ngbigcache.Cluster.Handlers.{handle_put, handle_message, dispatch}
use ngbigcache.Cluster.Wire.{network_consumer, network_sender}
use ngbigcache.Cluster.Wire.Stream.{received, network_consumer-network_sender}
use ngbigcache.Cluster.Client.{answered, get_start}
use ngbigcache.Cluster.Client.Replica.{handle_put-get}
use ngbigcache.Cache.BigCache.Runs.{HasRoom}

module _ {p : Platform} where
  -- A put message of a connected remote node goes to `handlePut`.
  dispatched :
      (node node' : Cluster p) (r : ℕ) (y : RemoteNode) (contents : Bytes) (remaining : ℕ → ℤ)
      (epoch now : ℕ)
      → IsRemote node r y
      → y.state ≡ connected
      → handle_put node (record { code = msg_put; contents = contents }) remaining epoch now
        ≡ ok node'
      → handle_message node r (record { code = msg_put; contents = contents }) remaining epoch now
        ≡ ok (node', true)
  unfolding handle_message remote dispatch
  dispatched node node' r y contents remaining epoch now here at e =
      let alive : is_disconnected y.state ≡ false = ap is_disconnected at in
      rw (handle_message, remote, here, alive, dispatch) (rw e refl)

  -- If a put message, with a time of expiry that fits 64 bits, a key of at most 65517 bytes and
  -- a length that fits a frame, is sent by a remote node that is not disconnected, and the bytes
  -- arrive at a connected remote node of a started active node, whose cache represents a table
  -- and has, in a shard without a maximal size, room for the entry, then they are read there as
  -- one message, its handler returns and the loop goes on, and `Get` of the key at that node
  -- then answers the value.
  pub sent-get :
      (x : RemoteNode) (node : Cluster p) (r : ℕ) (y : RemoteNode) (cache : BigCache p.lib)
      (t : Table) (m : PutMessage) (remaining : ℕ → ℤ) (epoch now : ℕ) (rand_str : Bytes)
      → is_disconnected x.state ≡ false
      → IsRemote node r y
      → y.state ≡ connected
      → node.state ≡ cluster_state_started
      → node.mode ≡ cluster_mode_active
      → node.cache ≡ some cache
      → Represents cache t
      → m.expiry < 2 ^ 64
      → length m.key ≤ 65517
      → length m.key + length m.contents + 12 < 2 ^ 32
      → HasRoom cache m.key m.contents
      → (bytes : Bytes) × (w : NodeWireMessage) × (node' : Cluster p) × (node'' : Cluster p)
        × (network_sender p.json x (put m ∷ []) ≡ ok bytes)
        × ((n : ℕ) → 1 < n → network_consumer n y bytes ≡ ok (received y (w ∷ []), true))
        × (handle_message (set_remote node r (received y (w ∷ []))) r w remaining epoch now
            ≡ ok (node', true))
        × (get_start node' m.key rand_str ≡ ok (node'', answered (value m.contents)))
  unfolding set_remote serialize
  sent-get x node r y cache t m remaining epoch now rand_str alive here at started active has
        represents small fits short room =
      let contents = wire m (omega (arith, fits)) small in
      let w0 : NodeWireMessage = record { code = msg_put; contents = contents } in
      let s0 : put_message.serialize m ≡ ok w0 = serialize_lem m (omega (arith, fits)) small in
      let y' = received y (w0 ∷ []) in
      let (bytes, sent, got) =
        network_consumer-network_sender p.json x y (put m ∷ []) (w0 ∷ []) alive at (
          s0,
          (omega arith, omega (arith, length-wire m (omega (arith, fits)) small, short)),
          tt,
        ) in
      let (w, node', s, e, _, (node'', g)) =
        handle_put-get (set_remote node r y') cache t m remaining epoch now rand_str started active
          has represents small fits room in
      let same : w ≡ w0 = (let q : ok w ≡ ok w0 = sym s ∙ s0 in cc) in
      (
        bytes,
        w0,
        node',
        node'',
        sent,
        got,
        dispatched (set_remote node r y') node' r y' contents remaining epoch now
            (get_elem?-set_held node.objects r y y' here) at
            (subst (λ v. handle_put (set_remote node r y') v remaining epoch now ≡ ok node') same
              e),
        g,
      )
