-- ===== src/Cluster/Sync.antt =====
-- cluster/remoteNode.go: how a node that joins learns of the other nodes.
use ngbigcache.Base.{
  ℕ, ◌+◌, Bool, ◌&&◌, ◌||◌, List, [], ◌∷◌, ◌++◌, ◌==◌, ltb, if◌then◌else◌, eq_bytes, Run, ok, ◌>>=◌,
  length,
}
use ngbigcache.Base.Int.{ℤ, pos, ltb_ℤ}
use ngbigcache.Utils.SliceList as slice_list
use ngbigcache.Message.{NodeWireMessage}
use ngbigcache.Message.Json.{
  ProposedPeer, SyncReqMessage, deserialize_sync_req, deserialize_sync_rsp,
}
use ngbigcache.Message.Any.{sync_req, sync_rsp}
use ngbigcache.Cluster.Types.{
  Platform, Cluster, RemoteNode, is_handshake, cluster_mode_passive, remote, send_join,
}
use ngbigcache.Cluster.Queues.{send_message}

-- `handleVerifyOK`: a goroutine is started.
unfoldable pub handle_verify_ok : RemoteNode → RemoteNode
handle_verify_ok x = record x { syncing = x.syncing ++ 0 ∷ [] }

-- A test of the loop of that goroutine, with what follows it up to the next; it is the goroutine that
-- was started first.
unfoldable pub sync_round : ℕ → RemoteNode → RemoteNode
unfolding send_message
sync_round mode x = elim x.syncing [
  | [] ↦ x
  | count ∷ rest ↦
      if is_handshake x.state
      then (if ltb (count + 1) 5
          then record x { syncing = (count + 1) ∷ rest }
          else record x { syncing = rest })
      else if x.config.sync
      then send_message (record x { syncing = rest }) (sync_req (record { code = 0; mode = mode }))
      else record x { syncing = rest }
]

-- The remote nodes that `sendSyncResponse` leaves out.
abbrev left_out : RemoteNode → SyncReqMessage → RemoteNode → Bool
left_out x msg n =
    eq_bytes n.config.id x.config.id
    || ((n.mode == cluster_mode_passive) && (msg.mode == cluster_mode_passive))

module _ {p : Platform} where
  -- The loop of `sendSyncResponse` over the remote nodes.
  unfoldable pub sync_list :
      Cluster p → RemoteNode → SyncReqMessage → List ℕ → Run (List ProposedPeer)
  sync_list node x msg [] = ok []
  sync_list node x msg (r ∷ rest) = do
    n ← remote node r
    peers ← sync_list node x msg rest
    let peer : ProposedPeer = record {
      id = n.config.id;
      ip_address = p.service_address n.config.ip_address n.config.service_port;
    }
    ok (if left_out x msg n then peers else peer ∷ peers)

  -- `sendSyncResponse`
  unfoldable pub send_sync_response : Cluster p → RemoteNode → SyncReqMessage → Run RemoteNode
  unfolding sync_list send_message
  send_sync_response node x msg = do
    peers ← sync_list node x msg (slice_list.values node.remote_nodes)
    let answer =
        sync_rsp
          (record { code = 0; replication_factor = node.config.replication_factor; list = peers })
    ok (if ltb 0 (length peers) then send_message x answer else x)

  -- `handleSyncRequest`
  unfoldable pub handle_sync_request : Cluster p → RemoteNode → NodeWireMessage → Run RemoteNode
  unfolding send_sync_response
  handle_sync_request node x msg =
      send_sync_response node x (deserialize_sync_req p.json msg (record { code = 0; mode = 0 }))

  -- `setReplicationFactor`
  unfoldable pub set_replication_factor : Cluster p → ℤ → Cluster p
  set_replication_factor node rf = record node {
    config = record node.config { replication_factor = if ltb_ℤ rf (pos 1) then pos 1 else rf };
  }

  -- `handleSyncResponse`
  unfoldable pub handle_sync_response : Cluster p → NodeWireMessage → Run (Cluster p)
  unfolding set_replication_factor send_join
  handle_sync_response node msg =
      let m =
        deserialize_sync_rsp p.json msg
          (record { code = 0; replication_factor = pos 0; list = [] }) in
      send_join (set_replication_factor node m.replication_factor) m.list
