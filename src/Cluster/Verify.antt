-- ===== src/Cluster/Verify.antt =====
-- cluster/remoteNode.go and cluster/clusteredBigCache.go: how a remote node is admitted, and how it
-- leaves.
--
-- A function works on the node, and on the remote node at `r`.
pub mod Admission
use ngbigcache.Base.{
  ℕ, List, Bool, true, false, ◌&&◌, none, [], ◌∷◌, ◌++◌, ◌==◌, if◌then◌else◌, Bytes, Run, ok, ◌>>=◌,
}
use ngbigcache.Base.Dict as dict
use ngbigcache.Utils.SliceList as slice_list
use ngbigcache.Message.{NodeWireMessage}
use ngbigcache.Message.Json.{ProposedPeer, VerifyMessage, deserialize_verify}
use ngbigcache.Message.Any.{verify, verify_ok}
use ngbigcache.Cluster.Types.{
  Platform, Cluster, RemoteNode, RemoteNodeConfig, connected, cluster_mode_passive, remote,
  set_remote, send_join,
}
use ngbigcache.Cluster.Queues.{send_message, set_state}

abbrev pub blank_verify : VerifyMessage
blank_verify = record { id = []; version = []; service_port = []; mode = 0 }

-- The fields that `handleVerify` takes from the message.
unfoldable pub identify : RemoteNode → VerifyMessage → RemoteNode
identify x m = record x {
  config = record x.config { id = m.id; service_port = m.service_port };
  mode = m.mode;
}

-- The end of `handleVerify`, for a remote node that is admitted.
unfoldable pub admit : RemoteNode → RemoteNode
unfolding send_message set_state
admit x =
    let settled : RemoteNode = record x {
      config = record x.config {
        reconnect_on_disconnect =
            if x.mode == cluster_mode_passive then false else x.config.reconnect_on_disconnect;
      };
    } in
    send_message (set_state settled connected) verify_ok

module _ {p : Platform} where
  -- `eventVerifyRemoteNode`
  unfoldable pub event_verify_remote_node : Cluster p → ℕ → Bytes → Cluster p × Bool
  event_verify_remote_node node r id =
      if slice_list.contains node.remote_nodes id then (node, false) else (
        record node {
          remote_nodes = slice_list.add node.remote_nodes id r;
          pending_conn = dict.delete node.pending_conn id;
        },
        true,
      )

  -- `eventRemoteNodeDisconneced`
  unfoldable pub event_remote_node_disconnected : Cluster p → RemoteNode → Cluster p
  event_remote_node_disconnected node x = record node {
    remote_nodes = slice_list.remove node.remote_nodes x.config.id;
  }

  -- `eventUnableToConnect`
  unfoldable pub event_unable_to_connect : Cluster p → RemoteNodeConfig → Cluster p
  event_unable_to_connect node c = record node { pending_conn = dict.delete node.pending_conn c.id }

  -- `sendVerify`
  unfoldable pub send_verify : Cluster p → RemoteNode → RemoteNode
  unfolding send_message
  send_verify node x = send_message x (
      verify (record {
        id = node.config.id;
        version = [];
        service_port = p.itoa node.config.local_port;
        mode = node.mode;
      }))

  -- `handleVerify`, of a message that was decoded
  unfoldable pub verify_node : Cluster p → ℕ → RemoteNode → VerifyMessage → Cluster p × Bool
  unfolding identify event_verify_remote_node admit
  verify_node node r x m =
      let known = set_remote node r (identify x m) in
      let asked = event_verify_remote_node known r m.id in
      if (m.mode == cluster_mode_passive) && (node.mode == cluster_mode_passive)
      then (known, false)
      else if asked.1
      then (set_remote asked.0 r (admit (identify x m)), true)
      else (asked.0, false)

  -- `handleVerify`
  unfoldable pub handle_verify : Cluster p → ℕ → NodeWireMessage → Run (Cluster p × Bool)
  unfolding verify_node
  handle_verify node r msg = do
    x ← remote node r
    ok (verify_node node r x (deserialize_verify p.json msg blank_verify))

  -- `tearDown`
  unfoldable pub tear_down : Cluster p → ℕ → Run (Cluster p)
  unfolding event_remote_node_disconnected send_join
  tear_down node r = do
    x ← remote node r
    let left = event_remote_node_disconnected node x
    let proposed : List ProposedPeer =
        if x.config.reconnect_on_disconnect
        then record { id = x.config.id; ip_address = x.config.ip_address } ∷ []
        else []
    asked ← send_join left proposed
    ok (set_remote asked r (record x { pending_get = none; timer_armed = false }))
