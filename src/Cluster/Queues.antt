-- ===== src/Cluster/Queues.antt =====
-- cluster/remoteNode.go: the two message queues of a remote node.
--
-- A message that is sent while the goroutines of a remote node are being stopped is not told from
-- one sent before.
use ngbigcache.Base.{◌+◌, not, ◌&&◌, [], ◌∷◌, ◌++◌, ◌==◌, if◌then◌else◌}
use ngbigcache.Message.{NodeWireMessage, msg_verify, msg_verify_ok}
use ngbigcache.Message.Any.{NodeMessage}
use ngbigcache.Cluster.Types.{RemoteNode, NodeState, is_disconnected, is_handshake}

-- `setState`
unfoldable pub set_state : RemoteNode → NodeState → RemoteNode
set_state x state = record x { state = state }

-- `sendMessage`
unfoldable pub send_message : RemoteNode → NodeMessage → RemoteNode
send_message x msg =
    if is_disconnected x.state
    then x
    else record x { outbound_msg_queue = x.outbound_msg_queue ++ msg ∷ [] }

-- `queueInboundMessage`
unfoldable pub queue_inbound_message : RemoteNode → NodeWireMessage → RemoteNode
queue_inbound_message x msg =
    if is_handshake x.state && (not (msg.code == msg_verify) && not (msg.code == msg_verify_ok))
    then record x { metrics = record x.metrics { dropped_msg = x.metrics.dropped_msg + 1 } }
    else if is_disconnected x.state
    then x
    else record x { inbound_msg_queue = x.inbound_msg_queue ++ msg ∷ [] }
