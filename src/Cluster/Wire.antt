-- ===== src/Cluster/Wire.antt =====
-- cluster/remoteNode.go: the goroutines that move messages between the queues of a remote node and its
-- connection, `networkConsumer` and `networkSender`.
--
-- The loops are cut into rounds: a round of the consumer reads from the bytes that arrive before the
-- connection ends, and a round of the sender takes one message.
pub mod Gate
pub mod Stream
use ngbigcache.Base.{
  ℕ, Bool, true, false, Option, none, some, List, [], ◌∷◌, ◌++◌, if◌then◌else◌, Bytes, Run, ok,
  ◌>>=◌, zero, suc,
}
use ngbigcache.Message.Json.{Json}
use ngbigcache.Message.Any.{NodeMessage, serialize}
use ngbigcache.Comms.Connection.{Connection, WriteAnswer, ConnectionError, send_data}
use ngbigcache.Comms.Frame.{frame, read_frame}
use ngbigcache.Cluster.Types.{
  RemoteNode, NodeState, connecting, connected, disconnected, handshake, is_disconnected,
}
use ngbigcache.Cluster.Queues.{queue_inbound_message}

abbrev pub reads : NodeState → Bool
reads connected = true
reads handshake = true
reads connecting = false
reads disconnected = false

-- A round of `networkConsumer`: the remote node, and the bytes that are left, or `none` where the loop
-- ends.
unfoldable pub consume_round : RemoteNode → Bytes → Run (RemoteNode × Option Bytes)
unfolding read_frame queue_inbound_message
consume_round x stream =
    if reads x.state
    then (do
      got ← read_frame stream
      elim got [
        | none ↦ ok (x, none)
        | some (msg, rest) ↦ ok (queue_inbound_message x msg, some rest)
      ])
    else ok (x, none)

-- `networkConsumer`, at most so many rounds, and whether it returned within them; the state does not
-- change meanwhile.
unfoldable pub network_consumer : ℕ → RemoteNode → Bytes → Run (RemoteNode × Bool)
unfolding consume_round
network_consumer zero x stream = ok (x, false)
network_consumer (suc n) x stream = do
  r ← consume_round x stream
  elim r.1 [ none ↦ ok (r.0, true) | some rest ↦ network_consumer n r.0 rest ]

-- What a round of `networkSender` gives to the connection for a message, if anything.
unfoldable pub outbound : Json → RemoteNode → NodeMessage → Run (Option Bytes)
unfolding serialize frame
outbound json x m =
    if is_disconnected x.state
    then ok none
    else (do msg ← serialize json m; bytes ← frame msg; ok (some bytes))

-- `networkSender`: the bytes that it gives to a connection that takes them all.
unfoldable pub network_sender : Json → RemoteNode → List NodeMessage → Run Bytes
unfolding outbound
network_sender json x [] = ok []
network_sender json x (m ∷ rest) = do
  out ← outbound json x m
  bytes ← network_sender json x rest
  ok (elim out [ none ↦ bytes | some front ↦ front ++ bytes ])
