-- ===== src/Cluster/Wire/Stream.antt =====
-- `networkSender` and `networkConsumer` of cluster/remoteNode.go at the two ends of a connection.
use ngbigcache.Base.{
  ℕ, zero, suc, ◌<◌, ◌≡◌, ◌∙◌, refl, ap, true, false, none, some, List, [], ◌∷◌, ◌++◌, Bool-cases,
  inl, inr, Bytes, ok, length, arith,
}
use mathlib.Core.List.{append-nil, append_assoc}
use ngbigcache.Message.{NodeWireMessage}
use ngbigcache.Message.Json.{Json}
use ngbigcache.Message.Any.{NodeMessage, serialize}
use ngbigcache.Comms.Frame.{frame, read_frame}
use ngbigcache.Comms.Frame.RoundTrip.{Fits, read_frame-frame}
use ngbigcache.Comms.Connection.{read_data}
use ngbigcache.Cluster.Types.{RemoteNode, connected, is_disconnected, is_handshake}
use ngbigcache.Cluster.Wire.{consume_round, network_consumer, network_sender, outbound, reads}
use ngbigcache.Cluster.Wire.Gate.{next_lem, stop_lem, queue_taken}

-- The messages are serialized to these, which fit a frame.
abbrev pub Serialized : Json → List NodeMessage → List NodeWireMessage → Type 0
Serialized json [] [] = Unit
Serialized json [] (w ∷ ws) = ⊥
Serialized json (m ∷ ms) [] = ⊥
Serialized json (m ∷ ms) (w ∷ ws) = (serialize json m ≡ ok w) × Fits w × Serialized json ms ws

-- With the messages at the end of the queue.
abbrev pub received : RemoteNode → List NodeWireMessage → RemoteNode
received y msgs = record y { inbound_msg_queue = y.inbound_msg_queue ++ msgs }

outbound_lem :
    (json : Json) (x : RemoteNode) (m : NodeMessage) (w : NodeWireMessage) (bytes : Bytes)
    → is_disconnected x.state ≡ false
    → serialize json m ≡ ok w
    → frame w ≡ ok bytes
    → outbound json x m ≡ ok (some bytes)
unfolding outbound
outbound_lem json x m w bytes alive e f = rw (outbound, alive, e, f) refl

consume_lem :
    (y : RemoteNode) (w : NodeWireMessage) (stream rest : Bytes)
    → y.state ≡ connected
    → read_frame stream ≡ ok (some (w, rest))
    → consume_round y stream ≡ ok (received y (w ∷ []), some rest)
unfolding consume_round
consume_lem y w stream rest at e =
    let t : reads y.state ≡ true = ap reads at in
    let q = queue_taken y w (rw (ap is_handshake at) refl) (ap is_disconnected at) in
    rw (consume_round, t, e, q) refl

end_lem : (y : RemoteNode) → consume_round y [] ≡ ok (y, none)
unfolding consume_round read_frame read_data
end_lem y = elim (Bool-cases (reads y.state)) [
  | inl t ↦ rw (consume_round, t) refl
  | inr f ↦ rw (consume_round, f) refl
]

-- If a remote node is not disconnected, the messages that it sends are serialized to messages
-- whose codes and lengths fit a frame, and the bytes that it writes arrive at a connected remote
-- node, then that one, once it may take more rounds than there are messages, returns and has exactly these
-- at the end of its queue, in order, and nothing else of it has changed.
pub network_consumer-network_sender :
    (json : Json) (x y : RemoteNode) (ms : List NodeMessage) (ws : List NodeWireMessage)
    → is_disconnected x.state ≡ false
    → y.state ≡ connected
    → Serialized json ms ws
    → (bytes : Bytes) × (network_sender json x ms ≡ ok bytes)
      × ((n : ℕ) → length ws < n → network_consumer n y bytes ≡ ok (received y ws, true))
unfolding network_sender
network_consumer-network_sender json x y [] [] alive at s = (
  [],
  refl,
  λ n lt. stop_lem y [] (end_lem y) n (omega arith) ∙ rw (append-nil y.inbound_msg_queue) refl,
)
network_consumer-network_sender json x y [] (w ∷ ws) alive at s = absurd s
network_consumer-network_sender json x y (m ∷ ms) [] alive at s = absurd s
network_consumer-network_sender json x y (m ∷ ms) (w ∷ ws) alive at (e, fits, s) =
    let (bytes, f, all) =
      network_consumer-network_sender json x (received y (w ∷ [])) ms ws alive at s in
    let (front, g, h) = read_frame-frame w bytes fits in
    (
      front ++ bytes,
      rw (outbound_lem json x m w front alive e g, f) refl,
      more (front ++ bytes) bytes (consume_lem y w (front ++ bytes) bytes at h) all,
    )
  where
    more :
        (stream bytes : Bytes)
        → consume_round y stream ≡ ok (received y (w ∷ []), some bytes)
        → ((n : ℕ)
            → length ws < n
            → network_consumer n (received y (w ∷ [])) bytes
              ≡ ok (received (received y (w ∷ [])) ws, true))
        → (n : ℕ) → length (w ∷ ws) < n
        → network_consumer n y stream ≡ ok (received y (w ∷ ws), true)
    more stream bytes e all zero lt = absurd (omega arith)
    more stream bytes e all (suc n) lt =
        next_lem y (received y (w ∷ [])) stream bytes e n
        ∙ all n (omega arith)
        ∙ rw (append_assoc y.inbound_msg_queue (w ∷ []) ws) refl
