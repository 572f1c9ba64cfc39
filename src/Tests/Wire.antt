-- ===== src/Tests/Wire.antt =====
-- Messages between nodes at concrete data.
use ngbigcache.Base.{
  Bool, true, ℕ, ◌<◌, ◌≡◌, ◌⊎◌, ◌↔◌, refl, ap, true, none, some, List, [], ◌∷◌, ◌++◌, inl, inr,
  length, Bytes, ok, value, In, arith,
}
use ngbigcache.Base.Int.{pos}
use ngbigcache.Utils.SliceList as slice_list
use ngbigcache.Message.{NodeWireMessage, msg_ping, msg_pong}
use ngbigcache.Message.Json.{serialize_ping, serialize_pong}
use ngbigcache.Message.Put.{PutMessage}
use ngbigcache.Message.Any.{NodeMessage, put, ping, pong, serialize}
use ngbigcache.Comms.Connection.{Connection, WriteAnswer, wrap_connection, wrote, send_data, write}
use ngbigcache.Comms.Connection.Write.{without_count, AllFit, write-send_data}
use ngbigcache.Comms.Connection.Send.{send_data-ends}
use ngbigcache.Cache.Shard.{expiry_timestamp}
use ngbigcache.Cache.BigCache.{BigCache}
use ngbigcache.Cache.BigCache.Abstract.{Represents}
use ngbigcache.Cluster.Types.{Cluster, RemoteNode, handshake}
use ngbigcache.Cluster.Verify.Admission.{IsRemote}
use ngbigcache.Cluster.Handlers.{handle_message}
use ngbigcache.Cluster.Wire.{network_consumer, network_sender}
use ngbigcache.Cluster.Wire.Gate.{
  IsHandshakeCode, network_consumer-ends, network_consumer-handshake,
}
use ngbigcache.Cluster.Wire.Stream.{Serialized, received, network_consumer-network_sender}
use ngbigcache.Cluster.Client.{addressed, answered, put_data, get_start}
use mathlib.Core.List.{Perm}
use ngbigcache.Cluster.Client.Replicate.{
  in_order, IsActive, AllRemote, Addressed, replication, takes, messages_for, replication-takes,
}
use ngbigcache.Cluster.Client.Replica.{put_data-replicates}
use ngbigcache.Cache.BigCache.Runs.{with_entry}
use ngbigcache.Cluster.Client.Delivery.{sent-get}
use ngbigcache.Tests.Cache.{library, key_bytes, value_bytes}
use ngbigcache.Cluster.Types.{set_remote}
use ngbigcache.Tests.Json.{sample_json}
use ngbigcache.Tests.Refines.{one_cache, one_entry, one_cache-Represents, one_cache-HasRoom}
use ngbigcache.Tests.Nodes.{platform, first, second, third, node}

-- A ping and a message of code 3 with two bytes.
abbrev stream : Bytes
stream = 2 ∷ 0 ∷ 0 ∷ 0 ∷ 12 ∷ 0 ∷ 4 ∷ 0 ∷ 0 ∷ 0 ∷ 3 ∷ 0 ∷ 1 ∷ 2 ∷ []

network_consumer-ends_example :
    (x' : RemoteNode) × ((n : ℕ)
      → length stream < n
      → network_consumer n third stream ≡ ok (x', true))
network_consumer-ends_example = network_consumer-ends third stream

network_consumer-handshake_example :
    (x' : RemoteNode) × (returned : Bool) × (network_consumer 9 third stream ≡ ok (x', returned))
    × (x'.state ≡ handshake)
    × ((m : NodeWireMessage)
        → In m x'.inbound_msg_queue
        → In m third.inbound_msg_queue ⊎ IsHandshakeCode m)
network_consumer-handshake_example = network_consumer-handshake 9 third stream refl

abbrev sent_put : PutMessage
sent_put = record { code = 0; key = key_bytes; expiry = 60; contents = value_bytes }

abbrev two_messages : List NodeMessage
two_messages = ping (record { code = 0 }) ∷ pong (record { code = 0 }) ∷ []

abbrev two_wires : List NodeWireMessage
two_wires =
    record { code = msg_ping; contents = [] } ∷ record { code = msg_pong; contents = [] } ∷ []

two_messages-Serialized : Serialized sample_json two_messages two_wires
unfolding serialize serialize_ping serialize_pong
two_messages-Serialized = (refl, (omega arith, omega arith), (refl, (omega arith, omega arith), tt))

network_consumer-network_sender_example :
    (bytes : Bytes) × (network_sender sample_json first two_messages ≡ ok bytes)
    × ((n : ℕ)
        → length two_wires < n
        → network_consumer n second bytes ≡ ok (received second two_wires, true))
network_consumer-network_sender_example =
    network_consumer-network_sender sample_json first second two_messages two_wires refl refl
      two_messages-Serialized

-- A message for each of the remote nodes in the list.
abbrev chan : List (ℕ × NodeMessage)
chan = (0, ping (record { code = 0 })) ∷ (1, put sent_put) ∷ (0, put sent_put) ∷ []

chan-Addressed : Addressed node chan
chan-Addressed r m (inl e) = (first, rw (ap (λ (z : ℕ × NodeMessage). z.0) e) refl)
chan-Addressed r m (inr (inl e)) = (second, rw (ap (λ (z : ℕ × NodeMessage). z.0) e) refl)
chan-Addressed r m (inr (inr (inl e))) = (first, rw (ap (λ (z : ℕ × NodeMessage). z.0) e) refl)
chan-Addressed r m (inr (inr (inr e))) = elim e [ ]

replication-takes_example :
    (left : Cluster platform) × (replication
        (1 ∷ 1 ∷ 0 ∷ [])
        (record node { replication_chan = chan })
      ≡ ok left)
    × (left.replication_chan ≡ [])
    × Perm (in_order (1 ∷ 1 ∷ 0 ∷ []) chan) chan
    × ((r : ℕ) (x : RemoteNode)
        → IsRemote node r x
        → IsRemote left r (takes x (messages_for r (in_order (1 ∷ 1 ∷ 0 ∷ []) chan))))
replication-takes_example =
    replication-takes node chan (1 ∷ 1 ∷ 0 ∷ []) chan-Addressed
      (omega arith, omega arith, (omega arith, omega arith, (omega arith, omega arith, tt)))

all_remote : AllRemote node (slice_list.values node.remote_nodes)
unfolding slice_list.values
all_remote = ((first, refl), ((second, refl), tt))

put_data-replicates_example :
    (node' : Cluster platform) × (cache' : BigCache library) × (peers : List ℕ) × (put_data node
        key_bytes value_bytes
        (pos 1)
        1000
        1000
      ≡ ok (node', none))
    × (node'.cache ≡ some cache')
    × Represents cache' (with_entry library one_entry key_bytes value_bytes)
    × (node'.replication_chan
        ≡ node.replication_chan
          ++ addressed peers (
              put (record {
                code = 0;
                key = key_bytes;
                contents = value_bytes;
                expiry = expiry_timestamp library (pos 1) 1000;
              })))
    × (node'.objects ≡ node.objects)
    × ((r : ℕ) → In r peers ↔ (In r (slice_list.values node.remote_nodes) × IsActive node r))
put_data-replicates_example =
    put_data-replicates node one_cache one_entry key_bytes value_bytes (pos 1) 1000 1000 refl refl
      refl refl all_remote one_cache-Represents (omega arith)
      (one_cache-HasRoom key_bytes (omega arith))

-- The node after `ShutDown` and `Start`.
abbrev again : Cluster platform
again = record node { closed = true }

sent-get_example :
    (bytes : Bytes) × (w : NodeWireMessage) × (node' : Cluster platform) × (node'' : Cluster
      platform)
    × (network_sender sample_json second (put sent_put ∷ []) ≡ ok bytes)
    × ((n : ℕ) → 1 < n → network_consumer n first bytes ≡ ok (received first (w ∷ []), true))
    × (handle_message (set_remote node 0 (received first (w ∷ []))) 0 w (λ t. pos t) 1000 1000
        ≡ ok (node', true))
    × (get_start node' key_bytes (7 ∷ []) ≡ ok (node'', answered (value value_bytes)))
sent-get_example =
    sent-get second node 0 first one_cache one_entry sent_put (λ t. pos t) 1000 1000 (7 ∷ []) refl
      refl refl refl refl refl one_cache-Represents (omega arith) (omega arith) (omega arith)
      (one_cache-HasRoom key_bytes (omega arith))

abbrev connection : Connection
connection = wrap_connection (49 ∷ []) (50 ∷ [])

abbrev pieces : List WriteAnswer
pieces = wrote 2 ∷ wrote 1 ∷ wrote 5 ∷ []

send_data-ends_example :
    (c' : Connection) × (send_data pieces connection key_bytes ≡ some (c', none))
    × (c'.sent ≡ connection.sent ++ key_bytes)
unfolding wrap_connection
send_data-ends_example =
    send_data-ends pieces connection key_bytes refl (omega arith, (omega arith, (omega arith, tt)))
      (omega arith)

write-send_data_example :
    (without_count (write pieces connection key_bytes) ≡ send_data pieces connection key_bytes)
    × ((c' : Connection) (count : ℕ)
        → AllFit pieces (length key_bytes)
        → write pieces connection key_bytes ≡ some (c', count, none)
        → count ≡ length key_bytes)
write-send_data_example = write-send_data pieces connection key_bytes
