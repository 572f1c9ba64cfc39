-- ===== src/Cluster/Steps.antt =====
-- A node as a whole: the calls of its user and the rounds of its goroutines, one after another in any
-- order. cluster/clusteredBigCache.go and cluster/remoteNode.go.
--
-- A round is atomic. What the network, the clock and the user choose is an argument of a step, and so
-- is the remote node whose goroutine runs: any pointer that it makes sense for, whether or not its
-- goroutines were started. Writes to the connection are not seen.
pub mod Outcomes
pub mod Numbers
pub mod Sound
pub mod Calls
pub mod Channels
pub mod Members
pub mod Turns
pub mod Verifies
pub mod Rounds
pub mod Reachable
pub mod Handshake
pub mod Replicated
use ngbigcache.Base.{ℕ, ◌≡◌, ◌<◌, Bool, true, Option, List, ◌∷◌, Bytes, Run, ok, Result}
use ngbigcache.Base.Int.{ℤ}
use ngbigcache.Message.{NodeWireMessage}
use ngbigcache.Message.Json.{ProposedPeer}
use ngbigcache.Message.Any.{NodeMessage}
use ngbigcache.Cluster.Types.{
  Platform, Cluster, ClusterConfig, RemoteNode, connecting, disconnected, remote, set_remote,
  new_cluster, new_passive_client,
}
use ngbigcache.Cluster.Queues.{queue_inbound_message, set_state}
use ngbigcache.Cluster.Ping.{ping_tick, ping_timed_out}
use ngbigcache.Cluster.Verify.{tear_down}
use ngbigcache.Cluster.Verify.Admission.{IsRemote}
use ngbigcache.Cluster.Sync.{sync_round}
use ngbigcache.Cluster.Handlers.{message_round}
use ngbigcache.Cluster.Wire.{reads}
use ngbigcache.Cluster.Membership.{
  StartError, JoinRound, start, join_round, shut_down, accept_round, take_proposal, note_pending,
}
use ngbigcache.Cluster.Client.{
  ClusterError, GetProgress, put_data, get_start, get_select, get_finish, delete, request_round,
  replication_round,
}

-- A round of a goroutine that changes only its remote node: a message comes in, or goes out, a timer
-- ticks or ends, the goroutine of `handleVerifyOK` looks, or `run.Group` stops the remote node.
pub data Turn (mode : ℕ) (x y : RemoteNode) : Type 0 where
  arrives :
      (msg : NodeWireMessage)
      → reads x.state ≡ true
      → queue_inbound_message x msg ≡ y
      → Turn mode x y
  sends :
      (m : NodeMessage) (rest : List NodeMessage)
      → x.outbound_msg_queue ≡ m ∷ rest
      → record x { outbound_msg_queue = rest } ≡ y
      → Turn mode x y
  ticks : ping_tick x ≡ y → Turn mode x y
  times_out : (stops : Bool) → ping_timed_out x ≡ (y, stops) → Turn mode x y
  syncs : sync_round mode x ≡ y → Turn mode x y
  stops : set_state x disconnected ≡ y → Turn mode x y

module _ {p : Platform} where
  pub data Step (before after : Cluster p) : Type 0 where
    starts :
        (generated : Bytes) (port : Option ℤ) (e : Option StartError)
        → start before generated port ≡ ok (after, e)
        → Step before after
    shuts_down : shut_down before ≡ ok after → Step before after
    puts :
        (key bytes : Bytes) (duration : ℤ) (epoch now : ℕ) (e : Option ClusterError)
        → put_data before key bytes duration epoch now ≡ ok (after, e)
        → Step before after
    deletes :
        (key : Bytes) (now : ℕ) (e : Option ClusterError)
        → delete before key now ≡ ok (after, e)
        → Step before after
    asks :
        (key rand_str : Bytes) (progress : GetProgress)
        → get_start before key rand_str ≡ ok (after, progress)
        → Step before after
    selects : (number : ℕ) → get_select before number ≡ after → Step before after
    finishes :
        (number : ℕ) (answer : Result ClusterError Bytes)
        → get_finish before number ≡ (after, answer)
        → Step before after
    requests : (k : ℕ) → k < 5 → request_round before k ≡ ok after → Step before after
    replicates : (k : ℕ) → k < 5 → replication_round before k ≡ ok after → Step before after
    accepts :
        (errors : ℕ) (connection : Option Bytes) (left : Option ℕ)
        → accept_round before errors connection ≡ ok (after, left)
        → Step before after
    proposes :
        (taken : Option ProposedPeer) → take_proposal before ≡ ok (after, taken) → Step before after
    notes : (value : ProposedPeer) → note_pending before value ≡ after → Step before after
    joins :
        (r tries : ℕ) (connects : Bool) (x : RemoteNode) (ended : JoinRound)
        → IsRemote before r x
        → x.state ≡ connecting
        → join_round before r tries connects ≡ ok (after, ended)
        → Step before after
    handles :
        (r : ℕ) (remaining : ℕ → ℤ) (epoch now : ℕ) (goes_on : Bool)
        → message_round before r remaining epoch now ≡ ok (after, goes_on)
        → Step before after
    turns :
        (r : ℕ) (x y : RemoteNode)
        → IsRemote before r x
        → Turn before.mode x y
        → set_remote before r y ≡ after
        → Step before after
    leaves : (r : ℕ) → tear_down before r ≡ ok after → Step before after

  -- The nodes that come of a node by steps.
  pub data Reach (before : Cluster p) : Cluster p → Type 0 where
    here : Reach before before
    next : {node after : Cluster p} → Reach before node → Step node after → Reach before after

  -- A node as `New` and `NewPassiveClient` make it.
  pub data Fresh (node : Cluster p) : Type 0 where
    made : (c : ClusterConfig) → new_cluster p c ≡ ok node → Fresh node
    passive :
        (id endpoint : Bytes) (local_port ping_interval ping_timeout threshold : ℤ)
        → new_passive_client p id endpoint local_port ping_interval ping_timeout threshold ≡ node
        → Fresh node
