-- ===== src/Cluster/Membership.antt =====
-- cluster/clusteredBigCache.go, and `start` and `join` of cluster/remoteNode.go: how a node starts and
-- stops, and how it comes to its remote nodes.
--
-- What the network does is an argument: whether an address is listened on or connected to. A call
-- that starts a goroutine is followed by what that goroutine does before its first wait.
pub mod Retry
use ngbigcache.Base.{
  ℕ, ◌+◌, Bool, true, false, ◌&&◌, Option, none, some, List, [], ◌∷◌, ◌==◌, ltb, if◌then◌else◌,
  Bytes, eq_bytes, Run, ok, panic, ◌>>=◌, length,
}
use ngbigcache.Base.Int.{ℤ, pos, ltb_ℤ, is_zero_ℤ}
use ngbigcache.Base.Dict as dict
use ngbigcache.Utils.SliceList as slice_list
use ngbigcache.Message.Json.{ProposedPeer}
use ngbigcache.Cluster.Types.{
  Platform, Cluster, ClusterConfig, RemoteNode, RemoteNodeConfig, connecting, handshake,
  new_remote_node, new_object, remote, set_remote, replication_mode_full_replicate,
  cluster_state_started, cluster_state_ended,
}
use ngbigcache.Cluster.Queues.{set_state}
use ngbigcache.Cluster.Ping.{start_ping}
use ngbigcache.Cluster.Verify.{send_verify, event_unable_to_connect, tear_down}

-- How an attempt of `join` to connect ends: another follows after so many failures, the goroutine
-- gives up, or the remote node is started.
pub data JoinRound : Type 0 where
  again : ℕ → JoinRound
  gave_up started : JoinRound

pub data StartError : Type 0 where
  listen_failed no_join_ip : StartError

-- `tries >= r.config.ConnectRetries`, where retries are limited
abbrev pub gives_up : RemoteNodeConfig → ℕ → Bool
gives_up c tries =
    ltb_ℤ (pos 0) c.connect_retries && (if ltb_ℤ (pos tries) c.connect_retries then false else true)

abbrev peer_config : ClusterConfig → Bytes → Bytes → Bool → Bool → RemoteNodeConfig
peer_config c id address sync reconnect = record {
  id = id;
  ip_address = address;
  ping_failure_threshold = c.ping_failure_threshold;
  ping_interval = c.ping_interval;
  ping_timeout = c.ping_timeout;
  connect_retries = c.connect_retries;
  service_port = [];
  sync = sync;
  reconnect_on_disconnect = reconnect;
}

module _ {p : Platform} where
  -- `checkConfig`
  unfoldable pub check_config : Cluster p → Cluster p
  check_config node = record node {
    config = record node.config {
      connect_retries =
          if ltb_ℤ node.config.connect_retries (pos 1) then pos 5 else node.config.connect_retries;
      replication_mode = replication_mode_full_replicate;
    };
  }

  -- `LocalPort`
  unfoldable pub local_port : Cluster p → ℤ
  local_port node = node.config.local_port

  -- `start` of a remote node: the goroutine of the timers sends its first ping on its own, here before
  -- the verification.
  unfoldable pub start_remote : Cluster p → ℕ → Run (Cluster p)
  unfolding start_ping send_verify
  start_remote node r = do
    x ← remote node r
    ok (set_remote node r (send_verify node (start_ping x)))

  -- `join`, up to the first attempt to connect
  unfoldable pub join : Cluster p → ℕ → Run (Cluster p)
  unfolding set_state
  join node r = do x ← remote node r; ok (set_remote node r (set_state x connecting))

  -- The loop of `join`: an attempt to connect, which succeeds or not, after so many failures.
  unfoldable pub join_round : Cluster p → ℕ → ℕ → Bool → Run (Cluster p × JoinRound)
  unfolding set_state start_remote event_unable_to_connect
  join_round node r tries connects = do
    x ← remote node r
    done ← start_remote (set_remote node r (set_state x handshake)) r
    ok (
        if connects
        then (done, started)
        else if ltb_ℤ (pos 0) x.config.connect_retries
        then (if gives_up x.config (tries + 1)
            then (event_unable_to_connect node x.config, gave_up)
            else (node, again (tries + 1)))
        else (node, again tries))

  -- `joinCluster`
  unfoldable pub join_cluster : Cluster p → Run (Cluster p × Option StartError)
  unfolding new_remote_node new_object join
  join_cluster node =
      let c = node.config in
      let made =
        new_object node
          (new_remote_node (peer_config c [] c.join_ip true c.reconnect_on_disconnect)) in
      if eq_bytes c.join_ip []
      then ok (node, some no_join_ip)
      else (do joined ← join made.0 made.1; ok (joined, none))

  -- The end of `Start`.
  unfoldable pub join_and_start : Cluster p → Run (Cluster p × Option StartError)
  unfolding join_cluster
  join_and_start node = do
    joined ← if node.config.join then join_cluster node else ok (node, none)
    elim joined.1 [
      | some e ↦ ok joined
      | none ↦ ok (record joined.0 { state = cluster_state_started }, none)
    ]

  -- `Start`: `generated` is a new identity, and `port` the port that is listened on, if one is.
  unfoldable pub start : Cluster p → Bytes → Option ℤ → Run (Cluster p × Option StartError)
  unfolding check_config join_and_start
  start node generated port =
      let checked = check_config node in
      let named : Cluster p = record checked {
        config = record checked.config {
          id = if eq_bytes checked.config.id [] then generated else checked.config.id;
        };
      } in
      elim port [
        | none ↦ ok (named, some listen_failed)
        | some n ↦
            let bound : Cluster p = record named {
              config = record named.config {
                local_port =
                    if is_zero_ℤ named.config.local_port then n else named.config.local_port;
              };
            } in
            join_and_start bound
      ]

  -- The loop of `ShutDown` over the remote nodes.
  unfoldable pub shut_down_nodes : Cluster p → List ℕ → Run (Cluster p)
  unfolding tear_down
  shut_down_nodes node [] = ok node
  shut_down_nodes node (r ∷ rest) = do
    x ← remote node r
    let kept : RemoteNode = record x {
      config = record x.config { reconnect_on_disconnect = false };
    }
    left ← tear_down (set_remote node r kept) r
    shut_down_nodes left rest

  -- `ShutDown`
  unfoldable pub shut_down : Cluster p → Run (Cluster p)
  unfolding shut_down_nodes
  shut_down node = do
    left ←
        shut_down_nodes (record node { state = cluster_state_ended })
          (slice_list.values node.remote_nodes)
    if left.closed then panic else ok (record left { closed = true })

  -- A round of `listen`, after so many errors: a connection from an address, or an error. The number
  -- of errors follows, or `none` where the loop ends.
  unfoldable pub accept_round : Cluster p → ℕ → Option Bytes → Run (Cluster p × Option ℕ)
  unfolding new_remote_node new_object set_state start_remote
  accept_round node errors none =
      if ltb (errors + 1) 5
      then ok (node, some (errors + 1))
      else if node.config.terminate_on_listener_exit
      then panic
      else ok (node, none)
  accept_round node errors (some address) =
      let x = new_remote_node (peer_config node.config [] address false false) in
      let made = new_object node (set_state x handshake) in
      (do accepted ← start_remote made.0 made.1; ok (accepted, some 0))

  -- A round of `connectToExistingNodes` up to `join`: the proposal that is taken up, if one is.
  unfoldable pub take_proposal : Cluster p → Run (Cluster p × Option ProposedPeer)
  unfolding new_remote_node new_object join
  take_proposal node = elim node.join_queue [
    | [] ↦ ok (node, none)
    | value ∷ rest ↦
        let taken : Cluster p = record node { join_queue = rest } in
        let c =
          record (peer_config node.config value.id value.ip_address false
            node.config.reconnect_on_disconnect) {
              ping_failure_threshold = pos 0;
              ping_interval = pos 0;
              ping_timeout = pos 0;
            } in
        let made = new_object taken (new_remote_node c) in
        if node.state == cluster_state_started
        then elim (dict.load node.pending_conn value.id) [
          | some address ↦ ok (taken, none)
          | none ↦ elim (dict.load (slice_list.keys node.remote_nodes) value.id) [
            | some r ↦ ok (taken, none)
            | none ↦ (do joined ← join made.0 made.1; ok (joined, some value))
          ]
        ]
        else ok (taken, none)
  ]

  -- The end of that round: `node.pendingConn.Store(value.Id, value.IpAddress)`.
  unfoldable pub note_pending : Cluster p → ProposedPeer → Cluster p
  note_pending node value = record node {
    pending_conn = dict.store node.pending_conn value.id value.ip_address;
  }
