-- ===== src/Cluster/Types.antt =====
-- cluster/config.go and the types of cluster/clusteredBigCache.go and cluster/remoteNode.go.
--
-- A remote node is an object behind a pointer: `objects` is the list of all that were made, and a
-- pointer is a place in it. A channel is the list of what was sent to it and not yet received, and
-- has no bound. Loggers, locks, wait groups and network endpoints are left out. A client without
-- a cache has `none`.
use ngbigcache.Base.{
  ℕ, ◌+◌, ◌-◌, ◌%◌, ◌^◌, Bool, true, false, Option, none, some, List, [], ◌∷◌, ◌++◌, ltb,
  if◌then◌else◌, Bytes, Run, ok, panic, ◌>>=◌, length, get_elem?, set,
}
use ngbigcache.Base.Int.{ℤ, pos, ltb_ℤ, is_zero_ℤ}
use ngbigcache.Utils.SliceList.{SliceList, new_slice_list}
use ngbigcache.Message.{NodeWireMessage}
use ngbigcache.Message.Json.{Json, ProposedPeer}
use ngbigcache.Message.Any.{NodeMessage}
use ngbigcache.Cache.Library.{Library}
use ngbigcache.Cache.Config.{default_config}
use ngbigcache.Cache.BigCache.{BigCache, new_big_cache}

-- What a node takes from outside: what a cache takes, the JSON encoder, `strconv.Itoa`, and the
-- address with the host of the first argument and the port of the second, which package net makes.
pub record Platform : Type 1 where
  pub lib : Library
  pub json : Json
  pub itoa : ℤ → Bytes
  pub service_address : Bytes → Bytes → Bytes

abbrev pub replication_mode_full_replicate : ℕ
replication_mode_full_replicate = 0

abbrev pub cluster_state_starting : ℕ
cluster_state_starting = 2

abbrev pub cluster_state_started : ℕ
cluster_state_started = 3

abbrev pub cluster_state_ended : ℕ
cluster_state_ended = 4

abbrev pub cluster_mode_active : ℕ
cluster_mode_active = 5

abbrev pub cluster_mode_passive : ℕ
cluster_mode_passive = 6

-- The states of a remote node.
pub data NodeState : Type 0 where
  connecting connected disconnected handshake : NodeState

abbrev pub is_disconnected : NodeState → Bool
is_disconnected disconnected = true
is_disconnected connecting = false
is_disconnected connected = false
is_disconnected handshake = false

abbrev pub is_handshake : NodeState → Bool
is_handshake handshake = true
is_handshake connecting = false
is_handshake connected = false
is_handshake disconnected = false

-- `remoteNodeConfig`
pub record RemoteNodeConfig : Type 0 where
  pub id : Bytes
  pub ip_address : Bytes
  pub ping_failure_threshold : ℤ
  pub ping_interval : ℤ
  pub ping_timeout : ℤ
  pub connect_retries : ℤ
  pub service_port : Bytes
  pub sync : Bool
  pub reconnect_on_disconnect : Bool

-- `nodeMetrics`
pub record NodeMetrics : Type 0 where
  pub ping_sent : ℕ
  pub ping_received : ℕ
  pub pong_sent : ℕ
  pub pong_received : ℕ
  pub dropped_msg : ℕ

-- `getRequestData`; the channels of a request are known by its number.
pub record GetRequestData : Type 0 where
  pub key : Bytes
  pub rand_str : Bytes
  pub number : ℕ

-- `remoteNode`; `pending_get` is `none` when it was set to nil, `timer_armed` tells whether the timer
-- `pingTimeout` runs, and `syncing` has the count of each goroutine of `handleVerifyOK`.
pub record RemoteNode : Type 0 where
  pub config : RemoteNodeConfig
  pub metrics : NodeMetrics
  pub inbound_msg_queue : List NodeWireMessage
  pub outbound_msg_queue : List NodeMessage
  pub state : NodeState
  pub ping_failure : ℕ
  pub pending_get : Option (List (Bytes × GetRequestData))
  pub mode : ℕ
  pub timer_armed : Bool
  pub syncing : List ℕ

-- `checkConfig` of a remote node, without its warning
unfoldable pub check_remote_config : RemoteNodeConfig → RemoteNodeConfig
check_remote_config c = record c {
  ping_interval = if ltb_ℤ c.ping_interval (pos 1) then pos 5 else c.ping_interval;
  ping_timeout = if ltb_ℤ c.ping_timeout (pos 1) then pos 3 else c.ping_timeout;
  ping_failure_threshold =
      if is_zero_ℤ c.ping_failure_threshold then pos 5 else c.ping_failure_threshold;
}

-- `newRemoteNode`
unfoldable pub new_remote_node : RemoteNodeConfig → RemoteNode
unfolding check_remote_config
new_remote_node c = record {
  config = check_remote_config c;
  metrics = record {
    ping_sent = 0;
    ping_received = 0;
    pong_sent = 0;
    pong_received = 0;
    dropped_msg = 0;
  };
  inbound_msg_queue = [];
  outbound_msg_queue = [];
  state = disconnected;
  ping_failure = 0;
  pending_get = some [];
  mode = 0;
  timer_armed = false;
  syncing = [];
}

-- `ClusteredBigCacheConfig`
pub record ClusterConfig : Type 0 where
  pub id : Bytes
  pub join : Bool
  pub join_ip : Bytes
  pub local_addresses : List Bytes
  pub local_port : ℤ
  pub bind_all : Bool
  pub connect_retries : ℤ
  pub terminate_on_listener_exit : Bool
  pub replication_mode : ℕ
  pub replication_factor : ℤ
  pub write_ack : Bool
  pub debug_mode : Bool
  pub debug_port : ℤ
  pub reconnect_on_disconnect : Bool
  pub ping_failure_threshold : ℤ
  pub ping_interval : ℤ
  pub ping_timeout : ℤ
  pub shard_size : ℤ

-- `DefaultClusterConfig`
unfoldable pub default_cluster_config : ClusterConfig
default_cluster_config = record {
  id = [];
  join = false;
  join_ip = [];
  local_addresses = [];
  local_port = pos 9911;
  bind_all = true;
  connect_retries = pos 5;
  terminate_on_listener_exit = false;
  replication_mode = replication_mode_full_replicate;
  replication_factor = pos 1;
  write_ack = true;
  debug_mode = false;
  debug_port = pos 0;
  reconnect_on_disconnect = false;
  ping_failure_threshold = pos 0;
  ping_interval = pos 0;
  ping_timeout = pos 0;
  shard_size = pos 0;
}

-- `ClusteredBigCache`; `selecting` has the numbers of the calls of `Get` that have not yet come to
-- their `select`, `waiting` those of the calls that wait in it for a reply, and
-- `replies` the replies that they were given;
-- `calls` counts the calls that asked the cluster; `closed` says that the channels are closed.
pub record Cluster (p : Platform) : Type 0 where
  pub config : ClusterConfig
  pub cache : Option (BigCache p.lib)
  pub remote_nodes : SliceList ℕ
  pub objects : List RemoteNode
  pub join_queue : List ProposedPeer
  pub pending_conn : List (Bytes × Bytes)
  pub get_request_chan : List (ℕ × GetRequestData)
  pub replication_chan : List (ℕ × NodeMessage)
  pub state : ℕ
  pub mode : ℕ
  pub selecting : List ℕ
  pub waiting : List ℕ
  pub replies : List (ℕ × Bytes)
  pub calls : ℕ
  pub closed : Bool

abbrev blank_cluster : (p : Platform) → ClusterConfig → Option (BigCache p.lib) → ℕ → Cluster p
blank_cluster p c cache mode = record {
  config = c;
  cache = cache;
  remote_nodes = new_slice_list ℕ;
  objects = [];
  join_queue = [];
  pending_conn = [];
  get_request_chan = [];
  replication_chan = [];
  state = cluster_state_starting;
  mode = mode;
  selecting = [];
  waiting = [];
  replies = [];
  calls = 0;
  closed = false;
}

-- `New`; a negative number of shards is less than 16
unfoldable pub new_cluster : (p : Platform) → ClusterConfig → Run (Cluster p)
new_cluster p c = do
  let shards = if ltb_ℤ c.shard_size (pos 16) then 16 else ngbigcache.Base.Int.pos_part c.shard_size
  made ← new_big_cache p.lib (record default_config { shards = shards }) false 259200
  elim made [ none ↦ panic | some cache ↦ ok (blank_cluster p c (some cache) cluster_mode_active) ]

-- `NewPassiveClient`
unfoldable pub new_passive_client : (p : Platform) → Bytes → Bytes → ℤ → ℤ → ℤ → ℤ → Cluster p
new_passive_client p id endpoint local_port ping_interval ping_timeout threshold =
    blank_cluster p
      (record default_cluster_config {
        id = id;
        join = true;
        join_ip = endpoint;
        reconnect_on_disconnect = true;
        local_port = local_port;
        ping_interval = ping_interval;
        ping_timeout = ping_timeout;
        ping_failure_threshold = threshold;
      })
      none cluster_mode_passive

module _ {p : Platform} where
  -- A read and a write through a pointer.
  unfoldable pub remote : Cluster p → ℕ → Run RemoteNode
  remote node r = elim (get_elem? node.objects r) [ none ↦ panic | some x ↦ ok x ]

  unfoldable pub set_remote : Cluster p → ℕ → RemoteNode → Cluster p
  set_remote node r x = record node { objects = set node.objects r x }

  -- `&remoteNode{...}`: a new object, whose pointer is the number of those before it.
  unfoldable pub new_object : Cluster p → RemoteNode → Cluster p × ℕ
  new_object node x = (record node { objects = node.objects ++ x ∷ [] }, length node.objects)

  -- Sends on the channel `joinQueue`; a send on a closed channel panics.
  unfoldable pub send_join : Cluster p → List ProposedPeer → Run (Cluster p)
  send_join node [] = ok node
  send_join node (peer ∷ peers) =
      if node.closed
      then panic
      else ok (record node { join_queue = node.join_queue ++ peer ∷ peers })
