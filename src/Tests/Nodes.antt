-- ===== src/Tests/Nodes.antt =====
-- A node with two remote nodes, of which the second is passive, and a third in the handshake.
use ngbigcache.Base.{ℕ, true, false, some, [], ◌∷◌, ◌++◌, Bytes}
use ngbigcache.Base.Int.{pos, pos_part}
use ngbigcache.Cluster.Types.{
  Platform, Cluster, RemoteNode, NodeState, connected, handshake, default_cluster_config,
}
use ngbigcache.Tests.Cache.{library}
use ngbigcache.Tests.Json.{sample_json}
use ngbigcache.Tests.Refines.{one_cache}

abbrev pub platform : Platform
platform = record {
  lib = library;
  json = sample_json;
  itoa = λ n. pos_part n ∷ [];
  service_address = λ a b. a ++ 58 ∷ b;
}

abbrev pub peer : Bytes → NodeState → ℕ → RemoteNode
peer id state mode = record {
  config = record {
    id = id;
    ip_address = 49 ∷ [];
    ping_failure_threshold = pos 3;
    ping_interval = pos 5;
    ping_timeout = pos 3;
    connect_retries = pos 2;
    service_port = [];
    sync = false;
    reconnect_on_disconnect = true;
  };
  metrics = record {
    ping_sent = 0;
    ping_received = 0;
    pong_sent = 0;
    pong_received = 0;
    dropped_msg = 0;
  };
  inbound_msg_queue = [];
  outbound_msg_queue = [];
  state = state;
  ping_failure = 0;
  pending_get = some [];
  mode = mode;
  timer_armed = false;
  syncing = [];
}

abbrev pub first : RemoteNode
first = peer (1 ∷ []) connected 5

abbrev pub second : RemoteNode
second = peer (2 ∷ []) connected 6

abbrev pub third : RemoteNode
third = peer [] handshake 0

abbrev pub node : Cluster platform
node = record {
  config = default_cluster_config;
  cache = some one_cache;
  remote_nodes = record { items = (1 ∷ [], 0) ∷ (2 ∷ [], 1) ∷ []; size = 2 };
  objects = first ∷ second ∷ third ∷ [];
  join_queue = [];
  pending_conn = [];
  get_request_chan = [];
  replication_chan = [];
  state = 3;
  mode = 5;
  selecting = [];
  waiting = [];
  replies = [];
  calls = 0;
  closed = false;
}
