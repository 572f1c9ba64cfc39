-- ===== src/Tests/Steps.antt =====
-- A new node that a remote node connects to, step by step.
use mathlib.Core.Option.{some-injective}
use ngbigcache.Base.Dict as dict
use ngbigcache.Utils.SliceList as slice_list
use ngbigcache.Message.Json.{deserialize_verify}
use ngbigcache.Message.Any.{put}
use ngbigcache.Cluster.Handlers.{dispatch}
use ngbigcache.Cluster.Client.{put_data}
use ngbigcache.Cluster.Client.Replicate.{replication, IsOrder}
use ngbigcache.Cluster.Types.{cluster_mode_passive, is_disconnected}
use ngbigcache.Cluster.Steps.Sound.{IsSound}
use ngbigcache.Cluster.Steps.Reachable.{reached-IsSound}
use ngbigcache.Cluster.Steps.Handshake.{SameData, handshake-SameData}
use ngbigcache.Cluster.Steps.Replicated.{put_data-queues}
use ngbigcache.Cache.Shard.{Shard, expiry_timestamp}
use ngbigcache.Cache.BigCache.Abstract.{Represents}
use ngbigcache.Cache.BigCache.Refines.{new_big_cache-Represents}
use ngbigcache.Cache.BigCache.Runs.{HasRoom, with_entry}
use ngbigcache.Queue.BytesQueue.{new_bytes_queue}
use ngbigcache.Tests.Cache.{key_bytes, value_bytes}
use ngbigcache.Tests.Refines.{one_cache}
use ngbigcache.Base.{
  ok-injective, ◌+◌, ◌*◌, ◌^◌, ◌≤◌, ◌≢◌, ◌∙◌, sym, subst, Bool, length, In, arith, ℕ, ◌≡◌, refl,
  true, false, Option, some, none, List, [], ◌∷◌, Run, ok, panic, blocked,
}
use ngbigcache.Base.Int.{pos}
use ngbigcache.Cache.Config.{
  default_config, is_power_of_two, maximum_shard_size, initial_shard_size,
}
use ngbigcache.Cache.Shard.{init_new_shard}
use ngbigcache.Utils.SliceList.{new_slice_list}
use ngbigcache.Cache.BigCache.{BigCache, new_big_cache}
use ngbigcache.Message.{NodeWireMessage, msg_verify}
use ngbigcache.Cluster.Types.{
  Cluster, RemoteNode, default_cluster_config, new_cluster, new_object, new_remote_node, remote,
  set_remote,
}
use ngbigcache.Cluster.Queues.{queue_inbound_message, set_state}
use ngbigcache.Cluster.Membership.{start, accept_round, check_config, join_and_start, start_remote}
use ngbigcache.Cluster.Handlers.{message_round}
use ngbigcache.Cluster.Verify.Admission.{IsRemote}
use ngbigcache.Cluster.Steps.{
  Step, starts, accepts, turns, handles, arrives, Reach, here, next, Fresh, made,
}
use ngbigcache.Tests.Cache.{library}
use ngbigcache.Tests.Nodes.{platform, first}

-- The value that a call returns.
abbrev returned : {A : Type 0} → A → Run A → A
returned a (ok b) = b
returned a panic = a
returned a blocked = a

-- A node without remote nodes.
abbrev alone : Option (BigCache library) → Cluster platform
alone cache = record {
  config = default_cluster_config;
  cache = cache;
  remote_nodes = new_slice_list ℕ;
  objects = [];
  join_queue = [];
  pending_conn = [];
  get_request_chan = [];
  replication_chan = [];
  state = 2;
  mode = 5;
  selecting = [];
  waiting = [];
  replies = [];
  calls = 0;
  closed = false;
}

abbrev empty_cache : Option (BigCache library)
empty_cache = returned none (new_big_cache library default_config false 259200)

alone-Fresh : Fresh (alone empty_cache)
unfolding new_cluster new_big_cache default_cluster_config default_config is_power_of_two
    maximum_shard_size init_new_shard initial_shard_size
alone-Fresh = made default_cluster_config refl

module _ (cache : Option (BigCache library)) where
  abbrev started : Cluster platform
  started = (returned (alone cache, none) (start (alone cache) (7 ∷ []) (some (pos 9911)))).0

  started-Step : Step (alone cache) started
  unfolding start check_config join_and_start default_cluster_config
  started-Step = starts (7 ∷ []) (some (pos 9911)) none refl

  -- A remote node connects.
  abbrev accepted : Cluster platform
  accepted = (returned (alone cache, none) (accept_round started 0 (some (49 ∷ [])))).0

  accepted-Step : Step started accepted
  unfolding accept_round new_object new_remote_node set_state start_remote remote set_remote start
      check_config join_and_start default_cluster_config
  accepted-Step = accepts 0 (some (49 ∷ [])) (some 0) refl

  -- It sends its identity, which is handled.
  abbrev identity : NodeWireMessage
  identity = record { code = msg_verify; contents = 5 ∷ 1 ∷ 0 ∷ 8 ∷ 57 ∷ [] }

  abbrev shaking : RemoteNode
  shaking = returned first (remote accepted 0)

  abbrev arrived : Cluster platform
  arrived = set_remote accepted 0 (queue_inbound_message shaking identity)

  arrived-Step : Step accepted arrived
  unfolding accept_round new_object new_remote_node set_state start_remote remote set_remote start
      check_config join_and_start default_cluster_config
  arrived-Step =
      turns 0 shaking (queue_inbound_message shaking identity) refl (arrives identity refl refl)
        refl

  abbrev verified : Cluster platform
  verified = (returned (alone cache, true) (message_round arrived 0 (λ t. pos t) 1000 1000)).0

  verified-Step : Step arrived verified
  unfolding accept_round new_object new_remote_node set_state start_remote remote set_remote start
      check_config join_and_start default_cluster_config message_round queue_inbound_message
      dispatch deserialize_verify slice_list.contains dict.load new_slice_list
  verified-Step = handles 0 (λ t. pos t) 1000 1000 true refl

  verified-Reach : Reach (alone cache) verified
  verified-Reach =
      next (next (next (next here started-Step) accepted-Step) arrived-Step) verified-Step

reached-IsSound_example : IsSound (verified empty_cache)
reached-IsSound_example =
    reached-IsSound (alone empty_cache) (verified empty_cache) alone-Fresh
      (verified-Reach empty_cache)

arrived-Reach : Reach (alone empty_cache) (arrived empty_cache)
arrived-Reach =
    next (next (next here (started-Step empty_cache)) (accepted-Step empty_cache))
      (arrived-Step empty_cache)

handshake-SameData_example :
    (done : Cluster platform × Bool) × (message_round (arrived empty_cache) 0 (λ t. pos t) 1000 1000
      ≡ ok done)
    × SameData (arrived empty_cache) done.0
unfolding accept_round new_object new_remote_node set_state start_remote remote set_remote start
    check_config join_and_start default_cluster_config queue_inbound_message
handshake-SameData_example =
    handshake-SameData (alone empty_cache) (arrived empty_cache) 0
      (queue_inbound_message (shaking empty_cache) (identity empty_cache)) (λ t. pos t) 1000 1000
      alone-Fresh arrived-Reach refl refl

abbrev made_cache : BigCache library
made_cache = elim empty_cache [ none ↦ one_cache | some cache ↦ cache ]

made_cache_eq : new_big_cache library default_config false 259200 ≡ ok (some made_cache)
unfolding new_big_cache default_config is_power_of_two maximum_shard_size init_new_shard
    initial_shard_size
made_cache_eq = refl

made_cache-Represents : Represents made_cache (λ hash. none)
unfolding default_config is_power_of_two
made_cache-Represents =
    let (cache, e, represents) =
      new_big_cache-Represents library default_config false 259200 (omega arith) (omega arith) refl
        (omega arith) in
    subst (λ c. Represents c (λ hash. none))
      (some-injective cache made_cache (ok-injective _ _ (sym e ∙ made_cache_eq))) represents

made_cache-HasRoom : HasRoom made_cache key_bytes value_bytes
unfolding new_big_cache default_config is_power_of_two maximum_shard_size init_new_shard
    initial_shard_size new_bytes_queue
made_cache-HasRoom s at =
    subst
      (λ (x : Shard library).
        (x.entries.max_capacity ≡ 0)
        × ((x.entries.capacity + (2 + 18 + length key_bytes + 4)) * 2 ≤ 2 ^ 32))
      (some-injective _ s at) (refl, omega arith)

put_data-queues_example :
    (sent : Cluster platform) × (cache' : BigCache library) × (put_data
        (verified empty_cache)
        key_bytes
        value_bytes
        (pos 1)
        1000
        1000
      ≡ ok (sent, none))
    × (sent.cache ≡ some cache')
    × Represents cache' (with_entry library (λ hash. none) key_bytes value_bytes)
    × ((ks : List ℕ)
        → IsOrder ks (length sent.replication_chan)
        → (left : Cluster platform) × (replication ks sent ≡ ok left)
          × ((r : ℕ) (x : RemoteNode)
              → In r (slice_list.values (verified empty_cache).remote_nodes)
              → IsRemote (verified empty_cache) r x
              → x.mode ≢ cluster_mode_passive
              → is_disconnected x.state ≡ false
              → (y : RemoteNode) × IsRemote left r y
                × In
                    (put (record {
                      code = 0;
                      key = key_bytes;
                      contents = value_bytes;
                      expiry = expiry_timestamp library (pos 1) 1000;
                    }))
                    y.outbound_msg_queue))
unfolding accept_round start new_big_cache message_round remote set_remote default_cluster_config
    queue_inbound_message dispatch deserialize_verify slice_list.contains dict.load new_slice_list
    is_power_of_two default_config maximum_shard_size init_new_shard initial_shard_size
put_data-queues_example =
    put_data-queues (alone empty_cache) (verified empty_cache) alone-Fresh
      (verified-Reach empty_cache) made_cache (λ hash. none) key_bytes value_bytes (pos 1) 1000 1000
      refl refl refl refl made_cache-Represents (omega arith) made_cache-HasRoom
