-- ===== src/Cluster/Client.antt =====
-- cluster/clusteredBigCache.go: the calls of a user of the node, and the goroutines that pass on what
-- they put into the channels.
--
-- A call of `Get` that asks the cluster has a number. It sends its requests, comes to its `select`, before
-- which a reply to it is lost, and ends when a reply was given to it or when
-- its time is over.
pub mod Replicate
pub mod Replica
pub mod Closed
pub mod Delivery
pub mod Replies
use ngbigcache.Base.{
  ℕ, ◌+◌, ◌%◌, ◌^◌, Bool, true, false, not, ◌&&◌, get_elem?, remove_at, Option, none, some, List,
  [], ◌∷◌, ◌++◌, ◌==◌, if◌then◌else◌, Bytes, Run, ok, panic, ◌>>=◌, Result, value, error,
}
use ngbigcache.Base.Int.{ℤ, is_zero_ℤ}
use ngbigcache.Base.Assoc as assoc
use ngbigcache.Utils.SliceList as slice_list
use ngbigcache.Message.Any.{NodeMessage, put, del}
use ngbigcache.Cache.Config.{Stats}
use ngbigcache.Cache.Shard.{CacheError}
use ngbigcache.Cache.BigCache as big_cache
use ngbigcache.Cluster.Types.{
  Platform, Cluster, RemoteNode, GetRequestData, cluster_state_started, cluster_mode_active,
  cluster_mode_passive, remote, set_remote,
}
use ngbigcache.Cluster.Queues.{send_message}
use ngbigcache.Cluster.Handlers.{get_data, member, without}

-- The errors of the package, and those of the cache.
pub data ClusterError : Type 0 where
  not_found timed_out not_started : ClusterError
  cache_error : CacheError → ClusterError

-- What a call of `Get` has come to: its result, or its number where it waits.
pub data GetProgress : Type 0 where
  answered : Result ClusterError Bytes → GetProgress
  waits : ℕ → GetProgress

abbrev pub addressed : {M : Type 0} → List ℕ → M → List (ℕ × M)
addressed [] m = []
addressed (r ∷ rest) m = (r, m) ∷ addressed rest m

abbrev pub is_empty : List ℕ → Bool
is_empty [] = true
is_empty (r ∷ rest) = false

module _ {p : Platform} where
  -- The remote nodes among these that are not passive.
  unfoldable pub active_peers : Cluster p → List ℕ → Run (List ℕ)
  active_peers node [] = ok []
  active_peers node (r ∷ rest) = do
    x ← remote node r
    peers ← active_peers node rest
    ok (if x.mode == cluster_mode_passive then peers else r ∷ peers)

  -- The loop of `Put` and of `Delete` over the remote nodes; the first send on a closed channel panics.
  unfoldable pub replicate_to_peers : Cluster p → NodeMessage → Run (Cluster p)
  unfolding active_peers
  replicate_to_peers node m = do
    peers ← active_peers node (slice_list.values node.remote_nodes)
    if node.closed && not (is_empty peers)
        then panic
        else ok (record node { replication_chan = node.replication_chan ++ addressed peers m })

  -- The first part of `Put`: the time of expiry, or the error of the cache.
  unfoldable pub store_locally :
      Cluster p → Bytes → Bytes → ℤ → ℕ → ℕ → Run (Cluster p × ℕ × Option CacheError)
  store_locally node key bytes duration epoch now =
      if node.mode == cluster_mode_active
      then elim node.cache [
        | none ↦ panic
        | some cache ↦ do
          r ← big_cache.set_entry cache key bytes duration epoch now
          ok (record node { cache = some r.0 }, r.1, r.2)
      ]
      else if node.mode == cluster_mode_passive
      then ok
          (node, if is_zero_ℤ duration then 0 else (now + p.lib.seconds duration) % 2 ^ 64, none)
      else ok (node, 0, none)

  -- `Put`
  unfoldable pub put_data :
      Cluster p → Bytes → Bytes → ℤ → ℕ → ℕ → Run (Cluster p × Option ClusterError)
  unfolding store_locally replicate_to_peers
  put_data node key bytes duration epoch now =
      if node.state == cluster_state_started
      then (do
        stored ← store_locally node key bytes duration epoch now
        elim stored.2 [
          | some e ↦ ok (stored.0, some (cache_error e))
          | none ↦ do
            sent ←
                replicate_to_peers stored.0
                  (put (record { code = 0; key = key; contents = bytes; expiry = stored.1 }))
            ok (sent, none)
        ])
      else ok (node, some not_started)

  -- The part of `Get` that asks the cluster.
  unfoldable pub ask_peers : Cluster p → Bytes → Bytes → Run (Cluster p × GetProgress)
  unfolding active_peers
  ask_peers node key rand_str =
      let values = slice_list.values node.remote_nodes in
      let req : GetRequestData = record { key = key; rand_str = rand_str; number = node.calls } in
      elim values [
        | [] ↦ ok (node, answered (error not_found))
        | r ∷ rest ↦ do
          peers ← active_peers node (r ∷ rest)
          if node.closed && not (is_empty peers)
              then panic
              else ok (
                record node {
                  get_request_chan = node.get_request_chan ++ addressed peers req;
                  selecting = node.calls ∷ node.selecting;
                  calls = node.calls + 1;
                },
                waits node.calls,
              )
      ]

  -- `Get` up to its `select`; `rand_str` is the random text of the call.
  unfoldable pub get_start : Cluster p → Bytes → Bytes → Run (Cluster p × GetProgress)
  unfolding ask_peers
  get_start node key rand_str =
      if node.state == cluster_state_started
      then (if node.mode == cluster_mode_active
          then elim node.cache [
            | none ↦ panic
            | some cache ↦ do
              got ← big_cache.get cache key
              let node' : Cluster p = record node { cache = some got.0 }
              elim got.1 [
                | value bytes ↦ ok (node', answered (value bytes))
                | error e ↦ ask_peers node' key rand_str
              ]
          ]
          else ask_peers node key rand_str)
      else ok (node, answered (error not_started))

  -- `Get` comes to its `select`, and from then on takes a reply.
  unfoldable pub get_select : Cluster p → ℕ → Cluster p
  get_select node number =
      if member number node.selecting
      then record node {
        selecting = without number node.selecting;
        waiting = number ∷ node.waiting;
      }
      else node

  -- The end of the `select` of `Get`, where its time is over if there is no reply.
  unfoldable pub get_finish : Cluster p → ℕ → Cluster p × Result ClusterError Bytes
  get_finish node number = elim (assoc.get node.replies number) [
    | some bytes ↦ (record node { replies = assoc.remove node.replies number }, value bytes)
    | none ↦ (record node { waiting = without number node.waiting }, error timed_out)
  ]

  -- `Delete`
  unfoldable pub delete : Cluster p → Bytes → ℕ → Run (Cluster p × Option ClusterError)
  unfolding replicate_to_peers
  delete node key now =
      let replicated : Cluster p → Run (Cluster p × Option ClusterError) = λ left. (do
        sent ← replicate_to_peers left (del (record { code = 0; key = key }))
        ok (sent, none)) in
      if node.state == cluster_state_started
      then (if node.mode == cluster_mode_active
          then elim node.cache [
            | none ↦ panic
            | some cache ↦ do
              r ← big_cache.delete cache key now
              replicated (record node { cache = some r.0 })
          ]
          else replicated node)
      else ok (node, some not_started)

  -- What the text of `Statistics` is about; `none` is the text of a passive node.
  unfoldable pub statistics : Cluster p → Run (Option Stats)
  statistics node =
      if node.mode == cluster_mode_active
      then elim node.cache [ none ↦ panic | some cache ↦ ok (some (big_cache.stats cache)) ]
      else ok none

  -- A round of one of the five goroutines of `requestSenderForGET`, and of `replication`. The list
  -- has the messages that are not yet sent, those that a goroutine has taken among them. A goroutine
  -- takes the first message of the channel, so that those it and the other four have taken
  -- are among the first five, and any of these may be sent next: the one at the position `k`.
  unfoldable pub request_round : Cluster p → ℕ → Run (Cluster p)
  unfolding get_data
  request_round node k = elim (get_elem? node.get_request_chan k) [
    | none ↦ ok node
    | some (r, req) ↦ do
      x ← remote node r
      y ← get_data x req
      ok (set_remote (record node { get_request_chan = remove_at k node.get_request_chan }) r y)
  ]

  unfoldable pub replication_round : Cluster p → ℕ → Run (Cluster p)
  unfolding send_message
  replication_round node k = elim (get_elem? node.replication_chan k) [
    | none ↦ ok node
    | some (r, m) ↦ do
      x ← remote node r
      ok (
          set_remote (record node { replication_chan = remove_at k node.replication_chan }) r
            (send_message x m))
  ]
