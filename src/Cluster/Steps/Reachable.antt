-- ===== src/Cluster/Steps/Reachable.antt =====
-- What holds of every node of cluster/clusteredBigCache.go that comes of a new one by steps.
use ngbigcache.Base.{refl, subst, false, arith}
use ngbigcache.Utils.SliceList as slice_list
use ngbigcache.Utils.SliceList.{new_slice_list}
use ngbigcache.Cache.BigCache.{new_big_cache}
use ngbigcache.Cluster.Types.{Platform, Cluster, ClusterConfig, new_cluster, new_passive_client}
use ngbigcache.Cluster.Membership.{note_pending}
use ngbigcache.Cluster.Steps.{
  Step, starts, shuts_down, puts, deletes, asks, selects, finishes, requests, replicates, accepts,
  proposes, notes, joins, handles, turns, leaves, Reach, here, next, Fresh, made, passive,
}
use ngbigcache.Base.Returns.{Holds, Holds-bind, Holds-option, Holds-ok}
use ngbigcache.Cluster.Steps.Sound.{After, IsSound}
use ngbigcache.Cluster.Steps.Calls.{
  put_data-IsSound, delete-IsSound, get_start-IsSound, get_finish-IsSound, get_select-IsSound,
}
use ngbigcache.Cluster.Steps.Channels.{request_round-IsSound, replication_round-IsSound}
use ngbigcache.Cluster.Steps.Turns.{turns-IsSound}
use ngbigcache.Cluster.Steps.Verifies.{tear_down-IsSound}
use ngbigcache.Cluster.Steps.Rounds.{message_round-IsSound}
use ngbigcache.Cluster.Steps.Members.{
  start-IsSound, shut_down-IsSound, accept_round-IsSound, take_proposal-IsSound, join_round-IsSound,
}

new_cluster-IsSound : (p : Platform) (c : ClusterConfig) → Holds (IsSound {p = p}) (new_cluster p c)
unfolding new_cluster slice_list.values new_slice_list
new_cluster-IsSound p c = Holds-bind IsSound (new_big_cache p.lib _ false 259200) _ (λ made _.
    Holds-option IsSound made _ _ (λ _. tt)
      (λ cache _. record {
        gated = tt;
        listed = tt;
        counted = (refl, tt);
        replicating = tt;
        requesting = tt;
        numbered = λ n. ground arith;
        stored = λ _. refl;
      }))

module _ {p : Platform} where
  Fresh-IsSound : (node : Cluster p) → Fresh node → IsSound node
  unfolding new_passive_client slice_list.values new_slice_list
  Fresh-IsSound node (made c e) = Holds-ok IsSound _ node (new_cluster-IsSound p c) e
  Fresh-IsSound node (passive id endpoint local_port ping_interval ping_timeout threshold e) =
      subst IsSound e (record {
        gated = tt;
        listed = tt;
        counted = (refl, tt);
        replicating = tt;
        requesting = tt;
        numbered = λ n. ground arith;
        stored = λ f. absurd (cc);
      })

  Step-IsSound : (node after : Cluster p) → Step node after → IsSound node → IsSound after
  unfolding note_pending
  Step-IsSound node after (starts g port x e) h =
      Holds-ok After _ (after, x) (start-IsSound node g port h) e
  Step-IsSound node after (shuts_down e) h = Holds-ok IsSound _ after (shut_down-IsSound node h) e
  Step-IsSound node after (puts key bytes d epoch now x e) h =
      Holds-ok After _ (after, x) (put_data-IsSound node key bytes d epoch now h) e
  Step-IsSound node after (deletes key now x e) h =
      Holds-ok After _ (after, x) (delete-IsSound node key now h) e
  Step-IsSound node after (asks key rand_str x e) h =
      Holds-ok After _ (after, x) (get_start-IsSound node key rand_str h) e
  Step-IsSound node after (selects n e) h = subst IsSound e (get_select-IsSound node n h)
  Step-IsSound node after (finishes n x e) h =
      subst (λ (r : Cluster p × _). IsSound r.0) e (get_finish-IsSound node n h)
  Step-IsSound node after (requests k five e) h =
      Holds-ok IsSound _ after (request_round-IsSound node k h) e
  Step-IsSound node after (replicates k five e) h =
      Holds-ok IsSound _ after (replication_round-IsSound node k h) e
  Step-IsSound node after (accepts n c x e) h =
      Holds-ok After _ (after, x) (accept_round-IsSound node n c h) e
  Step-IsSound node after (proposes x e) h =
      Holds-ok After _ (after, x) (take_proposal-IsSound node h) e
  Step-IsSound node after (notes value e) h = subst IsSound e h
  Step-IsSound node after (joins r tries c x y at new e) h =
      Holds-ok After _ (after, y) (join_round-IsSound node r tries c x at new h) e
  Step-IsSound node after (handles r remaining epoch now x e) h =
      Holds-ok After _ (after, x) (message_round-IsSound node r remaining epoch now h) e
  Step-IsSound node after (turns r x y at turn e) h =
      subst IsSound e (turns-IsSound node r x y at turn h)
  Step-IsSound node after (leaves r e) h = Holds-ok IsSound _ after (tear_down-IsSound node r h) e

  -- At every node that comes of a new one by steps, in any order: what is in the list of remote nodes
  -- and in the two channels is a remote node, the counter of the list is the number of its identities
  -- and these are distinct, only verifications wait at a remote node in the handshake and
  -- nothing at one that is being connected to, the numbers of the calls of `Get` that have not come to
  -- their `select`, wait in it or were answered are distinct numbers of earlier calls, and an active node has a cache.
  pub reached-IsSound : (first node : Cluster p) → Fresh first → Reach first node → IsSound node
  reached-IsSound first node new here = Fresh-IsSound node new
  reached-IsSound first node new (next {node = before} run step) =
      Step-IsSound before node step (reached-IsSound first before new run)
