-- ===== src/Cluster/Steps/Calls.antt =====
-- The calls of a user of a node of cluster/clusteredBigCache.go.
use ngbigcache.Base.{
  ℕ, not, ◌&&◌, ◌≡◌, refl, ap, Option, none, some, List, [], ◌∷◌, ◌++◌, ◌==◌, length, Bytes, ok,
  ◌>>=◌, Result, value, error, arith, inl, inr, Option-cases, Bool-cases, List-cases,
}
use ngbigcache.Base.Assoc as assoc
use ngbigcache.Base.Int.{ℤ}
use ngbigcache.Message.Any.{NodeMessage, del}
use ngbigcache.Utils.SliceList as slice_list
use ngbigcache.Cache.BigCache as big_cache
use ngbigcache.Cache.BigCache.{BigCache, set_entry}
use ngbigcache.Cache.Shard.{CacheError}
use ngbigcache.Cluster.Types.{
  Platform, Cluster, cluster_state_started, cluster_mode_active, cluster_mode_passive,
}
use ngbigcache.Cluster.Handlers.{member}
use ngbigcache.Cluster.Client.{
  ClusterError, GetProgress, answered, addressed, is_empty, active_peers, replicate_to_peers,
  store_locally, put_data, ask_peers, get_start, get_select, get_finish, delete,
}
use ngbigcache.Base.Returns.{Holds, Holds-bind, Holds-if, Holds-ok, Holds-option}
use ngbigcache.Cluster.Steps.Outcomes.{remote-bind}
use ngbigcache.Cluster.Steps.Numbers.{
  firsts, AreNumbers-ask, AreNumbers-select, AreNumbers-expire, AreNumbers-take,
}
use ngbigcache.Cluster.Steps.Sound.{After, cached-IsSound, AllBelow, AllBelow-append, IsSound}

firsts-addressed : {M : Type 0} (rs : List ℕ) (m : M) → firsts (addressed rs m) ≡ rs
firsts-addressed [] m = refl
firsts-addressed (r ∷ rs) m = ap (λ l. r ∷ l) (firsts-addressed rs m)

firsts-append : {M : Type 0} (s t : List (ℕ × M)) → firsts (s ++ t) ≡ firsts s ++ firsts t
firsts-append [] t = refl
firsts-append ((r, m) ∷ s) t = ap (λ l. r ∷ l) (firsts-append s t)

-- Messages for some remote nodes, after those in a channel.
AllBelow-send :
    {M : Type 0} (n : ℕ) (chan : List (ℕ × M)) (rs : List ℕ) (m : M)
    → AllBelow n (firsts chan)
    → AllBelow n rs
    → AllBelow n (firsts (chan ++ addressed rs m))
AllBelow-send n chan rs m h k =
    rw (firsts-append chan (addressed rs m), firsts-addressed rs m)
      (AllBelow-append n (firsts chan) rs h k)

module _ {p : Platform} where
  active_peers-AllBelow :
      (node : Cluster p) (n : ℕ) (rs : List ℕ)
      → AllBelow n rs
      → Holds (AllBelow n) (active_peers node rs)
  unfolding active_peers
  active_peers-AllBelow node n [] all = tt
  active_peers-AllBelow node n (r ∷ rest) all = remote-bind (AllBelow n) node r _ (λ x here.
      Holds-bind (AllBelow n) (active_peers node rest) _ (λ peers e.
        let below =
          Holds-ok (AllBelow n) (active_peers node rest) peers
            (active_peers-AllBelow node n rest all.1) e in
        ground (arith, below, all.0)))

  replicate_to_peers-IsSound :
      (node : Cluster p) (m : NodeMessage)
      → IsSound node
      → Holds IsSound (replicate_to_peers node m)
  unfolding replicate_to_peers
  replicate_to_peers-IsSound node m h =
      let rs = slice_list.values node.remote_nodes in
      Holds-bind IsSound (active_peers node rs) _ (λ peers e.
        Holds-if IsSound (node.closed && not (is_empty peers)) _ _ (λ _. tt)
          (λ _. record {
            gated = h.gated;
            listed = h.listed;
            counted = h.counted;
            replicating =
                AllBelow-send (length node.objects) node.replication_chan peers m h.replicating (
                  Holds-ok (AllBelow (length node.objects)) (active_peers node rs) peers
                    (active_peers-AllBelow node (length node.objects) rs h.listed) e);
            requesting = h.requesting;
            numbered = h.numbered;
            stored = h.stored;
          }))

  -- The same for the results of `store_locally`.
  abbrev Stored : Cluster p × ℕ × Option CacheError → Type 0
  Stored r = IsSound r.0

  store_locally-IsSound :
      (node : Cluster p) (key bytes : Bytes) (duration : ℤ) (epoch now : ℕ)
      → IsSound node
      → Holds Stored (store_locally node key bytes duration epoch now)
  unfolding store_locally
  store_locally-IsSound node key bytes duration epoch now h =
      Holds-if Stored (node.mode == cluster_mode_active) _ _
        (λ _.
          Holds-option Stored node.cache _ _ (λ _. tt)
            (λ cache _.
              Holds-bind Stored (set_entry cache key bytes duration epoch now) _
                (λ r _. cached-IsSound node r.0 h)))
        (λ _. Holds-if Stored (node.mode == cluster_mode_passive) _ _ (λ _. h) (λ _. h))

  pub put_data-IsSound :
      (node : Cluster p) (key bytes : Bytes) (duration : ℤ) (epoch now : ℕ)
      → IsSound node
      → Holds After (put_data node key bytes duration epoch now)
  unfolding put_data
  put_data-IsSound node key bytes duration epoch now h =
      Holds-if After (node.state == cluster_state_started) _ _
        (λ _. Holds-bind After (store_locally node key bytes duration epoch now) _ (λ stored e.
          let kept =
            Holds-ok Stored _ stored (store_locally-IsSound node key bytes duration epoch now h)
              e in
          Holds-option After stored.2 _ _
            (λ _.
              Holds-bind After (replicate_to_peers stored.0 _) _
                (λ sent g. Holds-ok IsSound _ sent (replicate_to_peers-IsSound stored.0 _ kept) g))
            (λ _ _. kept)))
        (λ _. h)

  pub delete-IsSound :
      (node : Cluster p) (key : Bytes) (now : ℕ) → IsSound node → Holds After (delete node key now)
  unfolding delete
  delete-IsSound node key now h =
      Holds-if After (node.state == cluster_state_started) _ _
        (λ _.
          Holds-if After (node.mode == cluster_mode_active) _ _
            (λ _.
              Holds-option After node.cache _ _ (λ _. tt)
                (λ cache _. Holds-bind After (big_cache.delete cache key now) _ (λ r _.
                  passed_on (record node { cache = some r.0 }) (cached-IsSound node r.0 h))))
            (λ _. passed_on node h))
        (λ _. h)
    where
      passed_on :
          (left : Cluster p)
          → IsSound left
          → Holds (After {A = Option ClusterError}) (do
            sent ← replicate_to_peers left (del (record { code = 0; key = key }))
            ok (sent, none))
      passed_on left k =
          Holds-bind After (replicate_to_peers left _) _
            (λ sent g. Holds-ok IsSound _ sent (replicate_to_peers-IsSound left _ k) g)

  ask_peers-IsSound :
      (node : Cluster p) (key rand_str : Bytes)
      → IsSound node
      → Holds After (ask_peers node key rand_str)
  unfolding ask_peers
  ask_peers-IsSound node key rand_str h = elim (List-cases (slice_list.values node.remote_nodes)) [
    | inl e ↦ rw (ask_peers, e) h
    | inr (r, rest, e) ↦
        rw (ask_peers, e)
          (Holds-bind After (active_peers node (r ∷ rest)) _ (λ peers f.
            Holds-if After (node.closed && not (is_empty peers)) _ _ (λ _. tt)
              (λ _. record {
                gated = h.gated;
                listed = h.listed;
                counted = h.counted;
                replicating = h.replicating;
                requesting =
                    AllBelow-send (length node.objects) node.get_request_chan peers _ h.requesting (
                      Holds-ok (AllBelow (length node.objects)) (active_peers node (r ∷ rest)) peers
                        (active_peers-AllBelow node (length node.objects) (r ∷ rest)
                          (rw e at h.listed))
                        f);
                numbered =
                    AreNumbers-ask node.calls
                      (node.selecting ++ (node.waiting ++ firsts node.replies)) h.numbered;
                stored = h.stored;
              })))
  ]

  pub get_start-IsSound :
      (node : Cluster p) (key rand_str : Bytes)
      → IsSound node
      → Holds After (get_start node key rand_str)
  unfolding get_start
  get_start-IsSound node key rand_str h =
      Holds-if After (node.state == cluster_state_started) _ _
        (λ _.
          Holds-if After (node.mode == cluster_mode_active) _ _
            (λ _.
              Holds-option After node.cache _ _ (λ _. tt)
                (λ cache _.
                  Holds-bind After (big_cache.get cache key) _ (λ got _. looked got.0 got.1)))
            (λ _. ask_peers-IsSound node key rand_str h))
        (λ _. h)
    where
      looked :
          (cache : BigCache p.lib) (got : Result CacheError Bytes)
          → Holds (After {A = GetProgress}) (elim got [
            | value bytes ↦ ok (record node { cache = some cache }, answered (value bytes))
            | error e ↦ ask_peers (record node { cache = some cache }) key rand_str
          ])
      looked cache (value bytes) = cached-IsSound node cache h
      looked cache (error e) =
          ask_peers-IsSound (record node { cache = some cache }) key rand_str
            (cached-IsSound node cache h)

  pub get_select-IsSound :
      (node : Cluster p) (number : ℕ) → IsSound node → IsSound (get_select node number)
  unfolding get_select
  get_select-IsSound node number h = elim (Bool-cases (member number node.selecting)) [
    | inr f ↦ rw (get_select, f) h
    | inl t ↦
        rw (get_select, t)
          (record {
            gated = h.gated;
            listed = h.listed;
            counted = h.counted;
            replicating = h.replicating;
            requesting = h.requesting;
            numbered =
                AreNumbers-select node.calls number node.selecting
                  (node.waiting ++ firsts node.replies) t h.numbered;
            stored = h.stored;
          })
  ]

  pub get_finish-IsSound :
      (node : Cluster p) (number : ℕ) → IsSound node → IsSound (get_finish node number).0
  unfolding get_finish
  get_finish-IsSound node number h = elim (Option-cases (assoc.get node.replies number)) [
    | inl e ↦
        rw (get_finish, e)
          (record {
            gated = h.gated;
            listed = h.listed;
            counted = h.counted;
            replicating = h.replicating;
            requesting = h.requesting;
            numbered =
                AreNumbers-expire node.calls number node.selecting node.waiting
                  (firsts node.replies) h.numbered;
            stored = h.stored;
          })
    | inr (bytes, e) ↦
        rw (get_finish, e)
          (record {
            gated = h.gated;
            listed = h.listed;
            counted = h.counted;
            replicating = h.replicating;
            requesting = h.requesting;
            numbered =
                AreNumbers-take node.calls number node.selecting node.waiting node.replies
                  h.numbered;
            stored = h.stored;
          })
  ]
