-- ===== src/Cluster/Steps/Members.antt =====
-- How a node of cluster/clusteredBigCache.go starts and stops, and how it comes to its remote nodes.
use ngbigcache.Base.{
  ℕ, ◌+◌, ◌≡◌, ◌∙◌, refl, ap, subst, sym, Bool, false, Option, none, some, List, [], ◌∷◌, ◌++◌,
  ◌==◌, if◌then◌else◌, ltb, length, Bytes, eq_bytes, ok, get_elem?,
}
use mathlib.Core.Option.{some-injective}
use ngbigcache.Base.Dict as dict
use ngbigcache.Base.Int.{ℤ, pos, ltb_ℤ}
use ngbigcache.Utils.SliceList as slice_list
use ngbigcache.Cluster.Types.{
  Platform, Cluster, RemoteNode, connecting, handshake, new_remote_node, new_object, set_remote,
  cluster_state_started, cluster_state_ended,
}
use ngbigcache.Cluster.Queues.{set_state}
use ngbigcache.Cluster.Ping.{start_ping}
use ngbigcache.Cluster.Verify.{send_verify, event_unable_to_connect, tear_down}
use ngbigcache.Cluster.Membership.{
  StartError, gives_up, check_config, start_remote, join, join_round, join_cluster, join_and_start,
  start, shut_down_nodes, shut_down, accept_round, take_proposal,
}
use ngbigcache.Cluster.Verify.Admission.{IsRemote}
use ngbigcache.Base.Returns.{
  Holds, Holds-bind, Holds-if, Holds-ok, Holds-option, Holds-list, if-both,
}
use ngbigcache.Cluster.Steps.Outcomes.{remote-bind}
use ngbigcache.Cluster.Steps.Sound.{
  After, AllVerify, IsGated, Gated, AllGated-get, IsSound, set_remote-IsSound, new_object-IsSound,
  send_message-IsGated,
}
use ngbigcache.Cluster.Steps.Verifies.{tear_down-IsSound}

get_elem?-last :
    (xs : List RemoteNode) (y x : RemoteNode)
    → get_elem? (xs ++ y ∷ []) (length xs) ≡ some x
    → y ≡ x
get_elem?-last [] y x e = some-injective _ _ e
get_elem?-last (z ∷ xs) y x e = get_elem?-last xs y x e

module _ {p : Platform} where
  start_remote-IsSound :
      (node : Cluster p) (r : ℕ) → IsSound node → Holds IsSound (start_remote node r)
  unfolding start_remote start_ping send_verify
  start_remote-IsSound node r h = remote-bind IsSound node r _ (λ x here.
      set_remote-IsSound node r (send_verify node (start_ping x)) h (
        send_message-IsGated _ _
          (send_message-IsGated _ _ (AllGated-get node.objects r x h.gated here))))

  -- `join` of an object that was just made.
  join-IsSound :
      (node : Cluster p) (y : RemoteNode)
      → y.inbound_msg_queue ≡ []
      → IsGated y
      → IsSound node
      → Holds IsSound (join (new_object node y).0 (new_object node y).1)
  unfolding join set_state new_object
  join-IsSound node y empty g h =
      let made = new_object-IsSound node y h g in
      remote-bind IsSound (new_object node y).0 (length node.objects) _ (λ x here.
        set_remote-IsSound (new_object node y).0 (length node.objects) (set_state x connecting) made
          (subst (λ (z : RemoteNode). z.inbound_msg_queue ≡ [])
            (get_elem?-last node.objects y x here) empty))

  join_cluster-IsSound : (node : Cluster p) → IsSound node → Holds After (join_cluster node)
  unfolding join_cluster new_remote_node
  join_cluster-IsSound node h =
      Holds-if After (eq_bytes node.config.join_ip []) _ _ (λ _. h)
        (λ _.
          Holds-bind After (join _ _) _
            (λ joined e. Holds-ok IsSound _ joined (join-IsSound node _ refl tt h) e))

  joins-IsSound :
      (node : Cluster p)
      → IsSound node
      → Holds
          (After {A = Option StartError})
          (if node.config.join then join_cluster node else ok (node, none))
  joins-IsSound node h =
      Holds-if After node.config.join (join_cluster node) _ (λ _. join_cluster-IsSound node h)
        (λ _. h)

  join_and_start-IsSound : (node : Cluster p) → IsSound node → Holds After (join_and_start node)
  unfolding join_and_start
  join_and_start-IsSound node h =
      Holds-bind After (if node.config.join then join_cluster node else ok (node, none)) _
        (λ joined e.
          let kept = Holds-ok After _ joined (joins-IsSound node h) e in
          Holds-option After joined.1 _ _ (λ _. kept) (λ _ _. kept))

  pub start-IsSound :
      (node : Cluster p) (generated : Bytes) (port : Option ℤ)
      → IsSound node
      → Holds After (start node generated port)
  unfolding start check_config
  start-IsSound node generated port h =
      Holds-option After port _ _ (λ _. h) (λ n _. join_and_start-IsSound _ h)

  shut_down_nodes-IsSound :
      (node : Cluster p) (rs : List ℕ) → IsSound node → Holds IsSound (shut_down_nodes node rs)
  unfolding shut_down_nodes
  shut_down_nodes-IsSound node [] h = h
  shut_down_nodes-IsSound node (r ∷ rest) h = remote-bind IsSound node r _ (λ x here.
      let kept : RemoteNode = record x {
        config = record x.config { reconnect_on_disconnect = false };
      } in
      Holds-bind IsSound (tear_down (set_remote node r kept) r) _ (λ left e.
        shut_down_nodes-IsSound left rest (
          Holds-ok IsSound _ left
            (tear_down-IsSound (set_remote node r kept) r
              (set_remote-IsSound node r kept h (AllGated-get node.objects r x h.gated here)))
            e)))

  pub shut_down-IsSound : (node : Cluster p) → IsSound node → Holds IsSound (shut_down node)
  unfolding shut_down
  shut_down-IsSound node h =
      let ended : Cluster p = record node { state = cluster_state_ended } in
      Holds-bind IsSound (shut_down_nodes ended (slice_list.values node.remote_nodes)) _ (λ left e.
        Holds-if IsSound left.closed _ _ (λ _. tt)
          (λ _. Holds-ok IsSound _ left (shut_down_nodes-IsSound ended _ h) e))

  pub accept_round-IsSound :
      (node : Cluster p) (errors : ℕ) (connection : Option Bytes)
      → IsSound node
      → Holds After (accept_round node errors connection)
  unfolding accept_round set_state new_remote_node
  accept_round-IsSound node errors none h =
      Holds-if After (ltb (errors + 1) 5) _ _ (λ _. h)
        (λ _. Holds-if After node.config.terminate_on_listener_exit _ _ (λ _. tt) (λ _. h))
  accept_round-IsSound node errors (some address) h =
      Holds-bind After (start_remote _ _) _ (λ accepted e.
        Holds-ok IsSound _ accepted (start_remote-IsSound _ _ (new_object-IsSound node _ h tt)) e)

  pub take_proposal-IsSound : (node : Cluster p) → IsSound node → Holds After (take_proposal node)
  unfolding take_proposal new_remote_node
  take_proposal-IsSound node h =
      Holds-list After node.join_queue _ _ (λ _. h)
        (λ value rest _.
          Holds-if After (node.state == cluster_state_started) _ _
            (λ _.
              Holds-option After (dict.load node.pending_conn value.id) _ _
                (λ _.
                  Holds-option After (dict.load (slice_list.keys node.remote_nodes) value.id) _ _
                    (λ _. Holds-bind After (join _ _) _ (λ joined e.
                      Holds-ok IsSound _ joined
                        (join-IsSound (record node { join_queue = rest }) _ refl tt h) e))
                    (λ _ _. h))
                (λ _ _. h))
            (λ _. h))

  pub join_round-IsSound :
      (node : Cluster p) (r tries : ℕ) (connects : Bool) (x : RemoteNode)
      → IsRemote node r x
      → x.state ≡ connecting
      → IsSound node
      → Holds After (join_round node r tries connects)
  unfolding join_round set_state event_unable_to_connect
  join_round-IsSound node r tries connects x at new h = remote-bind After node r _ (λ y here.
      Holds-bind After (start_remote (set_remote node r (set_state y handshake)) r) _ (λ done e.
        let started =
          Holds-ok IsSound _ done
            (start_remote-IsSound (set_remote node r (set_state y handshake)) r
              (set_remote-IsSound node r (set_state y handshake) h (shakes y here)))
            e in
        if-both After connects _ _ started (
          if-both After (ltb_ℤ (pos 0) y.config.connect_retries) _ _
            (if-both After (gives_up y.config (tries + 1)) _ _ h h) h)))
    where
      shakes : (y : RemoteNode) → IsRemote node r y → AllVerify y.inbound_msg_queue
      shakes y here =
          let same : x ≡ y = some-injective _ _ (sym at ∙ here) in
          let waits : Gated y.state y.inbound_msg_queue =
            AllGated-get node.objects r y h.gated here in
          let empty =
            subst (λ s. Gated s y.inbound_msg_queue)
              (sym (ap (λ (z : RemoteNode). z.state) same) ∙ new) waits in
          subst AllVerify (sym empty) tt
