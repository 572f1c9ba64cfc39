-- ===== src/Cluster/Steps/Verifies.antt =====
-- How a remote node of cluster/remoteNode.go is admitted, and how it leaves.
use ngbigcache.Base.{
  ℕ, ◌<◌, ◌&&◌, List, [], ◌∷◌, ◌==◌, if◌then◌else◌, length, length-set, get_elem?-below, Bytes,
  arith, inl, inr, Bool-cases,
}
use ngbigcache.Utils.SliceList as slice_list
use ngbigcache.Message.{NodeWireMessage}
use ngbigcache.Message.Json.{deserialize_verify, VerifyMessage, ProposedPeer}
use ngbigcache.Cluster.Types.{
  Platform, Cluster, RemoteNode, cluster_mode_passive, set_remote, send_join,
}
use ngbigcache.Cluster.Queues.{send_message, set_state}
use ngbigcache.Cluster.Verify.{
  blank_verify, identify, admit, verify_node, handle_verify, event_verify_remote_node,
  event_remote_node_disconnected, tear_down,
}
use ngbigcache.Cluster.Verify.Admission.{IsRemote}
use ngbigcache.Utils.SliceList.Laws.{add-IsCounted, remove-IsCounted, contains-none}
use ngbigcache.Base.Returns.{Holds, Holds-bind, Holds-if, Holds-ok}
use ngbigcache.Cluster.Steps.Outcomes.{remote-bind}
use ngbigcache.Cluster.Steps.Sound.{
  After, IsGated, AllGated-get, IsSound, set_remote-IsSound, AllBelow-add, AllBelow-remove,
}

admit-IsGated : (x : RemoteNode) → IsGated (admit x)
unfolding admit set_state send_message
admit-IsGated x = tt

module _ {p : Platform} where
  pub send_join-IsSound :
      (node : Cluster p) (peers : List ProposedPeer)
      → IsSound node
      → Holds IsSound (send_join node peers)
  unfolding send_join
  send_join-IsSound node [] h = h
  send_join-IsSound node (peer ∷ peers) h = Holds-if IsSound node.closed _ _ (λ _. tt) (λ _. h)

  event_verify_remote_node-IsSound :
      (node : Cluster p) (r : ℕ) (id : Bytes)
      → r < length node.objects
      → IsSound node
      → IsSound (event_verify_remote_node node r id).0
  unfolding event_verify_remote_node slice_list.contains
  event_verify_remote_node-IsSound node r id below h =
      elim (Bool-cases (slice_list.contains node.remote_nodes id)) [
        | inl t ↦ rw (event_verify_remote_node, t) h
        | inr f ↦
            rw (event_verify_remote_node, f)
              (record {
                gated = h.gated;
                listed = AllBelow-add (length node.objects) node.remote_nodes id r below h.listed;
                counted =
                    add-IsCounted node.remote_nodes id r (contains-none node.remote_nodes id f)
                      h.counted;
                replicating = h.replicating;
                requesting = h.requesting;
                numbered = h.numbered;
                stored = h.stored;
              })
      ]

  verify_node-IsSound :
      (node : Cluster p) (r : ℕ) (x : RemoteNode) (m : VerifyMessage)
      → IsRemote node r x
      → IsSound node
      → IsSound (verify_node node r x m).0
  unfolding verify_node identify set_remote
  verify_node-IsSound node r x m here h =
      let g = AllGated-get node.objects r x h.gated here in
      let known = set_remote-IsSound node r (identify x m) h g in
      let below : r < length (set_remote node r (identify x m)).objects =
        omega (
          arith,
          length-set node.objects r (identify x m),
          get_elem?-below node.objects r x here,
        ) in
      let asked =
        event_verify_remote_node-IsSound (set_remote node r (identify x m)) r m.id below known in
      let done = (event_verify_remote_node (set_remote node r (identify x m)) r m.id).0 in
      let guard = (m.mode == cluster_mode_passive) && (node.mode == cluster_mode_passive) in
      elim (Bool-cases guard) [
        | inl t ↦ rw (verify_node, t) known
        | inr f ↦
            elim (Bool-cases
              (event_verify_remote_node (set_remote node r (identify x m)) r m.id).1) [
                | inl t ↦
                    rw (verify_node, f, t)
                      (set_remote-IsSound done r (admit (identify x m)) asked
                        (admit-IsGated (identify x m)))
                | inr e ↦ rw (verify_node, f, e) asked
              ]
      ]

  pub tear_down-IsSound :
      (node : Cluster p) (r : ℕ) → IsSound node → Holds IsSound (tear_down node r)
  unfolding tear_down event_remote_node_disconnected
  tear_down-IsSound node r h = remote-bind IsSound node r _ (λ x here.
      Holds-bind IsSound (send_join (event_remote_node_disconnected node x) (proposed x)) _
        (λ asked e.
          set_remote-IsSound asked r _
            (Holds-ok IsSound _ asked (send_join-IsSound _ (proposed x) (left x)) e)
            (AllGated-get node.objects r x h.gated here)))
    where
      proposed : RemoteNode → List ProposedPeer
      proposed x =
          if x.config.reconnect_on_disconnect
          then record { id = x.config.id; ip_address = x.config.ip_address } ∷ []
          else []

      left :
          (x : RemoteNode)
          → IsSound (record node { remote_nodes = slice_list.remove node.remote_nodes x.config.id })
      left x = record {
        gated = h.gated;
        listed = AllBelow-remove (length node.objects) node.remote_nodes x.config.id h.listed;
        counted = remove-IsCounted node.remote_nodes x.config.id h.counted;
        replicating = h.replicating;
        requesting = h.requesting;
        numbered = h.numbered;
        stored = h.stored;
      }

  pub handle_verify-IsSound :
      (node : Cluster p) (r : ℕ) (msg : NodeWireMessage)
      → IsSound node
      → Holds After (handle_verify node r msg)
  unfolding handle_verify
  handle_verify-IsSound node r msg h =
      remote-bind After node r _
        (λ x here. verify_node-IsSound node r x (deserialize_verify p.json msg blank_verify) here h)
