-- ===== src/Cluster/Verify/Admission.antt =====
-- Which remote nodes `handleVerify` of cluster/remoteNode.go admits, and what a refusal leads to.
use ngbigcache.Base.{
  ℕ, ◌≡◌, ◌⊎◌, ◌∙◌, refl, ap, Bool, true, false, ◌&&◌, none, some, List, [], ◌∷◌, ◌++◌, ◌==◌,
  ==-cases, Bool-cases, inl, inr, if◌then◌else◌, Bytes, eq_bytes, eq_bytes_refl, ok, get_elem?, set,
  get_elem?-set_held, arith,
}
use mathlib.Core.List.{append-nil}
use ngbigcache.Base.Dict as dict
use ngbigcache.Base.Dict.{load-delete}
use ngbigcache.Utils.SliceList as slice_list
use ngbigcache.Utils.SliceList.{SliceList}
use ngbigcache.Utils.SliceList.Laws.{get-add, contains-remove_self}
use ngbigcache.Message.Json.{ProposedPeer, VerifyMessage}
use ngbigcache.Message.Any.{verify_ok}
use ngbigcache.Cluster.Types.{
  Platform, Cluster, RemoteNode, connected, cluster_mode_passive, remote, set_remote, send_join,
}
use ngbigcache.Cluster.Queues.{send_message, set_state}
use ngbigcache.Cluster.Verify.{
  identify, admit, verify_node, event_verify_remote_node, event_remote_node_disconnected, tear_down,
}

module _ {p : Platform} where
  -- The remote node at a pointer, in a node.
  abbrev pub IsRemote : Cluster p → ℕ → RemoteNode → Type 0
  IsRemote node r x = get_elem? node.objects r ≡ some x

  -- The remote node is in the list and connected, and it was told so.
  abbrev pub Admitted : Cluster p → ℕ → RemoteNode → VerifyMessage → Cluster p × Bool → Type 0
  Admitted node r x m done =
      (done.1 ≡ true)
      × (slice_list.get done.0.remote_nodes m.id ≡ some r)
      × ((other : Bytes)
          → eq_bytes m.id other ≡ false
          → slice_list.get done.0.remote_nodes other ≡ slice_list.get node.remote_nodes other)
      × (dict.load done.0.pending_conn m.id ≡ none)
      × ((y : RemoteNode) × IsRemote done.0 r y
          × (y.config.id ≡ m.id)
          × (y.state ≡ connected)
          × (y.outbound_msg_queue ≡ x.outbound_msg_queue ++ verify_ok ∷ []))

  -- The remote node has the identity of the message, and nothing else changed.
  abbrev pub Refused : Cluster p → ℕ → RemoteNode → VerifyMessage → Cluster p × Bool → Type 0
  Refused node r x m done =
      (done.1 ≡ false)
      × (done.0.remote_nodes ≡ node.remote_nodes)
      × (done.0.pending_conn ≡ node.pending_conn)
      × ((y : RemoteNode) × IsRemote done.0 r y
          × (y.config.id ≡ m.id)
          × (y.state ≡ x.state)
          × (y.outbound_msg_queue ≡ x.outbound_msg_queue))

  abbrev pub BothPassive : Cluster p → VerifyMessage → Type 0
  BothPassive node m = (m.mode ≡ cluster_mode_passive) × (node.mode ≡ cluster_mode_passive)

  send_join_ok :
      (node : Cluster p) (peers : List ProposedPeer)
      → node.closed ≡ false
      → send_join node peers ≡ ok (record node { join_queue = node.join_queue ++ peers })
  unfolding send_join
  send_join_ok node [] unclosed = rw (append-nil node.join_queue) refl
  send_join_ok node (peer ∷ peers) unclosed = rw unclosed refl

  abbrev torn_down : Cluster p → ℕ → RemoteNode → Cluster p
  torn_down node r x =
      set_remote
        (record (event_remote_node_disconnected node x) {
          join_queue =
              node.join_queue
              ++ (if x.config.reconnect_on_disconnect
                  then record { id = x.config.id; ip_address = x.config.ip_address } ∷ []
                  else []);
        })
        r (record x { pending_get = none; timer_armed = false })

  pub tear_down_lem :
      (node : Cluster p) (r : ℕ) (x : RemoteNode)
      → node.closed ≡ false
      → IsRemote node r x
      → (left : Cluster p) × (tear_down node r ≡ ok left)
        × (left.remote_nodes ≡ slice_list.remove node.remote_nodes x.config.id)
  unfolding tear_down event_remote_node_disconnected remote set_remote
  tear_down_lem node r x unclosed here = (
    torn_down node r x,
    rw (remote, here)
        (rw
          (send_join_ok (event_remote_node_disconnected node x)
            (if x.config.reconnect_on_disconnect
              then record { id = x.config.id; ip_address = x.config.ip_address } ∷ []
              else [])
            unclosed)
          refl),
    refl,
  )

  module _ (node : Cluster p) (r : ℕ) (x : RemoteNode) (m : VerifyMessage)
      (here : IsRemote node r x) where
    refused :
        (verify_node node r x m ≡ (set_remote node r (identify x m), false))
        → Refused node r x m (verify_node node r x m)
    unfolding set_remote identify
    refused e = rw e (
      refl,
      refl,
      refl,
      (identify x m, get_elem?-set_held node.objects r x (identify x m) here, refl, refl, refl),
    )

    passive_lem :
        BothPassive node m → verify_node node r x m ≡ (set_remote node r (identify x m), false)
    unfolding verify_node
    passive_lem both = rw (both.0, both.1) refl

    known_lem :
        slice_list.contains node.remote_nodes m.id ≡ true
        → verify_node node r x m ≡ (set_remote node r (identify x m), false)
    unfolding verify_node event_verify_remote_node set_remote
    known_lem known = rw (known) (ground arith)

    not_both :
        ¬ (BothPassive node m)
        → ((m.mode == cluster_mode_passive) && (node.mode == cluster_mode_passive)) ≡ false
    not_both apart = elim (==-cases m.mode cluster_mode_passive) [
      | inr (t, _) ↦ rw t refl
      | inl (t, a) ↦ elim (==-cases node.mode cluster_mode_passive) [
        | inr (u, _) ↦ rw (t, u) refl
        | inl (_, b) ↦ absurd (apart (a, b))
      ]
    ]

    pub new_eq :
        ¬ (BothPassive node m)
        → slice_list.contains node.remote_nodes m.id ≡ false
        → verify_node node r x m ≡ (
          set_remote
              (record (set_remote node r (identify x m)) {
                remote_nodes = slice_list.add node.remote_nodes m.id r;
                pending_conn = dict.delete node.pending_conn m.id;
              })
              r
              (admit (identify x m)),
          true,
        )
    unfolding verify_node event_verify_remote_node set_remote
    new_eq apart new = rw (verify_node, not_both apart, event_verify_remote_node, new) refl

    new_lem :
        ¬ (BothPassive node m)
        → slice_list.contains node.remote_nodes m.id ≡ false
        → Admitted node r x m (verify_node node r x m)
    unfolding set_remote admit identify send_message set_state
    new_lem apart new = rw (new_eq apart new) (
      refl,
      get-add node.remote_nodes m.id r m.id ∙ rw (eq_bytes_refl m.id) refl,
      λ other e. get-add node.remote_nodes m.id r other ∙ rw e refl,
      load-delete node.pending_conn m.id m.id ∙ rw (eq_bytes_refl m.id) refl,
      (
        admit (identify x m),
        get_elem?-set_held (set node.objects r (identify x m)) r (identify x m)
            (admit (identify x m)) (get_elem?-set_held node.objects r x (identify x m) here),
        refl,
        refl,
        refl,
      ),
    )

    -- A remote node of a node, whose verification arrives, is refused exactly if it and the node
    -- are both passive or the node has a remote node with that identity: then the lists and the
    -- state are unchanged and nothing is sent. Otherwise it is in the list under its identity,
    -- which leaves the other identities alone, is no longer pending, is connected, and is sent a
    -- verification in return.
    pub verify_node_lem :
        ((BothPassive node m ⊎ (slice_list.contains node.remote_nodes m.id ≡ true))
          × Refused node r x m (verify_node node r x m))
        ⊎ (¬ (BothPassive node m)
            × (slice_list.contains node.remote_nodes m.id ≡ false)
            × Admitted node r x m (verify_node node r x m))
    verify_node_lem = elim (==-cases m.mode cluster_mode_passive) [
      | inl (_, a) ↦ elim (==-cases node.mode cluster_mode_passive) [
        | inl (_, b) ↦ inl (inl (a, b), refused (passive_lem (a, b)))
        | inr (_, b) ↦ unlike (λ both. b both.1)
      ]
      | inr (_, a) ↦ unlike (λ both. a both.0)
    ]
      where
        unlike :
            ¬ (BothPassive node m)
            → ((BothPassive node m ⊎ (slice_list.contains node.remote_nodes m.id ≡ true))
                × Refused node r x m (verify_node node r x m))
              ⊎ (¬ (BothPassive node m)
                  × (slice_list.contains node.remote_nodes m.id ≡ false)
                  × Admitted node r x m (verify_node node r x m))
        unlike apart = elim (Bool-cases (slice_list.contains node.remote_nodes m.id)) [
          | inl t ↦ inl (inr t, refused (known_lem t))
          | inr f ↦ inr (apart, f, new_lem apart f)
        ]

    -- If the channels of a node are not closed, and it has a remote node with the identity of a
    -- verification that another one sends, then the verification is refused, and the `tearDown`
    -- that follows the refusal takes the identity out of the list: the node forgets the
    -- connection that it has.
    pub refused-forgets :
        node.closed ≡ false
        → slice_list.contains node.remote_nodes m.id ≡ true
        → ((verify_node node r x m).1 ≡ false)
          × ((left : Cluster p) × (tear_down (verify_node node r x m).0 r ≡ ok left)
              × (slice_list.contains left.remote_nodes m.id ≡ false))
    unfolding set_remote identify
    refused-forgets unclosed known =
        let (left, e, f) =
          tear_down_lem (set_remote node r (identify x m)) r (identify x m) unclosed
            (get_elem?-set_held node.objects r x (identify x m) here) in
        rw (known_lem known) (
          refl,
          (
            left,
            e,
            ap (λ l. slice_list.contains l m.id) f ∙ contains-remove_self node.remote_nodes m.id,
          ),
        )
