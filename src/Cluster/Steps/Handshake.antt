-- ===== src/Cluster/Steps/Handshake.antt =====
-- What a remote node of cluster/remoteNode.go that is in the handshake can bring about.
use ngbigcache.Base.{
  ℕ, ◌≡◌, ◌∙◌, refl, subst, ap, Bool, true, false, ◌||◌, List, ◌∷◌, ◌==◌, inl, inr, Bool-cases, ok,
  List-cases, get_elem?-set_held,
}
use ngbigcache.Base.Int.{ℤ}
use ngbigcache.Message.{NodeWireMessage, msg_verify, msg_verify_ok}
use ngbigcache.Message.Json.{VerifyMessage, deserialize_verify}
use ngbigcache.Cluster.Types.{
  Platform, Cluster, RemoteNode, handshake, set_remote, remote, is_disconnected,
}
use ngbigcache.Cluster.Verify.{
  blank_verify, identify, event_verify_remote_node, verify_node, handle_verify,
}
use ngbigcache.Cluster.Sync.{handle_verify_ok}
use ngbigcache.Cluster.Handlers.{dispatch, handle_message, message_round}
use ngbigcache.Cluster.Verify.Admission.{IsRemote}
use ngbigcache.Cluster.Steps.{Reach, Fresh}
use ngbigcache.Base.Returns.{if-both}
use ngbigcache.Cluster.Steps.Sound.{Gated, AllVerify, AllGated-get}
use ngbigcache.Cluster.Steps.Reachable.{reached-IsSound}

module _ {p : Platform} where
  -- The data of the user, and the channels of the node with what is sent about it, are the same.
  abbrev pub SameData : Cluster p → Cluster p → Type 0
  SameData node after =
      (after.cache ≡ node.cache)
      × (after.replies ≡ node.replies)
      × (after.join_queue ≡ node.join_queue)
      × (after.replication_chan ≡ node.replication_chan)
      × (after.get_request_chan ≡ node.get_request_chan)

  abbrev Kept : Cluster p → Cluster p × Bool → Type 0
  Kept node r = SameData node r.0

  same : (node : Cluster p) → SameData node node
  same node = (refl, refl, refl, refl, refl)

  verify_node-SameData :
      (node : Cluster p) (r : ℕ) (x : RemoteNode) (m : VerifyMessage)
      → SameData node (verify_node node r x m).0
  unfolding verify_node event_verify_remote_node set_remote
  verify_node-SameData node r x m =
      let known = set_remote node r (identify x m) in
      if-both (Kept node) _ _ _ (same node) (
        if-both (Kept node) (event_verify_remote_node known r m.id).1 _ _ (asked known m.id)
          (asked known m.id))
    where
      asked : (known : Cluster p) (id : _) → SameData known (event_verify_remote_node known r id).0
      asked known id = if-both (Kept known) _ _ _ (same known) (same known)

  -- A message that verifies.
  verifying-SameData :
      (node : Cluster p) (r : ℕ) (x : RemoteNode) (msg : NodeWireMessage) (remaining : ℕ → ℤ)
      (epoch now : ℕ)
      → IsRemote node r x
      → ((msg.code == msg_verify) || (msg.code == msg_verify_ok)) ≡ true
      → (done : Cluster p × Bool) × (dispatch node r msg remaining epoch now ≡ ok done)
        × SameData node done.0
  unfolding dispatch handle_verify set_remote remote
  verifying-SameData node r x msg remaining epoch now here e =
      elim (Bool-cases (msg.code == msg_verify)) [
        | inl t ↦ (
          verify_node node r x (deserialize_verify p.json msg blank_verify),
          rw (dispatch, t, handle_verify, remote, here) refl,
          verify_node-SameData node r x (deserialize_verify p.json msg blank_verify),
        )
        | inr f ↦ elim (Bool-cases (msg.code == msg_verify_ok)) [
          | inl t ↦ (
            (set_remote node r (handle_verify_ok x), true),
            rw (dispatch, f, t, remote, here) refl,
            same node,
          )
          | inr g ↦ absurd (let z : (false || false) ≡ true = rw (f, g) at e in cc)
        ]
      ]

  round_some :
      (node : Cluster p) (r : ℕ) (x : RemoteNode) (msg : NodeWireMessage)
      (rest : List NodeWireMessage) (remaining : ℕ → ℤ) (epoch now : ℕ)
      → IsRemote node r x
      → x.inbound_msg_queue ≡ msg ∷ rest
      → is_disconnected x.state ≡ false
      → message_round node r remaining epoch now
        ≡ dispatch
            (set_remote node r (record x { inbound_msg_queue = rest }))
            r
            msg
            remaining
            epoch
            now
  unfolding message_round handle_message set_remote remote
  round_some node r x msg rest remaining epoch now here e f =
      let y : RemoteNode = record x { inbound_msg_queue = rest } in
      let opened : message_round node r remaining epoch now
          ≡ handle_message (set_remote node r y) r msg remaining epoch now =
        rw (message_round, remote, here, e) refl in
      opened ∙ rw (handle_message, remote, get_elem?-set_held node.objects r x y here, f) refl

  -- At every node that comes of a new one by steps, a round of the handlers of a remote node that is
  -- in the handshake returns, and leaves the cache, the replies to calls of `Get`, the proposals to
  -- join and the two channels with what the user's calls send as they were.
  pub handshake-SameData :
      (first node : Cluster p) (r : ℕ) (x : RemoteNode) (remaining : ℕ → ℤ) (epoch now : ℕ)
      → Fresh first
      → Reach first node
      → IsRemote node r x
      → x.state ≡ handshake
      → (done : Cluster p × Bool) × (message_round node r remaining epoch now ≡ ok done)
        × SameData node done.0
  unfolding message_round set_remote remote
  handshake-SameData first node r x remaining epoch now new run here shakes =
      let sound = reached-IsSound first node new run in
      let waits : AllVerify x.inbound_msg_queue =
        subst (λ s. Gated s x.inbound_msg_queue) shakes
          (AllGated-get node.objects r x sound.gated here) in
      elim (List-cases x.inbound_msg_queue) [
        | inl e ↦ ((node, true), rw (message_round, remote, here, e) refl, same node)
        | inr (msg, rest, e) ↦
            let y : RemoteNode = record x { inbound_msg_queue = rest } in
            let at = get_elem?-set_held node.objects r x y here in
            let alive : is_disconnected x.state ≡ false = ap is_disconnected shakes in
            let (done, f, kept) =
              verifying-SameData (set_remote node r y) r y msg remaining epoch now at
                (subst AllVerify e waits).0 in
            (done, round_some node r x msg rest remaining epoch now here e alive ∙ f, kept)
      ]
