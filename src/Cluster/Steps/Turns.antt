-- ===== src/Cluster/Steps/Turns.antt =====
-- The goroutines of cluster/remoteNode.go that change only their remote node: the timers and the queues.
use ngbigcache.Base.{
  ℕ, ◌≡◌, refl, subst, Bool, true, false, ◌&&◌, not, ◌||◌, List, [], ◌∷◌, ◌++◌, ◌==◌, arith, inl,
  inr, Bool-cases,
}
use ngbigcache.Message.{NodeWireMessage, msg_verify, msg_verify_ok}
use ngbigcache.Cluster.Types.{
  Platform, Cluster, RemoteNode, NodeState, connecting, connected, disconnected, handshake,
  set_remote, is_disconnected, is_handshake,
}
use ngbigcache.Cluster.Queues.{send_message, set_state, queue_inbound_message}
use ngbigcache.Cluster.Ping.{ping_tick, ping_timed_out}
use ngbigcache.Cluster.Sync.{sync_round}
use ngbigcache.Cluster.Verify.Admission.{IsRemote}
use ngbigcache.Cluster.Wire.{reads}
use ngbigcache.Cluster.Steps.{Turn, arrives, sends, ticks, times_out, syncs, stops}
use ngbigcache.Cluster.Steps.Sound.{
  AllVerify, Gated, IsGated, AllGated-get, IsSound, set_remote-IsSound, send_message-IsGated,
}

AllVerify-snoc :
    (q : List NodeWireMessage) (msg : NodeWireMessage)
    → AllVerify q
    → ((msg.code == msg_verify) || (msg.code == msg_verify_ok)) ≡ true
    → AllVerify (q ++ msg ∷ [])
AllVerify-snoc [] msg all e = (e, tt)
AllVerify-snoc (m ∷ q) msg all e = (all.0, AllVerify-snoc q msg all.1 e)

sync_round-IsGated : (mode : ℕ) (x : RemoteNode) → IsGated x → IsGated (sync_round mode x)
unfolding sync_round send_message
sync_round-IsGated mode x g = ground arith

-- Whether `queueInboundMessage` drops a message in the handshake.
abbrev drops : NodeState → NodeWireMessage → Bool
drops state msg =
    is_handshake state && (not (msg.code == msg_verify) && not (msg.code == msg_verify_ok))

verifies : (a b : Bool) → (not a && not b) ≡ false → (a || b) ≡ true
verifies true b e = refl
verifies false true e = refl
verifies false false e = absurd (cc)

Gated-queue :
    (state : NodeState) (q : List NodeWireMessage) (msg : NodeWireMessage)
    → reads state ≡ true
    → drops state msg ≡ false
    → Gated state q
    → Gated state (q ++ msg ∷ [])
Gated-queue connecting q msg e f g = absurd (cc)
Gated-queue handshake q msg e f g = AllVerify-snoc q msg g (verifies _ _ f)
Gated-queue connected q msg e f g = tt
Gated-queue disconnected q msg e f g = tt

queue_inbound_message-IsGated :
    (x : RemoteNode) (msg : NodeWireMessage)
    → reads x.state ≡ true
    → IsGated x
    → IsGated (queue_inbound_message x msg)
unfolding queue_inbound_message
queue_inbound_message-IsGated x msg e g = elim (Bool-cases (drops x.state msg)) [
  | inl t ↦ rw (queue_inbound_message, t) g
  | inr f ↦ elim (Bool-cases (is_disconnected x.state)) [
    | inl t ↦ rw (queue_inbound_message, f, t) g
    | inr d ↦ rw (queue_inbound_message, f, d) (Gated-queue x.state x.inbound_msg_queue msg e f g)
  ]
]

Turn-IsGated : (mode : ℕ) (x y : RemoteNode) → Turn mode x y → IsGated x → IsGated y
unfolding ping_tick ping_timed_out set_state
Turn-IsGated mode x y (arrives msg r e) g =
    subst IsGated e (queue_inbound_message-IsGated x msg r g)
Turn-IsGated mode x y (sends m rest _ e) g = subst IsGated e g
Turn-IsGated mode x y (ticks e) g = subst IsGated e (send_message-IsGated _ _ g)
Turn-IsGated mode x y (times_out b e) g = subst (λ (r : RemoteNode × Bool). IsGated r.0) e g
Turn-IsGated mode x y (syncs e) g = subst IsGated e (sync_round-IsGated mode x g)
Turn-IsGated mode x y (stops e) g = subst IsGated e tt

module _ {p : Platform} where
  pub turns-IsSound :
      (node : Cluster p) (r : ℕ) (x y : RemoteNode)
      → IsRemote node r x
      → Turn node.mode x y
      → IsSound node
      → IsSound (set_remote node r y)
  turns-IsSound node r x y here turn h =
      set_remote-IsSound node r y h
        (Turn-IsGated node.mode x y turn (AllGated-get node.objects r x h.gated here))
