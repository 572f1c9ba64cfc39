-- ===== src/Cluster/Steps/Rounds.antt =====
-- The handlers of cluster/remoteNode.go, and the loop that calls them.
use ngbigcache.Base.{
  ℕ, subst, some, List, [], ◌∷◌, ◌+◌, ◌==◌, ltb, length, Bytes, Run, ok, inl, inr, Bool-cases,
}
use ngbigcache.Base.Dict as dict
use ngbigcache.Base.Int.{ℤ, pos}
use ngbigcache.Utils.SliceList as slice_list
use ngbigcache.Message.{
  NodeWireMessage, msg_verify, msg_verify_ok, msg_ping, msg_pong, msg_put, msg_get_req, msg_get_rsp,
  msg_del, msg_sync_req, msg_sync_rsp,
}
use ngbigcache.Message.Json.{deserialize_sync_req, deserialize_sync_rsp}
use ngbigcache.Message.Any.{pong}
use ngbigcache.Message.GetRsp as get_rsp_message
use ngbigcache.Message.Put as put_message
use ngbigcache.Cache.BigCache as big_cache
use ngbigcache.Cluster.Types.{
  Platform, Cluster, RemoteNode, NodeState, connecting, connected, disconnected, handshake,
  set_remote, is_disconnected,
}
use ngbigcache.Cluster.Ping.{handle_ping, handle_pong}
use ngbigcache.Cluster.Sync.{
  handle_verify_ok, send_sync_response, handle_sync_request, handle_sync_response,
}
use ngbigcache.Cluster.Handlers.{
  member, reply, handle_get_request, handle_get_response, handle_put, handle_delete, on_remote,
  go_on, dispatch, handle_message, message_round,
}
use ngbigcache.Cluster.Sync.{sync_list, set_replication_factor}
use ngbigcache.Cluster.Steps.Verifies.{handle_verify-IsSound, send_join-IsSound}
use ngbigcache.Base.Returns.{
  Holds, Holds-bind, Holds-if, Holds-ok, Holds-option, Holds-list, if-both,
}
use ngbigcache.Cluster.Steps.Outcomes.{remote-bind}
use ngbigcache.Cluster.Steps.Numbers.{firsts, AreNumbers-reply}
use ngbigcache.Cluster.Steps.Sound.{
  After, cached-IsSound, Gated, IsGated, AllGated-get, IsSound, set_remote-IsSound,
  send_message-IsGated,
}

Gated-tail :
    (state : NodeState) (msg : NodeWireMessage) (rest : List NodeWireMessage)
    → Gated state (msg ∷ rest)
    → Gated state rest
Gated-tail connecting msg rest g = absurd (cc)
Gated-tail handshake msg rest g = g.1
Gated-tail connected msg rest g = tt
Gated-tail disconnected msg rest g = tt

handle_ping-IsGated : (x : RemoteNode) → IsGated x → IsGated (handle_ping x)
unfolding handle_ping
handle_ping-IsGated x g =
    send_message-IsGated
      (record x { metrics = record x.metrics { ping_received = x.metrics.ping_received + 1 } })
      (pong (record { code = 0 })) g

module _ {p : Platform} where
  on_remote-IsSound :
      (node : Cluster p) (r : ℕ) (f : RemoteNode → Run RemoteNode)
      → ((x : RemoteNode) → IsGated x → Holds IsGated (f x))
      → IsSound node
      → Holds After (on_remote node r f)
  on_remote-IsSound node r f keeps h = remote-bind After node r _ (λ x here.
      Holds-bind After (f x) _ (λ y e.
        set_remote-IsSound node r y h
          (Holds-ok IsGated (f x) y (keeps x (AllGated-get node.objects r x h.gated here)) e)))

  go_on-IsSound : (done : Run (Cluster p)) → Holds IsSound done → Holds After (go_on done)
  go_on-IsSound done h = Holds-bind After done _ (λ node e. Holds-ok IsSound done node h e)

  reply-IsSound :
      (node : Cluster p) (number : ℕ) (bytes : Bytes)
      → IsSound node
      → IsSound (reply node number bytes)
  unfolding reply
  reply-IsSound node number bytes h = elim (Bool-cases (member number node.waiting)) [
    | inl t ↦
        rw (reply, t)
          (record {
            gated = h.gated;
            listed = h.listed;
            counted = h.counted;
            replicating = h.replicating;
            requesting = h.requesting;
            numbered =
                AreNumbers-reply node.calls number node.selecting node.waiting (firsts node.replies)
                  t h.numbered;
            stored = h.stored;
          })
    | inr f ↦ rw (reply, f) h
  ]

  handle_get_request-IsSound :
      (node : Cluster p) (r : ℕ) (msg : NodeWireMessage)
      → IsSound node
      → Holds IsSound (handle_get_request node r msg)
  unfolding handle_get_request
  handle_get_request-IsSound node r msg h = remote-bind IsSound node r _ (λ x here.
      Holds-option IsSound node.cache _ _ (λ _. tt)
        (λ cache _. Holds-bind IsSound (big_cache.get cache _) _ (λ got _.
          set_remote-IsSound (record node { cache = some got.0 }) r _ (cached-IsSound node got.0 h)
            (send_message-IsGated x _ (AllGated-get node.objects r x h.gated here)))))

  handle_get_response-IsSound :
      (node : Cluster p) (r : ℕ) (msg : NodeWireMessage)
      → IsSound node
      → Holds IsSound (handle_get_response node r msg)
  unfolding handle_get_response
  handle_get_response-IsSound node r msg h = remote-bind IsSound node r _ (λ x here.
      Holds-bind IsSound (get_rsp_message.deserialize msg) _ (λ m _.
        Holds-option IsSound x.pending_get _ _ (λ _. tt)
          (λ pending _.
            Holds-option IsSound (dict.load pending m.pending_key) _ _ (λ _. h)
              (λ req _.
                let taken =
                  set_remote-IsSound node r
                    (record x { pending_get = some (dict.delete pending m.pending_key) }) h
                    (AllGated-get node.objects r x h.gated here) in
                if-both IsSound (ltb (length m.contents) 1) _ _ taken
                  (reply-IsSound _ req.number m.contents taken)))))

  handle_put-IsSound :
      (node : Cluster p) (msg : NodeWireMessage) (remaining : ℕ → ℤ) (epoch now : ℕ)
      → IsSound node
      → Holds IsSound (handle_put node msg remaining epoch now)
  unfolding handle_put
  handle_put-IsSound node msg remaining epoch now h =
      Holds-bind IsSound (put_message.deserialize msg) _ (λ m _.
        Holds-option IsSound node.cache _ _ (λ _. tt)
          (λ cache _.
            Holds-bind IsSound (big_cache.set_entry cache m.key m.contents _ epoch now) _
              (λ r _. cached-IsSound node r.0 h)))

  handle_delete-IsSound :
      (node : Cluster p) (msg : NodeWireMessage) (now : ℕ)
      → IsSound node
      → Holds IsSound (handle_delete node msg now)
  unfolding handle_delete
  handle_delete-IsSound node msg now h =
      Holds-option IsSound node.cache _ _ (λ _. tt)
        (λ cache _.
          Holds-bind IsSound (big_cache.delete cache _ now) _ (λ r _. cached-IsSound node r.0 h))

  handle_sync_response-IsSound :
      (node : Cluster p) (msg : NodeWireMessage)
      → IsSound node
      → Holds IsSound (handle_sync_response node msg)
  unfolding handle_sync_response set_replication_factor
  handle_sync_response-IsSound node msg h =
      let m =
        deserialize_sync_rsp p.json msg
          (record { code = 0; replication_factor = pos 0; list = [] }) in
      send_join-IsSound (set_replication_factor node m.replication_factor) m.list h

  handle_sync_request-IsGated :
      (node : Cluster p) (x : RemoteNode) (msg : NodeWireMessage)
      → IsGated x
      → Holds IsGated (handle_sync_request node x msg)
  unfolding handle_sync_request send_sync_response
  handle_sync_request-IsGated node x msg g =
      let m = deserialize_sync_req p.json msg (record { code = 0; mode = 0 }) in
      Holds-bind IsGated (sync_list node x m (slice_list.values node.remote_nodes)) _
        (λ peers _. if-both IsGated (ltb 0 (length peers)) _ _ (send_message-IsGated x _ g) g)

  dispatch-IsSound :
      (node : Cluster p) (r : ℕ) (msg : NodeWireMessage) (remaining : ℕ → ℤ) (epoch now : ℕ)
      → IsSound node
      → Holds After (dispatch node r msg remaining epoch now)
  unfolding dispatch handle_verify_ok handle_ping handle_pong
  dispatch-IsSound node r msg remaining epoch now h =
      Holds-if After (msg.code == msg_verify) _ _ (λ _. handle_verify-IsSound node r msg h)
        (λ _.
          Holds-if After (msg.code == msg_verify_ok) _ _
            (λ _. on_remote-IsSound node r (λ x. ok (handle_verify_ok x)) (λ x g. g) h)
            (λ _.
              Holds-if After (msg.code == msg_ping) _ _
                (λ _. on_remote-IsSound node r (λ x. ok (handle_ping x)) handle_ping-IsGated h)
                (λ _.
                  Holds-if After (msg.code == msg_pong) _ _
                    (λ _. on_remote-IsSound node r (λ x. ok (handle_pong x)) (λ x g. g) h)
                    (λ _.
                      Holds-if After (msg.code == msg_sync_rsp) _ _
                        (λ _. go_on-IsSound _ (handle_sync_response-IsSound node msg h))
                        (λ _.
                          Holds-if After (msg.code == msg_sync_req) _ _
                            (λ _.
                              on_remote-IsSound node r (λ x. handle_sync_request node x msg)
                                (λ x g. handle_sync_request-IsGated node x msg g) h)
                            (λ _.
                              Holds-if After (msg.code == msg_get_req) _ _
                                (λ _. go_on-IsSound _ (handle_get_request-IsSound node r msg h))
                                (λ _.
                                  Holds-if After (msg.code == msg_get_rsp) _ _
                                    (λ _.
                                      go_on-IsSound _ (handle_get_response-IsSound node r msg h))
                                    (λ _.
                                      Holds-if After (msg.code == msg_put) _ _
                                        (λ _.
                                          go_on-IsSound _
                                            (handle_put-IsSound node msg remaining epoch now h))
                                        (λ _.
                                          Holds-if After (msg.code == msg_del) _ _
                                            (λ _.
                                              go_on-IsSound _
                                                (handle_delete-IsSound node msg now h))
                                            (λ _. h))))))))))

  pub message_round-IsSound :
      (node : Cluster p) (r : ℕ) (remaining : ℕ → ℤ) (epoch now : ℕ)
      → IsSound node
      → Holds After (message_round node r remaining epoch now)
  unfolding message_round handle_message
  message_round-IsSound node r remaining epoch now h = remote-bind After node r _ (λ x here.
      Holds-list After x.inbound_msg_queue _ _ (λ _. h)
        (λ msg rest e.
          let received =
            set_remote-IsSound node r (record x { inbound_msg_queue = rest }) h
              (Gated-tail x.state msg rest
                (subst (Gated x.state) e (AllGated-get node.objects r x h.gated here))) in
          remote-bind After (set_remote node r (record x { inbound_msg_queue = rest })) r _ (λ y _.
            Holds-if After (is_disconnected y.state) _ _ (λ _. received)
              (λ _. dispatch-IsSound _ r msg remaining epoch now received))))
