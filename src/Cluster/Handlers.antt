-- ===== src/Cluster/Handlers.antt =====
-- cluster/remoteNode.go: the handlers of the messages that carry data, and the loop that calls the
-- handlers.
use ngbigcache.Base.{
  ℕ, Bool, true, false, none, some, List, [], ◌∷◌, ◌++◌, ◌==◌, ltb, if◌then◌else◌, Bytes, Run, ok,
  panic, ◌>>=◌, Result, value, error, length,
}
use ngbigcache.Base.Int.{ℤ, pos}
use ngbigcache.Base.Dict as dict
use ngbigcache.Message.{
  NodeWireMessage, msg_verify, msg_verify_ok, msg_ping, msg_pong, msg_put, msg_get_req, msg_get_rsp,
  msg_del, msg_sync_req, msg_sync_rsp,
}
use ngbigcache.Message.Json.{deserialize_delete, deserialize_get_req}
use ngbigcache.Message.Any.{get_req, get_rsp}
use ngbigcache.Message.Put as put_message
use ngbigcache.Message.GetRsp as get_rsp_message
use ngbigcache.Cache.Shard.{CacheError}
use ngbigcache.Cache.BigCache as big_cache
use ngbigcache.Cluster.Types.{
  Platform, Cluster, RemoteNode, is_disconnected, GetRequestData, remote, set_remote,
}
use ngbigcache.Cluster.Queues.{send_message}
use ngbigcache.Cluster.Ping.{handle_ping, handle_pong}
use ngbigcache.Cluster.Verify.{handle_verify}
use ngbigcache.Cluster.Sync.{handle_verify_ok, handle_sync_request, handle_sync_response}

-- `getData`
unfoldable pub get_data : RemoteNode → GetRequestData → Run RemoteNode
unfolding send_message
get_data x req = if is_disconnected x.state then ok x else elim x.pending_get [
  | none ↦ panic
  | some pending ↦
      let pending_key = req.key ++ req.rand_str in
      ok (
        send_message (record x { pending_get = some (dict.store pending pending_key req) })
          (get_req (record { code = 0; key = req.key; pending_key = pending_key })))
]

-- The value that `cache.Get` returns, nil where there is an error.
abbrev pub found : Result CacheError Bytes → Bytes
found (value bytes) = bytes
found (error e) = []

abbrev pub member : ℕ → List ℕ → Bool
member n [] = false
member n (m ∷ ms) = if n == m then true else member n ms

abbrev pub without : ℕ → List ℕ → List ℕ
without n [] = []
without n (m ∷ ms) = let rest = without n ms in if n == m then rest else m ∷ rest

module _ {p : Platform} where
  -- `handleGetRequest`
  unfoldable pub handle_get_request : Cluster p → ℕ → NodeWireMessage → Run (Cluster p)
  unfolding send_message
  handle_get_request node r msg = do
    x ← remote node r
    let m = deserialize_get_req p.json msg (record { code = 0; key = []; pending_key = [] })
    elim node.cache [
      | none ↦ panic
      | some cache ↦ do
        got ← big_cache.get cache m.key
        let answer =
            get_rsp (record { code = 0; pending_key = m.pending_key; contents = found got.1 })
        ok (set_remote (record node { cache = some got.0 }) r (send_message x answer))
    ]

  -- The `select` of `handleGetResponse`: the reply goes to a call that waits, and else nowhere.
  unfoldable pub reply : Cluster p → ℕ → Bytes → Cluster p
  reply node number bytes =
      if member number node.waiting
      then record node {
        waiting = without number node.waiting;
        replies = (number, bytes) ∷ node.replies;
      }
      else node

  -- `handleGetResponse`
  unfoldable pub handle_get_response : Cluster p → ℕ → NodeWireMessage → Run (Cluster p)
  unfolding reply
  handle_get_response node r msg = do
    x ← remote node r
    m ← get_rsp_message.deserialize msg
    elim x.pending_get [
      | none ↦ panic
      | some pending ↦ elim (dict.load pending m.pending_key) [
        | none ↦ ok node
        | some req ↦
            let taken =
              set_remote node r
                (record x { pending_get = some (dict.delete pending m.pending_key) }) in
            ok (if ltb (length m.contents) 1 then taken else reply taken req.number m.contents)
      ]
    ]

  -- `handlePut`; `remaining` is the time until a second, as the clock is then
  unfoldable pub handle_put : Cluster p → NodeWireMessage → (ℕ → ℤ) → ℕ → ℕ → Run (Cluster p)
  handle_put node msg remaining epoch now = do
    m ← put_message.deserialize msg
    elim node.cache [
      | none ↦ panic
      | some cache ↦ do
        r ←
            big_cache.set_entry cache m.key m.contents
              (if m.expiry == 0 then pos 0 else remaining m.expiry) epoch now
        ok (record node { cache = some r.0 })
    ]

  -- `handleDelete`
  unfoldable pub handle_delete : Cluster p → NodeWireMessage → ℕ → Run (Cluster p)
  handle_delete node msg now =
      let m = deserialize_delete p.json msg (record { code = 0; key = [] }) in
      elim node.cache [
        | none ↦ panic
        | some cache ↦ do
          r ← big_cache.delete cache m.key now
          ok (record node { cache = some r.0 })
      ]

  -- A handler that changes only the remote node, and one after which the loop goes on.
  abbrev pub on_remote : Cluster p → ℕ → (RemoteNode → Run RemoteNode) → Run (Cluster p × Bool)
  on_remote node r f = do x ← remote node r; y ← f x; ok (set_remote node r y, true)

  abbrev pub go_on : Run (Cluster p) → Run (Cluster p × Bool)
  go_on done = do node ← done; ok (node, true)

  -- The `switch` of `handleMessage`.
  unfoldable pub dispatch :
      Cluster p → ℕ → NodeWireMessage → (ℕ → ℤ) → ℕ → ℕ → Run (Cluster p × Bool)
  unfolding handle_verify
  dispatch node r msg remaining epoch now =
      if msg.code == msg_verify
      then handle_verify node r msg
      else if msg.code == msg_verify_ok
      then on_remote node r (λ x. ok (handle_verify_ok x))
      else if msg.code == msg_ping
      then on_remote node r (λ x. ok (handle_ping x))
      else if msg.code == msg_pong
      then on_remote node r (λ x. ok (handle_pong x))
      else if msg.code == msg_sync_rsp
      then go_on (handle_sync_response node msg)
      else if msg.code == msg_sync_req
      then on_remote node r (λ x. handle_sync_request node x msg)
      else if msg.code == msg_get_req
      then go_on (handle_get_request node r msg)
      else if msg.code == msg_get_rsp
      then go_on (handle_get_response node r msg)
      else if msg.code == msg_put
      then go_on (handle_put node msg remaining epoch now)
      else if msg.code == msg_del
      then go_on (handle_delete node msg now)
      else ok (node, true)

  -- One round of the loop of `handleMessage`: `false` where the method returns.
  unfoldable pub handle_message :
      Cluster p → ℕ → NodeWireMessage → (ℕ → ℤ) → ℕ → ℕ → Run (Cluster p × Bool)
  handle_message node r msg remaining epoch now = do
    x ← remote node r
    if is_disconnected x.state then ok (node, true) else dispatch node r msg remaining epoch now

  -- One message of the inbound queue: it is received, and handled.
  unfoldable pub message_round : Cluster p → ℕ → (ℕ → ℤ) → ℕ → ℕ → Run (Cluster p × Bool)
  unfolding handle_message
  message_round node r remaining epoch now = do
    x ← remote node r
    elim x.inbound_msg_queue [
      | [] ↦ ok (node, true)
      | msg ∷ rest ↦
          handle_message (set_remote node r (record x { inbound_msg_queue = rest })) r msg remaining
            epoch now
    ]
