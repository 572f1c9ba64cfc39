-- ===== src/Cluster/Wire/Gate.antt =====
-- `networkConsumer` of cluster/remoteNode.go: when it ends, and what it queues before a remote node is
-- verified.
use ngbigcache.Base.{
  ℕ, subst, zero, suc, ◌+◌, ◌-◌, ◌%◌, ◌^◌, ◌<◌, ◌≤◌, ◌≡◌, ◌⊎◌, ◌∙◌, refl, sym, ap, Bool, true,
  false, not, ◌&&◌, none, some, [], ◌∷◌, ◌++◌, ◌==◌, ==-cases, Bool-cases, inl, inr, Bytes, ok, In,
  In-snoc, length, take, drop, slice, read_le, le_value, ltb, length-take, length-drop,
  le→ltb_false, arith,
}
use ngbigcache.Message.{NodeWireMessage, msg_verify, msg_verify_ok}
use ngbigcache.Comms.Connection.{read_data}
use ngbigcache.Comms.Frame.{read_frame}
use ngbigcache.Cluster.Types.{RemoteNode, handshake, is_handshake, is_disconnected}
use ngbigcache.Cluster.Queues.{queue_inbound_message}
use ngbigcache.Cluster.Wire.{consume_round, network_consumer, reads}

-- `read_data` returns the bytes that were asked for, or not enough arrived.
read_data-cases :
    (stream : Bytes) (n : ℕ)
    → (read_data stream n ≡ none)
      ⊎ ((bytes : Bytes) × (rest : Bytes) × (read_data stream n ≡ some (bytes, rest))
          × (length bytes ≡ n)
          × (length rest + n ≡ length stream))
unfolding read_data
read_data-cases stream n = elim (Bool-cases (ltb (length stream) n)) [
  | inl t ↦ inl (rw t refl)
  | inr f ↦
      let le : n ≤ length stream = ground (arith, f) in
      inr (
        take n stream,
        drop n stream,
        rw f refl,
        omega (arith, length-take n stream),
        omega (arith, length-drop n stream),
      )
]

read_le_total :
    (w : ℕ) (b : Bytes) (off : ℕ)
    → off + w ≤ length b
    → read_le w b off ≡ ok (le_value (slice b off w))
unfolding read_le
read_le_total w b off le = rw (le→ltb_false (length b) (off + w) le) refl

-- A frame is read, and it had at least six bytes, or the stream ends.
read_frame-cases :
    (stream : Bytes)
    → (read_frame stream ≡ ok none)
      ⊎ ((msg : NodeWireMessage) × (rest : Bytes) × (read_frame stream ≡ ok (some (msg, rest)))
          × (length rest + 6 ≤ length stream))
unfolding read_frame
read_frame-cases stream = elim (read_data-cases stream 6) [
  | inl e ↦ inl (rw (read_frame, e) refl)
  | inr (header, rest, e, size, left) ↦
      let total = le_value (slice header 0 4) in
      let code = le_value (slice header 4 2) in
      let t : read_le 4 header 0 ≡ ok total = read_le_total 4 header 0 (omega (arith, size)) in
      let c : read_le 2 header 4 ≡ ok code = read_le_total 2 header 4 (omega (arith, size)) in
      elim (Bool-cases (ltb 0 ((total + 2 ^ 32 - 2) % 2 ^ 32))) [
        | inr f ↦ inr (
          record { code = code; contents = [] },
          rest,
          rw (read_frame, e, t, c, f) refl,
          omega (arith, left),
        )
        | inl g ↦ elim (read_data-cases rest ((total + 2 ^ 32 - 2) % 2 ^ 32)) [
          | inl n ↦ inl (rw (read_frame, e, t, c, g, n) refl)
          | inr (bytes, after, d, _, less) ↦ inr (
            record { code = code; contents = bytes },
            after,
            rw (read_frame, e, t, c, g, d) refl,
            omega (arith, left, less),
          )
        ]
      ]
]

-- A round ends the loop, or leaves a shorter stream.
consume_round-cases :
    (x : RemoteNode) (stream : Bytes)
    → (consume_round x stream ≡ ok (x, none))
      ⊎ ((msg : NodeWireMessage) × (rest : Bytes) × (consume_round x stream
            ≡ ok (queue_inbound_message x msg, some rest))
          × (length rest + 6 ≤ length stream))
unfolding consume_round
consume_round-cases x stream = elim (Bool-cases (reads x.state)) [
  | inr f ↦ inl (rw (consume_round, f) refl)
  | inl t ↦ elim (read_frame-cases stream) [
    | inl e ↦ inl (rw (consume_round, t, e) refl)
    | inr (msg, rest, e, less) ↦ inr (msg, rest, rw (consume_round, t, e) refl, less)
  ]
]

pub stop_lem :
    (x : RemoteNode) (stream : Bytes)
    → consume_round x stream ≡ ok (x, none)
    → (n : ℕ) → 0 < n
    → network_consumer n x stream ≡ ok (x, true)
unfolding network_consumer
stop_lem x stream e zero pos = absurd (omega arith)
stop_lem x stream e (suc n) pos = rw e refl

pub next_lem :
    (x y : RemoteNode) (stream rest : Bytes)
    → consume_round x stream ≡ ok (y, some rest)
    → (n : ℕ) → network_consumer (suc n) x stream ≡ network_consumer n y rest
unfolding network_consumer
next_lem x y stream rest e n = rw e refl

abbrev Ends : RemoteNode → Bytes → Type 0
Ends x stream =
    (x' : RemoteNode) × ((n : ℕ) → length stream < n → network_consumer n x stream ≡ ok (x', true))

one_more :
    (x y : RemoteNode) (stream rest : Bytes)
    → consume_round x stream ≡ ok (y, some rest)
    → length rest < length stream
    → Ends y rest
    → Ends x stream
one_more x y stream rest e less (x', all) = (x', more)
  where
    more : (n : ℕ) → length stream < n → network_consumer n x stream ≡ ok (x', true)
    more zero lt = absurd (omega arith)
    more (suc n) lt = next_lem x y stream rest e n ∙ all n (omega arith)

within_size : (size : ℕ) (x : RemoteNode) (stream : Bytes) → length stream ≤ size → Ends x stream
within_size zero x stream le = elim (consume_round-cases x stream) [
  | inl e ↦ (x, λ n lt. stop_lem x stream e n (omega arith))
  | inr (msg, rest, e, less) ↦ absurd (omega (arith, less))
]
within_size (suc size) x stream le = elim (consume_round-cases x stream) [
  | inl e ↦ (x, λ n lt. stop_lem x stream e n (omega arith))
  | inr (msg, rest, e, less) ↦
      one_more x (queue_inbound_message x msg) stream rest e (omega (arith, less))
        (within_size size (queue_inbound_message x msg) rest (omega (arith, less)))
]

-- The loop of `networkConsumer` returns on every stream: there is a remote node with which it has
-- returned as soon as it may take more rounds than the stream has bytes.
pub network_consumer-ends :
    (x : RemoteNode) (stream : Bytes)
    → (x' : RemoteNode) × ((n : ℕ)
        → length stream < n
        → network_consumer n x stream ≡ ok (x', true))
network_consumer-ends x stream = within_size (length stream) x stream (omega arith)

-- The code is one of the handshake.
abbrev pub IsHandshakeCode : NodeWireMessage → Type 0
IsHandshakeCode msg = (msg.code ≡ msg_verify) ⊎ (msg.code ≡ msg_verify_ok)

-- What is dropped, and what goes into the queue.
abbrev drops : RemoteNode → NodeWireMessage → Bool
drops x msg =
    is_handshake x.state && (not (msg.code == msg_verify) && not (msg.code == msg_verify_ok))

queue_dropped :
    (x : RemoteNode) (msg : NodeWireMessage)
    → drops x msg ≡ true
    → queue_inbound_message x msg
      ≡ record x { metrics = record x.metrics { dropped_msg = x.metrics.dropped_msg + 1 } }
unfolding queue_inbound_message
queue_dropped x msg t = rw (queue_inbound_message, t) refl

pub queue_taken :
    (x : RemoteNode) (msg : NodeWireMessage)
    → drops x msg ≡ false
    → is_disconnected x.state ≡ false
    → queue_inbound_message x msg ≡ record x { inbound_msg_queue = x.inbound_msg_queue ++ msg ∷ [] }
unfolding queue_inbound_message
queue_taken x msg f g = rw (queue_inbound_message, f, g) refl

drops-false :
    (x : RemoteNode) (msg : NodeWireMessage)
    → x.state ≡ handshake
    → drops x msg ≡ false
    → IsHandshakeCode msg
drops-false x msg at f = elim (==-cases msg.code msg_verify) [
  | inl (_, e) ↦ inl e
  | inr (t, _) ↦ elim (==-cases msg.code msg_verify_ok) [
    | inl (_, e) ↦ inr e
    | inr (u, _) ↦ absurd (let g : drops x msg ≡ true = rw (ap is_handshake at, t, u) refl in cc)
  ]
]

-- In the handshake, a message of another code is dropped.
queue-handshake :
    (x : RemoteNode) (msg : NodeWireMessage)
    → x.state ≡ handshake
    → ((queue_inbound_message x msg).state ≡ handshake)
      × ((m : NodeWireMessage)
          → In m (queue_inbound_message x msg).inbound_msg_queue
          → In m x.inbound_msg_queue ⊎ IsHandshakeCode m)
queue-handshake x msg at = elim (Bool-cases (drops x msg)) [
  | inl t ↦ rw (queue_dropped x msg t) (at, λ m i. inl i)
  | inr f ↦ rw (queue_taken x msg f (ap is_disconnected at)) (
    at,
    λ m i. elim (In-snoc m msg x.inbound_msg_queue i) [
      | inl o ↦ inl o
      | inr p ↦ inr (subst IsHandshakeCode (sym p) (drops-false x msg at f))
    ],
  )
]

-- If a remote node is in the handshake, then whatever bytes arrive and however many rounds the
-- consumer takes, they do not panic, the state is still the handshake, and every message that it queued has
-- the code of a verification or of its confirmation.
pub network_consumer-handshake :
    (n : ℕ) (x : RemoteNode) (stream : Bytes)
    → x.state ≡ handshake
    → (x' : RemoteNode) × (returned : Bool) × (network_consumer n x stream ≡ ok (x', returned))
      × (x'.state ≡ handshake)
      × ((m : NodeWireMessage)
          → In m x'.inbound_msg_queue
          → In m x.inbound_msg_queue ⊎ IsHandshakeCode m)
unfolding network_consumer
network_consumer-handshake zero x stream at = (x, false, refl, at, λ m i. inl i)
network_consumer-handshake (suc n) x stream at = elim (consume_round-cases x stream) [
  | inl e ↦ (x, true, rw e refl, at, λ m i. inl i)
  | inr (msg, rest, e, _) ↦
      let (at', only) = queue-handshake x msg at in
      let (x', returned, f, at'', only') =
        network_consumer-handshake n (queue_inbound_message x msg) rest at' in
      (
        x',
        returned,
        next_lem x (queue_inbound_message x msg) stream rest e n ∙ f,
        at'',
        λ m i. elim (only' m i) [ inl o ↦ only m o | inr c ↦ inr c ],
      )
]
