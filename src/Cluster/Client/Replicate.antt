-- ===== src/Cluster/Client/Replicate.antt =====
-- What `Put` and `Delete` of cluster/clusteredBigCache.go send, and where `replication` brings it.
use ngbigcache.Base.{
  ℕ, subst, zero, suc, ◌≡◌, ◌≢◌, ◌⊎◌, ◌↔◌, ◌∙◌, refl, sym, ap, true, false, List, [], ◌∷◌, ◌++◌,
  ◌==◌, ==-cases, Bool-cases, inl, inr, if◌then◌else◌, Run, ok, ◌>>=◌, In, get_elem?, set,
  get_elem?-set_held, get_elem?-set_ne, length, ◌<◌, some, none, remove_at, In-remove_at,
  get_elem?-some, In-get_elem?, arith,
}
use mathlib.Core.Option.{some-injective}
use mathlib.Core.List.{append-nil, append_assoc, Perm}
use mathlib.Core.List.Perm
use ngbigcache.Message.Any.{NodeMessage}
use ngbigcache.Cluster.Types.{
  Platform, Cluster, RemoteNode, cluster_mode_passive, remote, set_remote, is_disconnected,
}
use ngbigcache.Cluster.Queues.{send_message}
use ngbigcache.Cluster.Verify.Admission.{IsRemote}
use ngbigcache.Cluster.Client.{active_peers, replication_round}

-- The messages for a remote node.
abbrev pub messages_for : ℕ → List (ℕ × NodeMessage) → List NodeMessage
messages_for r [] = []
messages_for r ((q, m) ∷ rest) =
    let others = messages_for r rest in if q == r then m ∷ others else others

-- A remote node that took these messages.
abbrev pub takes : RemoteNode → List NodeMessage → RemoteNode
takes x ms =
    if is_disconnected x.state
    then x
    else record x { outbound_msg_queue = x.outbound_msg_queue ++ ms }

takes-send_message :
    (x : RemoteNode) (m : NodeMessage) (ms : List NodeMessage)
    → takes (send_message x m) ms ≡ takes x (m ∷ ms)
unfolding send_message
takes-send_message x m ms = elim (Bool-cases (is_disconnected x.state)) [
  | inl t ↦
      (let same : send_message x m ≡ x = rw (send_message, t) refl in
        ap (λ z. takes z ms) same ∙ rw t refl)
  | inr f ↦
      (let more : send_message x m
            ≡ record x { outbound_msg_queue = x.outbound_msg_queue ++ m ∷ [] } =
          rw (send_message, f) refl in
        ap (λ z. takes z ms) more ∙ rw (f, append_assoc x.outbound_msg_queue (m ∷ []) ms) refl)
]

takes_none : (x : RemoteNode) → takes x [] ≡ x
takes_none x = elim (Bool-cases (is_disconnected x.state)) [
  | inl t ↦ rw t refl
  | inr f ↦ rw (f, append-nil x.outbound_msg_queue) refl
]

-- The positions that the goroutines choose, one after another, among so many messages that are
-- not yet sent: each is one of the first five of those that are left, till none is left.
abbrev pub IsOrder : List ℕ → ℕ → Type 0
IsOrder [] zero = Unit
IsOrder [] (suc n) = ⊥
IsOrder (k ∷ ks) zero = ⊥
IsOrder (k ∷ ks) (suc n) = (k < 5) × (k < suc n) × IsOrder ks n

-- The messages in the order in which they are chosen.
abbrev pub in_order : List ℕ → List (ℕ × NodeMessage) → List (ℕ × NodeMessage)
in_order [] chan = []
in_order (k ∷ ks) chan =
    let rest = in_order ks (remove_at k chan) in
    elim (get_elem? chan k) [ none ↦ rest | some c ↦ c ∷ rest ]

pub in_order-some :
    (k : ℕ) (ks : List ℕ) (chan : List (ℕ × NodeMessage)) (c : ℕ × NodeMessage)
    → get_elem? chan k ≡ some c
    → in_order (k ∷ ks) chan ≡ c ∷ in_order ks (remove_at k chan)
in_order-some k ks chan c e = rw (in_order, e) refl

module _ {A : Type 0} where
  pub length-remove_at :
      (k : ℕ) (xs : List A) (n : ℕ) → length xs ≡ suc n → k < suc n → length (remove_at k xs) ≡ n
  length-remove_at k [] n e lt = absurd (omega (arith, e))
  length-remove_at zero (x ∷ xs) n e lt = omega (arith, e)
  length-remove_at (suc k) (x ∷ xs) zero e lt = absurd (omega arith)
  length-remove_at (suc k) (x ∷ xs) (suc n) e lt =
      ap suc (length-remove_at k xs n (omega (arith, e)) (omega arith))

  Perm-remove_at :
      (k : ℕ) (xs : List A) (x : A) → get_elem? xs k ≡ some x → Perm (x ∷ remove_at k xs) xs
  Perm-remove_at k [] x e = absurd (let f : none ≡ some x = e in cc)
  Perm-remove_at zero (y ∷ xs) x e =
      subst (λ z. Perm (x ∷ xs) (z ∷ xs)) (sym (some-injective y x e)) (Perm.refl (x ∷ xs))
  Perm-remove_at (suc k) (y ∷ xs) x e =
      Perm.trans (Perm.swap y x (remove_at k xs)) (Perm.cons y (Perm-remove_at k xs x e))

module _ {p : Platform} where
  -- Every pointer in a list is that of a remote node.
  abbrev pub AllRemote : Cluster p → List ℕ → Type 0
  AllRemote node [] = Unit
  AllRemote node (r ∷ rest) = ((x : RemoteNode) × IsRemote node r x) × AllRemote node rest

  -- The remote node at a pointer is one that is not passive.
  abbrev pub IsActive : Cluster p → ℕ → Type 0
  IsActive node r = (x : RemoteNode) × IsRemote node r x × (x.mode ≢ cluster_mode_passive)

  active_step :
      (node : Cluster p) (r : ℕ) (rest peers : List ℕ) (x : RemoteNode)
      → IsRemote node r x
      → active_peers node rest ≡ ok peers
      → active_peers node (r ∷ rest)
        ≡ ok (if x.mode == cluster_mode_passive then peers else r ∷ peers)
  unfolding active_peers remote
  active_step node r rest peers x here e = rw (remote, here, e) refl

  same_remote :
      (node : Cluster p) (r v : ℕ) (x y : RemoteNode)
      → IsRemote node v x
      → IsRemote node r y
      → r ≡ v
      → y ≡ x
  same_remote node r v x y here there e =
      some-injective _ _ (sym there ∙ ap (get_elem? node.objects) e ∙ here)

  -- The pointers of the remote nodes that are not passive are found, and no others.
  pub active_peers_lem :
      (node : Cluster p) (values : List ℕ)
      → AllRemote node values
      → (peers : List ℕ) × (active_peers node values ≡ ok peers)
        × ((r : ℕ) → In r peers ↔ (In r values × IsActive node r))
  unfolding active_peers
  active_peers_lem node [] all = ([], refl, λ r. (λ i. absurd i, λ i. absurd i.0))
  active_peers_lem node (v ∷ values) ((x, here), all) =
      let (peers, e, mem) = active_peers_lem node values all in
      elim (==-cases x.mode cluster_mode_passive) [
        | inl (t, passive) ↦ (
          peers,
          active_step node v values peers x here e ∙ rw t refl,
          λ r. (
            λ i. let (j, act) = (mem r).0 i in (inr j, act),
            λ (i, (y, there, n)). elim i [
              | inl q ↦ absurd (
                  n (
                    ap (λ (z : RemoteNode). z.mode) (same_remote node r v x y here there q)
                    ∙ passive))
              | inr j ↦ (mem r).1 (j, (y, there, n))
            ],
          ),
        )
        | inr (f, active) ↦ (
          v ∷ peers,
          active_step node v values peers x here e ∙ rw f refl,
          λ r. (
            λ i. elim i [
              | inl q ↦ (inl q, (x, ap (get_elem? node.objects) q ∙ here, active))
              | inr j ↦ (let (k, act) = (mem r).0 j in (inr k, act))
            ],
            λ (i, act). elim i [ inl q ↦ inl q | inr j ↦ inr ((mem r).1 (j, act)) ],
          ),
        )
      ]

  -- Rounds of the goroutines of `replication`, each for the message at a position.
  unfoldable pub replication : List ℕ → Cluster p → Run (Cluster p)
  unfolding replication_round
  replication [] node = ok node
  replication (k ∷ ks) node = do next ← replication_round node k; replication ks next

  -- The remote nodes of the messages are there.
  abbrev pub Addressed : Cluster p → List (ℕ × NodeMessage) → Type 0
  Addressed node chan =
      (r : ℕ) (m : NodeMessage) → In (r, m) chan → (x : RemoteNode) × IsRemote node r x

  -- A write through one pointer, seen through another.
  written :
      (node : Cluster p) (q r : ℕ) (x y z : RemoteNode)
      → IsRemote node q y
      → IsRemote node r x
      → (((q == r) ≡ true) × (y ≡ x) × IsRemote (set_remote node q z) r z)
        ⊎ (((q == r) ≡ false) × IsRemote (set_remote node q z) r x)
  unfolding set_remote
  written node q r x y z there here = elim (==-cases q r) [
    | inl (t, e) ↦ inl (
      t,
      same_remote node q r x y here there e,
      ap (get_elem? (set node.objects q z)) (sym e) ∙ get_elem?-set_held node.objects q y z there,
    )
    | inr (f, n) ↦ inr (f, get_elem?-set_ne node.objects q r z n ∙ here)
  ]

  round_lem :
      (node : Cluster p) (chan : List (ℕ × NodeMessage)) (k q : ℕ) (m : NodeMessage)
      (y : RemoteNode)
      → get_elem? chan k ≡ some (q, m)
      → IsRemote node q y
      → replication_round (record node { replication_chan = chan }) k
        ≡ ok (record (set_remote node q (send_message y m)) { replication_chan = remove_at k chan })
  unfolding replication_round set_remote remote
  round_lem node chan k q m y e there = rw (replication_round, e) (rw (remote, there) refl)

  kept :
      (node : Cluster p) (chan : List (ℕ × NodeMessage)) (k q : ℕ) (m : NodeMessage)
      (y : RemoteNode)
      → Addressed node chan
      → IsRemote node q y
      → Addressed (set_remote node q (send_message y m)) (remove_at k chan)
  kept node chan k q m y there at r m' i =
      let (x, here) = there r m' (In-remove_at (r, m') chan k i) in
      elim (written node q r x y (send_message y m) at here) [
        | inl (_, _, w) ↦ (send_message y m, w)
        | inr (_, w) ↦ (x, w)
      ]

  seen :
      (node left : Cluster p) (sent : List (ℕ × NodeMessage)) (q : ℕ) (m : NodeMessage)
      (y : RemoteNode)
      → IsRemote node q y
      → ((r : ℕ) (x : RemoteNode)
          → IsRemote (set_remote node q (send_message y m)) r x
          → IsRemote left r (takes x (messages_for r sent)))
      → (r : ℕ) (x : RemoteNode) → IsRemote node r x
      → IsRemote left r (takes x (messages_for r ((q, m) ∷ sent)))
  seen node left sent q m y at all r x here =
      elim (written node q r x y (send_message y m) at here) [
        | inl (t, s, w) ↦ rw t (
            subst (λ z. IsRemote left r z)
              (ap (λ z. takes (send_message z m) (messages_for r sent)) s
                ∙ takes-send_message x m (messages_for r sent))
              (all r (send_message y m) w))
        | inr (f, w) ↦ rw f (all r x w)
      ]

  -- If the remote nodes of the messages are there, then in whatever order the five goroutines of
  -- `replication` send the messages that are not yet sent, their rounds return and none is left,
  -- each was sent once, and every remote node that is not disconnected has at the end of its queue
  -- the messages for it, in the order of sending; one that is disconnected is as before.
  pub replication-takes :
      (node : Cluster p) (chan : List (ℕ × NodeMessage)) (ks : List ℕ)
      → Addressed node chan
      → IsOrder ks (length chan)
      → (left : Cluster p) × (replication ks (record node { replication_chan = chan }) ≡ ok left)
        × (left.replication_chan ≡ [])
        × Perm (in_order ks chan) chan
        × ((r : ℕ) (x : RemoteNode)
            → IsRemote node r x
            → IsRemote left r (takes x (messages_for r (in_order ks chan))))
  unfolding replication
  replication-takes node [] [] there order = (
    record node { replication_chan = [] },
    refl,
    refl,
    Perm.refl [],
    λ r x here. rw (takes_none x) here,
  )
  replication-takes node (_ ∷ _) [] there order = absurd order
  replication-takes node [] (k ∷ ks) there order = absurd order
  replication-takes node (c ∷ chan) (k ∷ ks) there (five, below, order) =
      let ((q, m), e) = get_elem?-some (c ∷ chan) k below in
      let (y, at) = there q m (In-get_elem? (q, m) (c ∷ chan) k e) in
      let next = set_remote node q (send_message y m) in
      let rest = remove_at k (c ∷ chan) in
      let shorter : length rest ≡ length chan =
        length-remove_at k (c ∷ chan) (length chan) refl below in
      let (left, f, g, perm, all) =
        replication-takes next rest ks (kept node (c ∷ chan) k q m y there at)
          (subst (IsOrder ks) (sym shorter) order) in
      (
        left,
        rw (round_lem node (c ∷ chan) k q m y e at) f,
        g,
        subst (λ l. Perm l (c ∷ chan)) (sym (in_order-some k ks (c ∷ chan) (q, m) e))
            (Perm.trans (Perm.cons (q, m) perm) (Perm-remove_at k (c ∷ chan) (q, m) e)),
        subst
            (λ l.
              (r : ℕ) (x : RemoteNode)
              → IsRemote node r x
              → IsRemote left r (takes x (messages_for r l)))
            (sym (in_order-some k ks (c ∷ chan) (q, m) e))
            (seen node left (in_order ks rest) q m y at all),
      )
