-- ===== src/Cluster/Steps/Replicated.antt =====
-- Where a value that is put at a node of cluster/clusteredBigCache.go goes, from the call to the queues
-- of the remote nodes.
use ngbigcache.Base.{
  ℕ, zero, suc, remove_at, ◌≡◌, ◌≢◌, ◌≤◌, ◌<◌, refl, sym, subst, ap, false, none, some, List, [],
  ◌∷◌, ◌++◌, ==-cases, inl, inr, In, In-append_right, length, Bytes, ok, get_elem?, get_elem?-some,
  ◌∙◌,
}
use mathlib.Core.Option.{some-injective}
use ngbigcache.Base.Int.{ℤ}
use ngbigcache.Utils.SliceList as slice_list
use ngbigcache.Message.Any.{NodeMessage, put}
use ngbigcache.Cache.Shard.{expiry_timestamp}
use ngbigcache.Cache.BigCache.{BigCache}
use ngbigcache.Cache.BigCache.Abstract.{Table, Represents}
use ngbigcache.Cache.BigCache.Runs.{HasRoom, with_entry}
use ngbigcache.Cluster.Types.{
  Platform, Cluster, RemoteNode, cluster_state_started, cluster_mode_active, cluster_mode_passive,
  is_disconnected,
}
use ngbigcache.Cluster.Client.{addressed, put_data}
use ngbigcache.Cluster.Client.Replicate.{
  messages_for, takes, AllRemote, Addressed, IsOrder, in_order, in_order-some, length-remove_at,
  replication, replication-takes,
}
use ngbigcache.Cluster.Client.Replica.{put_data-replicates}
use ngbigcache.Cluster.Verify.Admission.{IsRemote}
use ngbigcache.Cluster.Steps.{Reach, next, puts, Fresh}
use ngbigcache.Cluster.Steps.Numbers.{firsts}
use ngbigcache.Cluster.Steps.Sound.{AllBelow}
use ngbigcache.Cluster.Steps.Reachable.{reached-IsSound}

-- A message to a remote node is among the messages for it.
In-messages_for :
    (r : ℕ) (m : NodeMessage) (chan : List (ℕ × NodeMessage))
    → In (r, m) chan
    → In m (messages_for r chan)
In-messages_for r m [] i = i
In-messages_for r m ((q, n) ∷ chan) (inl e) = elim (==-cases q r) [
  | inl (t, _) ↦ rw t (inl (ap (λ (z : ℕ × NodeMessage). z.1) e))
  | inr (_, n) ↦ absurd (n (ap (λ (z : ℕ × NodeMessage). z.0) (sym e)))
]
In-messages_for r m ((q, n) ∷ chan) (inr i) = elim (==-cases q r) [
  | inl (t, _) ↦ rw t (inr (In-messages_for r m chan i))
  | inr (f, _) ↦ rw f (In-messages_for r m chan i)
]

In-addressed : (r : ℕ) (m : NodeMessage) (rs : List ℕ) → In r rs → In (r, m) (addressed rs m)
In-addressed r m [] i = i
In-addressed r m (q ∷ rs) (inl e) = inl (ap (λ z. (z, m)) e)
In-addressed r m (q ∷ rs) (inr i) = inr (In-addressed r m rs i)

In-chosen :
    (c d : ℕ × NodeMessage) (k : ℕ) (chan : List (ℕ × NodeMessage))
    → get_elem? chan k ≡ some d
    → In c chan
    → In c (d ∷ remove_at k chan)
In-chosen c d k [] e i = absurd i
In-chosen c d zero (x ∷ chan) e (inl p) = inl (p ∙ some-injective x d e)
In-chosen c d zero (x ∷ chan) e (inr i) = inr i
In-chosen c d (suc k) (x ∷ chan) e (inl p) = inr (inl p)
In-chosen c d (suc k) (x ∷ chan) e (inr i) = elim (In-chosen c d k chan e i) [
  | inl p ↦ inl p
  | inr j ↦ inr (inr j)
]

-- Every message is sent in the end.
In-in_order :
    (c : ℕ × NodeMessage) (ks : List ℕ) (chan : List (ℕ × NodeMessage))
    → IsOrder ks (length chan)
    → In c chan
    → In c (in_order ks chan)
In-in_order c [] [] order i = i
In-in_order c (k ∷ ks) [] order i = absurd i
In-in_order c [] (x ∷ chan) order i = absurd order
In-in_order c (k ∷ ks) (x ∷ chan) (five, below, order) i =
    let (d, e) = get_elem?-some (x ∷ chan) k below in
    let shorter = length-remove_at k (x ∷ chan) (length chan) refl below in
    subst (In c) (sym (in_order-some k ks (x ∷ chan) d e)) (elim (In-chosen c d k (x ∷ chan) e i) [
      | inl p ↦ inl p
      | inr j ↦
          inr (In-in_order c ks (remove_at k (x ∷ chan)) (subst (IsOrder ks) (sym shorter) order) j)
    ])

took :
    (x : RemoteNode) (ms : List NodeMessage)
    → is_disconnected x.state ≡ false
    → takes x ms ≡ record x { outbound_msg_queue = x.outbound_msg_queue ++ ms }
took x ms on = rw on refl

module _ {p : Platform} where
  AllBelow-AllRemote :
      (node : Cluster p) (rs : List ℕ) → AllBelow (length node.objects) rs → AllRemote node rs
  AllBelow-AllRemote node [] all = tt
  AllBelow-AllRemote node (r ∷ rest) all =
      (get_elem?-some node.objects r all.0, AllBelow-AllRemote node rest all.1)

  AllBelow-Addressed :
      (node : Cluster p) (chan : List (ℕ × NodeMessage))
      → AllBelow (length node.objects) (firsts chan)
      → Addressed node chan
  AllBelow-Addressed node [] all r m i = elim i [ ]
  AllBelow-Addressed node ((q, n) ∷ chan) all r m (inl e) =
      get_elem?-some node.objects r
        (subst (λ z. z < length node.objects) (ap (λ (z : ℕ × NodeMessage). z.0) (sym e)) all.0)
  AllBelow-Addressed node ((q, n) ∷ chan) all r m (inr i) = AllBelow-Addressed node chan all.1 r m i

  module _ (first node : Cluster p) (new : Fresh first) (run : Reach first node) where
    -- At every started active node that comes of a new one by steps, whose channels are not closed
    -- and whose cache represents a table and has room for the entry, with a key of at most 65517
    -- bytes: `Put` returns without an error, the cache then represents the table with the entry, and in
    -- whatever order the five goroutines of `replication` send the messages that are not yet
    -- sent, their rounds return, after which every remote node in the list that is not passive
    -- and not disconnected has the put message in its queue.
    pub put_data-queues :
        (cache : BigCache p.lib) (t : Table) (key entry : Bytes) (duration : ℤ) (epoch now : ℕ)
        → node.state ≡ cluster_state_started
        → node.closed ≡ false
        → node.mode ≡ cluster_mode_active
        → node.cache ≡ some cache
        → Represents cache t
        → length key ≤ 65517
        → HasRoom cache key entry
        → (sent : Cluster p) × (cache' : BigCache p.lib) × (put_data node key entry duration epoch
              now
            ≡ ok (sent, none))
          × (sent.cache ≡ some cache')
          × Represents cache' (with_entry p.lib t key entry)
          × ((ks : List ℕ)
              → IsOrder ks (length sent.replication_chan)
              → (left : Cluster p) × (replication ks sent ≡ ok left)
                × ((r : ℕ) (x : RemoteNode)
                    → In r (slice_list.values node.remote_nodes)
                    → IsRemote node r x
                    → x.mode ≢ cluster_mode_passive
                    → is_disconnected x.state ≡ false
                    → (y : RemoteNode) × IsRemote left r y
                      × In
                          (put (record {
                            code = 0;
                            key = key;
                            contents = entry;
                            expiry = expiry_timestamp p.lib duration epoch;
                          }))
                          y.outbound_msg_queue))
    put_data-queues cache t key entry duration epoch now started unclosed active has represents fits
          room =
        let sound = reached-IsSound first node new run in
        let m : NodeMessage = put (record {
          code = 0;
          key = key;
          contents = entry;
          expiry = expiry_timestamp p.lib duration epoch;
        }) in
        let (sent, cache', peers, e, stored, after, chan, objects, mem) =
          put_data-replicates node cache t key entry duration epoch now started unclosed active has
            (AllBelow-AllRemote node (slice_list.values node.remote_nodes) sound.listed) represents
            fits room in
        let more =
          reached-IsSound first sent new (next run (puts key entry duration epoch now none e)) in
        (
          sent,
          cache',
          e,
          stored,
          after,
          λ ks order.
              let (left, f, _, _, seen) =
                replication-takes sent sent.replication_chan ks
                  (AllBelow-Addressed sent sent.replication_chan more.replicating) order in
              (
                left,
                f,
                λ r x listed here alive on.
                    let order_of = in_order ks sent.replication_chan in
                    let held : IsRemote sent r x = ap (λ xs. get_elem? xs r) objects ∙ here in
                    let queued : In (r, m) sent.replication_chan = subst (In (r, m)) (sym chan) (
                      In-append_right (r, m) node.replication_chan _
                        (In-addressed r m peers ((mem r).1 (listed, (x, here, alive))))) in
                    (
                      record x {
                        outbound_msg_queue = x.outbound_msg_queue ++ messages_for r order_of;
                      },
                      subst (IsRemote left r) (took x (messages_for r order_of) on) (seen r x held),
                      In-append_right m x.outbound_msg_queue _ (
                          In-messages_for r m order_of
                            (In-in_order (r, m) ks sent.replication_chan order queued)),
                    ),
              ),
        )
