-- ===== src/Cluster/Steps/Channels.antt =====
-- The goroutines `requestSenderForGET` and `replication` of cluster/clusteredBigCache.go.
use ngbigcache.Base.{
  ℕ, suc, zero, List, [], ◌∷◌, inl, inr, Option-cases, get_elem?, remove_at, length,
}
use ngbigcache.Cluster.Steps.Numbers.{firsts}
use ngbigcache.Cluster.Types.{Platform, Cluster, RemoteNode, GetRequestData, is_disconnected}
use ngbigcache.Cluster.Queues.{send_message}
use ngbigcache.Cluster.Handlers.{get_data}
use ngbigcache.Cluster.Client.{request_round, replication_round}
use ngbigcache.Base.Returns.{Holds, Holds-bind, Holds-if, Holds-ok, Holds-option}
use ngbigcache.Cluster.Steps.Outcomes.{remote-bind}
use ngbigcache.Cluster.Steps.Sound.{
  AllBelow, IsGated, AllGated-get, IsSound, set_remote-IsSound, send_message-IsGated,
}

get_data-IsGated :
    (x : RemoteNode) (req : GetRequestData) → IsGated x → Holds IsGated (get_data x req)
unfolding get_data
get_data-IsGated x req g =
    Holds-if IsGated (is_disconnected x.state) _ _ (λ _. g)
      (λ _.
        Holds-option IsGated x.pending_get _ _ (λ _. tt) (λ pending _. send_message-IsGated _ _ g))

AllBelow-remove :
    {M : Type 0} (n k : ℕ) (chan : List (ℕ × M))
    → AllBelow n (firsts chan)
    → AllBelow n (firsts (remove_at k chan))
AllBelow-remove n zero [] all = tt
AllBelow-remove n (suc k) [] all = tt
AllBelow-remove n zero ((r, m) ∷ chan) all = all.1
AllBelow-remove n (suc k) ((r, m) ∷ chan) all = (all.0, AllBelow-remove n k chan all.1)

module _ {p : Platform} where
  pub request_round-IsSound :
      (node : Cluster p) (k : ℕ) → IsSound node → Holds IsSound (request_round node k)
  unfolding request_round
  request_round-IsSound node k h = elim (Option-cases (get_elem? node.get_request_chan k)) [
    | inl e ↦ rw (request_round, e) h
    | inr ((r, req), e) ↦
        rw (request_round, e)
          (remote-bind IsSound node r _ (λ x here. Holds-bind IsSound (get_data x req) _ (λ y f.
            set_remote-IsSound
              (record node { get_request_chan = remove_at k node.get_request_chan }) r y
              (record {
                gated = h.gated;
                listed = h.listed;
                counted = h.counted;
                replicating = h.replicating;
                requesting =
                    AllBelow-remove (length node.objects) k node.get_request_chan h.requesting;
                numbered = h.numbered;
                stored = h.stored;
              })
              (Holds-ok IsGated (get_data x req) y
                (get_data-IsGated x req (AllGated-get node.objects r x h.gated here)) f))))
  ]

  pub replication_round-IsSound :
      (node : Cluster p) (k : ℕ) → IsSound node → Holds IsSound (replication_round node k)
  unfolding replication_round
  replication_round-IsSound node k h = elim (Option-cases (get_elem? node.replication_chan k)) [
    | inl e ↦ rw (replication_round, e) h
    | inr ((r, m), e) ↦
        rw (replication_round, e)
          (remote-bind IsSound node r _ (λ x here.
            set_remote-IsSound
              (record node { replication_chan = remove_at k node.replication_chan }) r
              (send_message x m)
              (record {
                gated = h.gated;
                listed = h.listed;
                counted = h.counted;
                replicating =
                    AllBelow-remove (length node.objects) k node.replication_chan h.replicating;
                requesting = h.requesting;
                numbered = h.numbered;
                stored = h.stored;
              })
              (send_message-IsGated x m (AllGated-get node.objects r x h.gated here))))
  ]
