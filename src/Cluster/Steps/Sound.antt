-- ===== src/Cluster/Steps/Sound.antt =====
-- What stays true of a node of cluster/clusteredBigCache.go, and how single changes keep it.
use ngbigcache.Base.{
  ℕ, zero, suc, eq_bytes, refl, ◌<◌, ◌≤◌, ◌≡◌, refl, sym, subst, Bool, true, false, ◌||◌, Option,
  none, some, List, [], ◌∷◌, ◌++◌, ◌==◌, length, length-set, length-append, set, get_elem?, In,
  arith, inl, inr, Bool-cases, Bytes, Option-cases,
}
use mathlib.Core.Option.{some-injective}
use ngbigcache.Base.Dict as dict
use ngbigcache.Utils.SliceList as slice_list
use ngbigcache.Utils.SliceList.{SliceList, seconds}
use ngbigcache.Utils.SliceList.Laws.{IsCounted}
use ngbigcache.Message.{NodeWireMessage, msg_verify, msg_verify_ok}
use ngbigcache.Message.Any.{NodeMessage}
use ngbigcache.Cache.BigCache.{BigCache}
use ngbigcache.Cluster.Types.{
  Platform, Cluster, RemoteNode, NodeState, connecting, connected, disconnected, handshake,
  GetRequestData, cluster_mode_active, set_remote, new_object,
}
use ngbigcache.Cluster.Queues.{send_message}
use ngbigcache.Cluster.Steps.Numbers.{firsts, AreNumbers}

-- Every number in a list is less than a bound.
abbrev pub AllBelow : ℕ → List ℕ → Type 0
AllBelow n [] = Unit
AllBelow n (r ∷ rest) = (r < n) × AllBelow n rest

abbrev pub is_some : {A : Type 0} → Option A → Bool
is_some none = false
is_some (some a) = true

-- Only messages that verify.
abbrev pub AllVerify : List NodeWireMessage → Type 0
AllVerify [] = Unit
AllVerify (m ∷ rest) =
    (((m.code == msg_verify) || (m.code == msg_verify_ok)) ≡ true) × AllVerify rest

-- What may wait in the inbound queue of a remote node in a state.
abbrev pub Gated : NodeState → List NodeWireMessage → Type 0
Gated connecting q = q ≡ []
Gated handshake q = AllVerify q
Gated connected q = Unit
Gated disconnected q = Unit

abbrev pub IsGated : RemoteNode → Type 0
IsGated x = Gated x.state x.inbound_msg_queue

abbrev pub AllGated : List RemoteNode → Type 0
AllGated [] = Unit
AllGated (x ∷ xs) = IsGated x × AllGated xs

-- The parts of a node that the invariant speaks of.
pub record Sound (objects : List RemoteNode) (list : SliceList ℕ) (sent : List (ℕ × NodeMessage))
    (asked : List (ℕ × GetRequestData)) (calls : List ℕ) (bound : ℕ) (active cached : Bool)
    : Type 0 where
  pub gated : AllGated objects
  pub listed : AllBelow (length objects) (slice_list.values list)
  pub counted : IsCounted list
  pub replicating : AllBelow (length objects) (firsts sent)
  pub requesting : AllBelow (length objects) (firsts asked)
  pub numbered : AreNumbers bound calls
  pub stored : active ≡ true → cached ≡ true

AllBelow-weaken : (m n : ℕ) (rs : List ℕ) → m ≤ n → AllBelow m rs → AllBelow n rs
AllBelow-weaken m n [] h all = tt
AllBelow-weaken m n (r ∷ rest) h all = (omega (arith, all.0), AllBelow-weaken m n rest h all.1)

pub AllBelow-append :
    (n : ℕ) (rs qs : List ℕ) → AllBelow n rs → AllBelow n qs → AllBelow n (rs ++ qs)
AllBelow-append n [] qs h k = k
AllBelow-append n (r ∷ rest) qs h k = (h.0, AllBelow-append n rest qs h.1 k)

pub AllBelow-In : (n r : ℕ) (rs : List ℕ) → AllBelow n rs → In r rs → r < n
AllBelow-In n r [] all i = elim i [ ]
AllBelow-In n r (q ∷ rest) all (inl e) = subst (λ z. z < n) (sym e) all.0
AllBelow-In n r (q ∷ rest) all (inr i) = AllBelow-In n r rest all.1 i

pub AllGated-set :
    (xs : List RemoteNode) (r : ℕ) (y : RemoteNode)
    → AllGated xs
    → IsGated y
    → AllGated (set xs r y)
AllGated-set [] r y all g = tt
AllGated-set (x ∷ xs) zero y all g = (g, all.1)
AllGated-set (x ∷ xs) (suc r) y all g = (all.0, AllGated-set xs r y all.1 g)

pub AllGated-append : (xs ys : List RemoteNode) → AllGated xs → AllGated ys → AllGated (xs ++ ys)
AllGated-append [] ys h k = k
AllGated-append (x ∷ xs) ys h k = (h.0, AllGated-append xs ys h.1 k)

pub AllGated-get :
    (xs : List RemoteNode) (r : ℕ) (x : RemoteNode)
    → AllGated xs
    → get_elem? xs r ≡ some x
    → IsGated x
AllGated-get [] r x all e = absurd (let f : none ≡ some x = e in cc)
AllGated-get (y ∷ xs) zero x all e = subst IsGated (some-injective _ _ e) all.0
AllGated-get (y ∷ xs) (suc r) x all e = AllGated-get xs r x all.1 e

module _ {p : Platform} where
  -- All that is in remote_nodes and in the channels is a remote node, the counter of the list is
  -- right, only verifications wait at a remote node that is not verified, the numbers of the calls
  -- of `Get` that wait or were answered are different numbers of calls, and an active node has a
  -- cache.
  abbrev pub IsSound : Cluster p → Type 0
  IsSound node =
      Sound node.objects node.remote_nodes node.replication_chan node.get_request_chan
        (node.selecting ++ (node.waiting ++ firsts node.replies)) node.calls
        (node.mode == cluster_mode_active) (is_some node.cache)

  -- What a node that is returned with something else satisfies.
  abbrev pub After {ℓ} : {A : Type ℓ} → Cluster p × A → Type 0
  After r = IsSound r.0

  -- A node with a cache.
  pub cached-IsSound :
      (node : Cluster p) (cache : BigCache p.lib)
      → IsSound node
      → IsSound (record node { cache = some cache })
  cached-IsSound node cache h = record {
    gated = h.gated;
    listed = h.listed;
    counted = h.counted;
    replicating = h.replicating;
    requesting = h.requesting;
    numbered = h.numbered;
    stored = λ e. refl;
  }

  pub set_remote-IsSound :
      (node : Cluster p) (r : ℕ) (y : RemoteNode)
      → IsSound node
      → IsGated y
      → IsSound (set_remote node r y)
  unfolding set_remote
  set_remote-IsSound node r y h g =
      let same = sym (length-set node.objects r y) in
      record {
        gated = AllGated-set node.objects r y h.gated g;
        listed = subst (λ n. AllBelow n (slice_list.values node.remote_nodes)) same h.listed;
        counted = h.counted;
        replicating = subst (λ n. AllBelow n (firsts node.replication_chan)) same h.replicating;
        requesting = subst (λ n. AllBelow n (firsts node.get_request_chan)) same h.requesting;
        numbered = h.numbered;
        stored = h.stored;
      }

  pub new_object-IsSound :
      (node : Cluster p) (y : RemoteNode) → IsSound node → IsGated y → IsSound (new_object node y).0
  unfolding new_object
  new_object-IsSound node y h g =
      let more : length node.objects ≤ length (node.objects ++ y ∷ []) =
        omega (arith, length-append node.objects (y ∷ [])) in
      record {
        gated = AllGated-append node.objects (y ∷ []) h.gated (g, tt);
        listed = AllBelow-weaken _ _ _ more h.listed;
        counted = h.counted;
        replicating = AllBelow-weaken _ _ _ more h.replicating;
        requesting = AllBelow-weaken _ _ _ more h.requesting;
        numbered = h.numbered;
        stored = h.stored;
      }

-- The values of a list of remote nodes after `Add` and `Remove`.
AllBelow-delete :
    (n : ℕ) (items : List (Bytes × ℕ)) (key : Bytes)
    → AllBelow n (seconds items)
    → AllBelow n (seconds (dict.delete items key))
unfolding dict.delete
AllBelow-delete n [] key all = tt
AllBelow-delete n ((k, r) ∷ rest) key all = elim (Bool-cases (eq_bytes k key)) [
  | inl t ↦ rw t (AllBelow-delete n rest key all.1)
  | inr f ↦ rw f (all.0, AllBelow-delete n rest key all.1)
]

pub AllBelow-add :
    (n : ℕ) (list : SliceList ℕ) (key : Bytes) (r : ℕ)
    → r < n
    → AllBelow n (slice_list.values list)
    → AllBelow n (slice_list.values (slice_list.add list key r))
unfolding slice_list.values slice_list.add dict.store
AllBelow-add n list key r h all = (h, AllBelow-delete n list.items key all)

pub AllBelow-remove :
    (n : ℕ) (list : SliceList ℕ) (key : Bytes)
    → AllBelow n (slice_list.values list)
    → AllBelow n (slice_list.values (slice_list.remove list key))
unfolding slice_list.values slice_list.remove
AllBelow-remove n list key all = elim (Option-cases (dict.load list.items key)) [
  | inl e ↦ rw (slice_list.remove, e) all
  | inr (v, e) ↦ rw (slice_list.remove, e) (AllBelow-delete n list.items key all)
]

pub send_message-IsGated :
    (x : RemoteNode) (m : NodeMessage) → IsGated x → IsGated (send_message x m)
unfolding send_message
send_message-IsGated x m g = ground arith
