-- ===== src/Cluster/Membership/Retry.antt =====
-- How `join` of cluster/remoteNode.go ends when no attempt to connect succeeds.
use ngbigcache.Base.{
  ℕ, Bool-cases, inl, inr, zero, suc, ◌+◌, ◌≤◌, ◌≡◌, ◌∙◌, refl, ap, true, false, none,
  if◌then◌else◌, ltb, lt→ltb, le→ltb_false, eq_bytes_refl, Run, ok, ◌>>=◌, get_elem?-set_held,
  arith,
}
use ngbigcache.Base.Int.{pos, ltb_ℤ}
use ngbigcache.Base.Dict as dict
use ngbigcache.Base.Dict.{load-delete}
use ngbigcache.Cluster.Types.{Platform, Cluster, RemoteNode, handshake, remote, set_remote}
use ngbigcache.Cluster.Queues.{set_state}
use ngbigcache.Cluster.Verify.{event_unable_to_connect}
use ngbigcache.Cluster.Verify.Admission.{IsRemote}
use ngbigcache.Cluster.Membership.{JoinRound, again, gave_up, started, join_round, start_remote}

module _ {p : Platform} where
  -- So many attempts that all fail, after so many.
  unfoldable pub attempts : ℕ → Cluster p → ℕ → ℕ → Run (Cluster p × JoinRound)
  unfolding join_round
  attempts zero node r tries = ok (node, again tries)
  attempts (suc n) node r tries = do
    done ← join_round node r tries false
    elim done.1 [ again more ↦ attempts n done.0 r more | gave_up ↦ ok done | started ↦ ok done ]

  -- An attempt that fails.
  failure :
      (node : Cluster p) (r tries l : ℕ) (x : RemoteNode)
      → IsRemote node r x
      → x.config.connect_retries ≡ pos (suc l)
      → join_round node r tries false
        ≡ ok (
            if ltb (tries + 1) (suc l)
            then (node, again (tries + 1))
            else (event_unable_to_connect node x.config, gave_up))
  unfolding join_round start_remote remote set_remote set_state
  failure node r tries l x here e =
      let limited : ltb_ℤ (pos 0) x.config.connect_retries ≡ true = rw e (ground arith) in
      let below : ltb_ℤ (pos (tries + 1)) x.config.connect_retries ≡ ltb (tries + 1) (suc l) =
        rw e (ground arith) in
      let there = get_elem?-set_held node.objects r x (set_state x handshake) here in
      elim (Bool-cases (ltb (tries + 1) (suc l))) [
        | inl t ↦ rw (join_round, remote, here, start_remote, there, limited, below, t) refl
        | inr f ↦ rw (join_round, remote, here, start_remote, there, limited, below, f) refl
      ]

  few :
      (n : ℕ) (node : Cluster p) (r tries l : ℕ) (x : RemoteNode)
      → IsRemote node r x
      → x.config.connect_retries ≡ pos (suc l)
      → tries + n ≤ l
      → attempts n node r tries ≡ ok (node, again (tries + n))
  unfolding attempts
  few zero node r tries l x here e le = ap (λ m. ok (node, again m)) (omega arith)
  few (suc n) node r tries l x here e le =
      rw (failure node r tries l x here e, lt→ltb (tries + 1) (suc l) (omega (arith, le)))
        (few n node r (tries + 1) l x here e (omega (arith, le))
          ∙ ap (λ m. ok (node, again m)) (omega arith))

  all_failed :
      (n : ℕ) (node : Cluster p) (r tries l : ℕ) (x : RemoteNode)
      → IsRemote node r x
      → x.config.connect_retries ≡ pos (suc l)
      → tries + n ≡ l
      → attempts (suc n) node r tries ≡ ok (event_unable_to_connect node x.config, gave_up)
  unfolding attempts
  all_failed zero node r tries l x here e q =
      rw (failure node r tries l x here e, le→ltb_false (tries + 1) (suc l) (omega (arith, q))) refl
  all_failed (suc n) node r tries l x here e q =
      rw (failure node r tries l x here e, lt→ltb (tries + 1) (suc l) (omega (arith, q)))
        (all_failed n node r (tries + 1) l x here e (omega (arith, q)))

  -- If a remote node may try to connect a positive number of times, then while fewer attempts failed
  -- `join` tries again, and when that many failed it gives up, and the identity of the remote node is
  -- no longer pending.
  pub attempts-gave_up :
      (node : Cluster p) (r l : ℕ) (x : RemoteNode)
      → IsRemote node r x
      → x.config.connect_retries ≡ pos (suc l)
      → ((n : ℕ) → n ≤ l → attempts n node r 0 ≡ ok (node, again n))
        × ((left : Cluster p) × (attempts (suc l) node r 0 ≡ ok (left, gave_up))
            × (dict.load left.pending_conn x.config.id ≡ none))
  unfolding event_unable_to_connect
  attempts-gave_up node r l x here e = (
    λ n le.
        few n node r 0 l x here e (omega (arith, le)) ∙ ap (λ m. ok (node, again m)) (omega arith),
    (
      event_unable_to_connect node x.config,
      all_failed l node r 0 l x here e (omega arith),
      load-delete node.pending_conn x.config.id x.config.id ∙ rw (eq_bytes_refl x.config.id) refl,
    ),
  )
