-- ===== src/Cluster/Steps/Outcomes.antt =====
-- A property of what is done with a remote node, if it is there.
use ngbigcache.Base.{ℕ, Run, ◌>>=◌, Option-cases, inl, inr, get_elem?}
use ngbigcache.Base.Returns.{Holds}
use ngbigcache.Cluster.Types.{Platform, Cluster, RemoteNode, remote}
use ngbigcache.Cluster.Verify.Admission.{IsRemote}

module _ {p : Platform} where
  pub remote-bind {ℓ κ} :
      {B : Type ℓ} (P : B → Type κ) (node : Cluster p) (r : ℕ) (k : RemoteNode → Run B)
      → ((x : RemoteNode) → IsRemote node r x → Holds P (k x))
      → Holds P (remote node r >>= k)
  unfolding remote
  remote-bind P node r k h = elim (Option-cases (get_elem? node.objects r)) [
    | inl e ↦ rw (remote, e) tt
    | inr (x, e) ↦ rw (remote, e) (h x e)
  ]
