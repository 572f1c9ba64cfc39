-- ===== src/Cluster/Client/Replies.antt =====
-- Which reply a call of `Get` of cluster/clusteredBigCache.go returns.
use ngbigcache.Base.{
  ℕ, ◌≡◌, refl, true, false, none, List, [], ◌∷◌, ==-cases, inl, inr, Bytes, value, error,
}
use ngbigcache.Base.Assoc as assoc
use ngbigcache.Cluster.Types.{Platform, Cluster}
use ngbigcache.Cluster.Handlers.{reply, member, without}
use ngbigcache.Cluster.Client.{timed_out, get_finish}

member-without : (n : ℕ) (ns : List ℕ) → member n (without n ns) ≡ false
member-without n [] = refl
member-without n (m ∷ ms) = elim (==-cases n m) [
  | inl (t, _) ↦ rw t (member-without n ms)
  | inr (f, _) ↦ rw (f, f) (member-without n ms)
]

module _ {p : Platform} where
  ignored :
      (node : Cluster p) (number : ℕ) (bytes : Bytes)
      → member number node.waiting ≡ false
      → reply node number bytes ≡ node
  unfolding reply
  ignored node number bytes f = rw (reply, f) refl

  taken :
      (node : Cluster p) (number : ℕ) (bytes : Bytes)
      → member number node.waiting ≡ true
      → reply node number bytes ≡ record node {
        waiting = without number node.waiting;
        replies = (number, bytes) ∷ node.replies;
      }
  unfolding reply
  taken node number bytes t = rw (reply, t) refl

  expired :
      (node : Cluster p) (number : ℕ)
      → assoc.get node.replies number ≡ none
      → get_finish node number
        ≡ (record node { waiting = without number node.waiting }, error timed_out)
  unfolding get_finish
  expired node number e = rw (get_finish, e) refl

  first_reply :
      (node : Cluster p) (number : ℕ) (bytes : Bytes)
      → (get_finish (record node { replies = (number, bytes) ∷ node.replies }) number).1
        ≡ value bytes
  unfolding get_finish assoc.get
  first_reply node number bytes = elim (==-cases number number) [
    | inl (t, _) ↦ rw (get_finish, t) refl
    | inr (_, n) ↦ absurd (n refl)
  ]

  -- If a call of `Get` waits and was given no reply, then it returns the first one that is given
  -- to it, and a second one changes nothing; and if its time is over before, it returns the
  -- error for that, and a reply that comes then changes nothing.
  pub get_finish-reply :
      (node : Cluster p) (number : ℕ) (first second : Bytes)
      → member number node.waiting ≡ true
      → assoc.get node.replies number ≡ none
      → (reply (reply node number first) number second ≡ reply node number first)
        × ((get_finish (reply node number first) number).1 ≡ value first)
        × ((get_finish node number).1 ≡ error timed_out)
        × (reply (get_finish node number).0 number second ≡ (get_finish node number).0)
  get_finish-reply node number first second waits none_yet = (
    rw (taken node number first waits)
        (ignored _ number second (member-without number node.waiting)),
    rw (taken node number first waits)
        (first_reply (record node { waiting = without number node.waiting }) number first),
    rw (expired node number none_yet) refl,
    rw (expired node number none_yet)
        (ignored _ number second (member-without number node.waiting)),
  )
