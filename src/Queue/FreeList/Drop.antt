-- ===== src/Queue/FreeList/Drop.antt =====
-- An item leaves the free list: both its keys are removed, and its place in its size list.
use ngbigcache.Base.{
  ℕ, ◌+◌, ◌-◌, ◌≡◌, ◌≢◌, refl, sym, subst, ◌∙◌, ◌⊎◌, inl, inr, none, some, List, In, Distinct,
  arith, ◌==◌, if◌then◌else◌,
}
use mathlib.Core.Option.{some-injective}
use ngbigcache.Gods.{AvlTree}
use ngbigcache.Queue.FreeList.{FreeList}
use ngbigcache.Queue.FreeList.Valid.{Live, Keyed, IsValid, Unlinked}

module _ {avl : AvlTree ℕ} (list : FreeList avl) (valid : IsValid list) (v : ℕ) (live : Live list v)
    (a b : ℕ) (tree : avl.Tree) (lists : ℕ → List ℕ)
    (ends : ((a ≡ (list.items v).parent_index)
        × (b ≡ (list.items v).parent_index + (list.items v).actual_size - 1))
      ⊎ ((b ≡ (list.items v).parent_index)
          × (a ≡ (list.items v).parent_index + (list.items v).actual_size - 1)))
    (gone : (k : ℕ)
      → avl.get tree k
        ≡ (if b == k then none else if a == k then none else avl.get list.index_tree k))
    (left : (c y : ℕ) → In y (lists c) → In y (list.size_list c) × (y ≢ v))
    (once : (c : ℕ) → Distinct (lists c)) where
  abbrev dropped : FreeList avl
  dropped = record list { index_tree = tree; size_list = lists }

  -- A key that is left is no end of `v`, and was there before.
  key_left :
      (k x : ℕ) → avl.get tree k ≡ some x → (avl.get list.index_tree k ≡ some x) × (k ≢ a) × (k ≢ b)
  key_left k x e = ground (arith, gone k)

  key_kept :
      (k x : ℕ) → avl.get list.index_tree k ≡ some x → k ≢ a → k ≢ b → avl.get tree k ≡ some x
  key_kept k x e na nb = ground (arith, gone k)

  -- Both keys of the item lead to it.
  end_key : (k : ℕ) → (k ≡ a) ⊎ (k ≡ b) → avl.get list.index_tree k ≡ some v
  end_key k h = ground (arith, valid.keyed (list.items v).parent_index v live)

  other_key : (k x : ℕ) → avl.get list.index_tree k ≡ some x → x ≢ v → (k ≢ a) × (k ≢ b)
  other_key k x e n = (
    λ p. n (some-injective _ _ (sym e ∙ end_key k (inl p))),
    λ p. n (some-injective _ _ (sym e ∙ end_key k (inr p))),
  )

  dropped-Live : (x : ℕ) → Live dropped x → Live list x × (x ≢ v)
  dropped-Live x h =
      ((key_left _ x h).0, λ e. ground (arith, key_left (list.items x).parent_index x h, ends))

  Live-dropped : (x : ℕ) → Live list x → x ≢ v → Live dropped x
  Live-dropped x h n = let o = other_key (list.items x).parent_index x h n in key_kept _ x h o.0 o.1

  dropped-Keyed : (k x : ℕ) → avl.get tree k ≡ some x → Keyed dropped k x
  dropped-Keyed k x e =
      let was = key_left k x e in
      let old = valid.keyed k x was.0 in
      let n = λ (p : x ≡ v).
        let q = valid.keyed k v (subst (λ y. avl.get list.index_tree k ≡ some y) p was.0) in
        (let bad : ⊥ = ground (arith, q.0, was.1, was.2, ends) in bad) in
      let last =
        other_key ((list.items x).parent_index + (list.items x).actual_size - 1) x old.2 n in
      (old.0, Live-dropped x old.1 n, key_kept _ x old.2 last.0 last.1, old.3, old.4)

  dropped-IsValid : IsValid dropped
  dropped-IsValid = record {
    keyed = dropped-Keyed;
    apart = λ x y hx hy n. valid.apart x y (dropped-Live x hx).0 (dropped-Live y hy).0 n;
    listed = λ c x h.
        let was = left c x h in
        let old = valid.listed c x was.0 in (Live-dropped x old.0 was.1, old.1);
    distinct = once;
  }

  pub dropped-Unlinked : Unlinked list v (record list { index_tree = tree; size_list = lists })
  dropped-Unlinked = record {
    valid = dropped-IsValid;
    same = λ x. refl;
    old = dropped-Live;
    kept = Live-dropped;
  }
