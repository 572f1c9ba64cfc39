-- ===== src/Queue/FreeList/Shrink.antt =====
-- The case of `find_in_size_list` that cuts a block off the front of an item and leaves the item
-- in its list, with its last position still in the tree.
use ngbigcache.Base.{
  ℕ, ◌+◌, ◌-◌, ◌≤◌, ◌<◌, ◌≡◌, ◌≢◌, sym, subst, ◌∙◌, ◌⊎◌, inl, inr, none, some, In, ap, arith, ◌==◌,
  if◌then◌else◌, ==-cases,
}
use ngbigcache.Gods.{AvlTree}
use ngbigcache.Queue.FreeList.{ItemPos, FreeList, size_class, update}
use ngbigcache.Queue.FreeList.Valid.{Apart, Live, Keyed, IsValid, Taken, Covers}

module _ {avl : AvlTree ℕ} (list : FreeList avl) (valid : IsValid list) (v size : ℕ)
    (live : Live list v) (smaller : size < (list.items v).actual_size) (positive : 1 ≤ size)
    (class : size_class ((list.items v).actual_size - size)
      ≡ size_class (list.items v).actual_size) where
  abbrev rest : ItemPos
  rest = record {
    actual_size = (list.items v).actual_size - size;
    parent_index = (list.items v).parent_index + size;
  }

  abbrev shrunk : FreeList avl
  shrunk = record list {
    index_tree =
        avl.put (avl.remove list.index_tree (list.items v).parent_index)
          ((list.items v).parent_index + size) v;
    items = update list.items v rest;
  }

  get-shrunk :
      (k : ℕ)
      → avl.get shrunk.index_tree k ≡ (
          if (list.items v).parent_index + size == k
          then some v
          else if (list.items v).parent_index == k
          then none
          else avl.get list.index_tree k)
  get-shrunk k = ground (
    arith,
    avl.get-put (avl.remove list.index_tree (list.items v).parent_index)
        ((list.items v).parent_index + size) v k,
    avl.get-remove list.index_tree (list.items v).parent_index k,
  )

  other : (x : ℕ) → x ≢ v → update list.items v rest x ≡ list.items x
  other x n = ground arith

  self : update list.items v rest v ≡ rest
  self = ground arith

  -- A key of another item is not touched.
  other_key :
      (k x : ℕ) → avl.get list.index_tree k ≡ some x → x ≢ v → avl.get shrunk.index_tree k ≡ some x
  other_key k x e n =
      let old = valid.keyed k x e in
      ground (arith, get-shrunk k, old, valid.apart x v old.1 live n, live)

  self_Live : Live shrunk v
  self_Live = rw self (ground (arith, get-shrunk ((list.items v).parent_index + size)))

  shrunk_key :
      (k x : ℕ)
      → avl.get shrunk.index_tree k ≡ some x
      → (avl.get list.index_tree k ≡ some x) × (k ≢ (list.items v).parent_index)
        ⊎ (x ≡ v) × (k ≡ (list.items v).parent_index + size)
  shrunk_key k x e = ground (arith, get-shrunk k)

  shrunk-Live : (x : ℕ) → Live shrunk x → Live list x
  shrunk-Live x h = elim (==-cases x v) [
    | inl (t, p) ↦ rw p live
    | inr (t, n) ↦ elim (shrunk_key _ x h) [
      | inl (e, _) ↦ rw (other x n) at e
      | inr (p, _) ↦ absurd (n p)
    ]
  ]

  shrunk-Keyed : (k x : ℕ) → avl.get shrunk.index_tree k ≡ some x → Keyed shrunk k x
  shrunk-Keyed k x e = elim (==-cases x v) [
    | inl (t, p) ↦
        let mine = valid.keyed (list.items v).parent_index v live in
        subst (λ y. Keyed shrunk k y) (sym p)
          (rw self (
            ends (rw p at e),
            (rw self at self_Live),
            ground (
              arith,
              get-shrunk
                  ((list.items v).parent_index + size + ((list.items v).actual_size - size) - 1),
              mine,
            ),
            omega arith,
            mine.4,
          ))
    | inr (t, n) ↦ elim (shrunk_key k x e) [
      | inr (p, _) ↦ absurd (n p)
      | inl (o, _) ↦
          let old = valid.keyed k x o in
          rw (other x n) (old.0, other_key _ x old.1 n, other_key _ x old.2 n, old.3, old.4)
    ]
  ]
    where
      ends :
          avl.get shrunk.index_tree k ≡ some v
          → (k ≡ (list.items v).parent_index + size)
            ⊎ (k ≡ (list.items v).parent_index + size + ((list.items v).actual_size - size) - 1)
      ends d = elim (shrunk_key k v d) [
        | inl (o, n) ↦ ground (arith, valid.keyed k v o)
        | inr (_, p) ↦ inl p
      ]

  shrunk-Apart :
      (x y : ℕ) → Live shrunk x → Live shrunk y → x ≢ y → Apart (shrunk.items x) (shrunk.items y)
  shrunk-Apart x y hx hy n =
      let old = valid.apart x y (shrunk-Live x hx) (shrunk-Live y hy) n in ground (arith, old, n)

  shrunk_listed :
      (c x : ℕ)
      → In x (list.size_list c)
      → Live shrunk x × (size_class (shrunk.items x).actual_size ≡ some c)
  shrunk_listed c x h = elim (==-cases x v) [
    | inl (t, p) ↦
        let old = valid.listed c v (subst (λ y. In y (list.size_list c)) p h) in
        subst (λ y. Live shrunk y × (size_class (shrunk.items y).actual_size ≡ some c)) (sym p)
          (self_Live, rw self (class ∙ old.1))
    | inr (t, n) ↦ let old = valid.listed c x h in rw (other x n) (other_key _ x old.0 n, old.1)
  ]

  shrunk-IsValid : IsValid shrunk
  shrunk-IsValid = record {
    keyed = shrunk-Keyed;
    apart = shrunk-Apart;
    listed = shrunk_listed;
    distinct = valid.distinct;
  }

  pub shrunk-Taken : Taken list size (list.items v).parent_index shrunk
  shrunk-Taken = record {
    valid = shrunk-IsValid;
    got = λ p lo hi. (v, live, omega arith);
    free = λ p (x, h, c). elim (==-cases x v) [
      | inl (t, e) ↦
          let d : Covers rest p = rw (ap (λ y. shrunk.items y) e ∙ self) at c in
          ((v, live, omega arith), inr (omega arith))
      | inr (t, n) ↦
          let d : Covers (list.items x) p = rw (other x n) at c in
          let o = shrunk-Live x h in ((x, o, d), omega (arith, valid.apart x v o live n))
    ];
  }
