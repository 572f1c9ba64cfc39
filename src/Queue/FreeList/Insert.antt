-- ===== src/Queue/FreeList/Insert.antt =====
-- A new item enters the free list: `store_item`, the end of `add`.
use ngbigcache.Base.{
  ℕ, ◌+◌, ◌-◌, ◌≤◌, ◌≡◌, ◌≢◌, refl, sym, subst, ◌⊎◌, inl, inr, Option, none, some, [], ◌∷◌, ◌++◌,
  List, In, Distinct, In-snoc, Distinct-snoc, arith, ◌==◌, if◌then◌else◌, ==-cases, ap,
}
use ngbigcache.Gods.{AvlTree}
use ngbigcache.Queue.FreeList.{ItemPos, FreeList, size_class, update, store_item}
use ngbigcache.Queue.FreeList.Valid.{Apart, Live, Keyed, IsValid, Stored}

module _ {avl : AvlTree ℕ} (list : FreeList avl) (valid : IsValid list) (item : ItemPos)
    (positive : 1 ≤ item.actual_size)
    (room : (x : ℕ) → Live list x → Apart (list.items x) item) where
  abbrev keys : avl.Tree
  keys =
      avl.put (avl.put list.index_tree item.parent_index list.next)
        (item.parent_index + item.actual_size - 1) list.next

  abbrev lists_of : Option ℕ → ℕ → List ℕ
  lists_of none = list.size_list
  lists_of (some c) = update list.size_list c (list.size_list c ++ list.next ∷ [])

  abbrev stored : FreeList avl
  stored = record {
    size_list = lists_of (size_class item.actual_size);
    index_tree = keys;
    items = update list.items list.next item;
    next = list.next + 1;
  }

  store_item_lem : store_item list item ≡ stored
  unfolding store_item
  store_item_lem = ground arith

  get-keys :
      (k : ℕ)
      → avl.get keys k ≡ (
          if item.parent_index + item.actual_size - 1 == k
          then some list.next
          else if item.parent_index == k
          then some list.next
          else avl.get list.index_tree k)
  get-keys k = ground (
    arith,
    avl.get-put (avl.put list.index_tree item.parent_index list.next)
        (item.parent_index + item.actual_size - 1) list.next k,
    avl.get-put list.index_tree item.parent_index list.next k,
  )

  -- A key of an old item is no end of the new one.
  old_key :
      (k x : ℕ) → avl.get list.index_tree k ≡ some x → (avl.get keys k ≡ some x) × (x ≢ list.next)
  old_key k x e =
      let old = valid.keyed k x e in
      (ground (arith, get-keys k, old, room x old.1), λ p. omega (arith, old.4))

  old_item : (x : ℕ) → x ≢ list.next → update list.items list.next item x ≡ list.items x
  old_item x n = ground arith

  new_item : update list.items list.next item list.next ≡ item
  new_item = ground arith

  -- The items of the tree are the old ones and the new one.
  Live-stored : (x : ℕ) → Live list x → Live stored x × (x ≢ list.next)
  Live-stored x h =
      let o = old_key _ x h in
      (
        subst (λ (i : ItemPos). avl.get keys i.parent_index ≡ some x) (sym (old_item x o.1)) o.0,
        o.1,
      )

  stored_key :
      (k x : ℕ)
      → avl.get keys k ≡ some x
      → ((x ≡ list.next)
          × ((k ≡ item.parent_index) ⊎ (k ≡ item.parent_index + item.actual_size - 1)))
        ⊎ (avl.get list.index_tree k ≡ some x)
  stored_key k x e = ground (arith, get-keys k)

  stored-Live : (x : ℕ) → Live stored x → (x ≡ list.next) ⊎ (Live list x × (x ≢ list.next))
  stored-Live x h = elim (stored_key _ x h) [
    | inl (e, _) ↦ inl e
    | inr e ↦
        let n = (old_key _ x e).1 in
        inr (
          subst (λ (i : ItemPos). avl.get list.index_tree i.parent_index ≡ some x) (old_item x n) e,
          n,
        )
  ]

  next-Keyed :
      (k : ℕ)
      → ((k ≡ item.parent_index) ⊎ (k ≡ item.parent_index + item.actual_size - 1))
      → Keyed stored k list.next
  next-Keyed k h = rw new_item (
    h,
    ground (arith, get-keys item.parent_index),
    ground (arith, get-keys (item.parent_index + item.actual_size - 1)),
    positive,
    omega arith,
  )

  old-Keyed : (k x : ℕ) → avl.get list.index_tree k ≡ some x → Keyed stored k x
  old-Keyed k x e =
      let old = valid.keyed k x e in
      let n = (old_key k x e).1 in
      rw (old_item x n)
        (old.0, (old_key _ x old.1).0, (old_key _ x old.2).0, old.3, omega (arith, old.4))

  stored-Keyed : (k x : ℕ) → avl.get keys k ≡ some x → Keyed stored k x
  stored-Keyed k x e = elim (stored_key k x e) [
    | inl (p, h) ↦ subst (λ y. Keyed stored k y) (sym p) (next-Keyed k h)
    | inr old ↦ old-Keyed k x old
  ]

  stored-Apart :
      (x y : ℕ) → Live stored x → Live stored y → x ≢ y → Apart (stored.items x) (stored.items y)
  stored-Apart x y hx hy n =
      ground (arith, stored-Live x hx, stored-Live y hy, valid.apart x y, room x, room y, n)

  in_list :
      (o : Option ℕ) (c x : ℕ)
      → In x (lists_of o c)
      → In x (list.size_list c) ⊎ ((x ≡ list.next) × (o ≡ some c))
  in_list none c x h = inl h
  in_list (some d) c x h = elim (==-cases d c) [
    | inl (e, p) ↦ elim (In-snoc x list.next (list.size_list d) (rw e at h)) [
      | inl k ↦ inl (rw p at k)
      | inr q ↦ inr (q, ap some p)
    ]
    | inr (e, p) ↦ inl (rw e at h)
  ]

  stored_listed :
      (c x : ℕ)
      → In x (stored.size_list c)
      → Live stored x × (size_class (stored.items x).actual_size ≡ some c)
  stored_listed c x h = elim (in_list (size_class item.actual_size) c x h) [
    | inl old ↦
        let was = valid.listed c x old in
        let live = Live-stored x was.0 in (live.0, rw (old_item x live.1) was.1)
    | inr (e, cl) ↦
        subst (λ y. Live stored y × (size_class (stored.items y).actual_size ≡ some c)) (sym e)
          ((next-Keyed item.parent_index (inl refl)).1, rw new_item cl)
  ]

  once_in : (o : Option ℕ) (c : ℕ) → Distinct (lists_of o c)
  once_in none c = valid.distinct c
  once_in (some d) c = elim (==-cases d c) [
    | inl (e, p) ↦ rw e (
        Distinct-snoc list.next (list.size_list d) (valid.distinct d)
          (λ h. (Live-stored list.next (valid.listed d list.next h).0).1 refl))
    | inr (e, p) ↦ rw e (valid.distinct c)
  ]

  stored-IsValid : IsValid stored
  stored-IsValid = record {
    keyed = stored-Keyed;
    apart = stored-Apart;
    listed = stored_listed;
    distinct = once_in (size_class item.actual_size);
  }

  pub store_item-Stored : Stored list item (store_item list item)
  store_item-Stored = rw store_item_lem (record {
    valid = stored-IsValid;
    split = λ x h. elim (stored-Live x h) [
      | inl e ↦ inl (rw e new_item)
      | inr (o, n) ↦ inr (o, old_item x n)
    ];
    kept = λ x h. let o = Live-stored x h in (o.0, old_item x o.1);
    fresh = ((next-Keyed item.parent_index (inl refl)).1, new_item);
  })
