-- ===== src/Queue/FreeList/Add.antt =====
-- `add` keeps the free list well formed, and frees no position but those of the added block and
-- those that were free.
use ngbigcache.Base.{
  ℕ, zero, suc, ◌+◌, ◌-◌, ◌≤◌, ◌≡◌, refl, sym, subst, ◌∙◌, ◌⊎◌, inl, inr, none, some, arith, ◌==◌,
  if◌then◌else◌, Option-cases,
}
use native.Mathlib.Decide.{dec_lt}
use ngbigcache.Gods.{AvlTree}
use ngbigcache.Queue.FreeList.{
  ItemPos, FreeList, remove_key, get_before, merge_left, merge_right, store_item, add,
  remove_from_size_list,
}
use ngbigcache.Queue.FreeList.Valid.{Apart, Live, IsValid, Free, Covers, Unlinked}
use ngbigcache.Queue.FreeList.Drop.{dropped-Unlinked}
use ngbigcache.Queue.FreeList.Insert.{store_item-Stored}
use ngbigcache.Queue.FreeList.Remove.{
  lists_without, lists_without_left, lists_without_once, remove_from_size_list_lem,
}

module _ {avl : AvlTree ℕ} (list : FreeList avl) (valid : IsValid list) (v a b : ℕ)
    (live : Live list v)
    (ends : ((a ≡ (list.items v).parent_index)
        × (b ≡ (list.items v).parent_index + (list.items v).actual_size - 1))
      ⊎ ((b ≡ (list.items v).parent_index)
          × (a ≡ (list.items v).parent_index + (list.items v).actual_size - 1))) where
  get-remove_two :
      (k : ℕ)
      → avl.get (avl.remove (avl.remove list.index_tree a) b) k
        ≡ (if b == k then none else if a == k then none else avl.get list.index_tree k)
  get-remove_two k =
      ground (
        arith,
        avl.get-remove (avl.remove list.index_tree a) b k,
        avl.get-remove list.index_tree a k,
      )

  -- A neighbour that is merged leaves the list.
  unlink : Unlinked list v (remove_from_size_list (remove_key (remove_key list a) b) v)
  unfolding remove_key
  unlink =
      rw (remove_from_size_list_lem list valid v (avl.remove (avl.remove list.index_tree a) b)) (
        dropped-Unlinked list valid v live a b (avl.remove (avl.remove list.index_tree a) b)
          (lists_without list valid v) ends get-remove_two (lists_without_left list valid v)
          (lists_without_once list valid v))

abbrev pub block : ℕ → ℕ → ItemPos
block index size = record { actual_size = size; parent_index = index }

-- `mid` has lost the neighbours that were merged into `item`; the items that are left stay clear of
-- `item`, and `item` has no position but those of the block and of the neighbours.
record Merging {avl : AvlTree ℕ} (list : FreeList avl) (index size : ℕ) (mid : FreeList avl)
    (item : ItemPos) : Type 0 where
  valid : IsValid mid
  positive : 1 ≤ item.actual_size
  old : (x : ℕ) → Live mid x → Live list x × (mid.items x ≡ list.items x)
  room : (x : ℕ) → Live mid x → Apart (mid.items x) item
  inside : (p : ℕ) → Covers item p → Free list p ⊎ Covers (block index size) p
  whole : (p : ℕ) → Covers (block index size) p → Covers item p

abbrev pub Room : {avl : AvlTree ℕ} (list : FreeList avl) → ℕ → ℕ → Type 0
Room list index size = (x : ℕ) → Live list x → Apart (list.items x) (block index size)

module _ {avl : AvlTree ℕ} where
  -- The entry found at `index - 1` is the last position of a block that ends there.
  left_end :
      (list : FreeList avl) (index size v : ℕ)
      → IsValid list
      → 1 ≤ size
      → Room list index size
      → get_before list index ≡ some v
      → (index - 1 ≡ (list.items v).parent_index + (list.items v).actual_size - 1)
        × Live list v
        × ((list.items v).parent_index + (list.items v).actual_size ≡ index)
        × (1 ≤ (list.items v).actual_size)
  unfolding get_before
  left_end list zero size v valid pos room e = absurd (cc)
  left_end list (suc i) size v valid pos room e =
      let k = valid.keyed i v e in
      let r = room v k.1 in (omega (arith, k, r), k.1, omega (arith, k, r), k.3)

  -- The entry found at `index + size` is the first position of a block.
  right_start :
      (list : FreeList avl) (index size v : ℕ)
      → IsValid list
      → Room list index size
      → avl.get list.index_tree (index + size) ≡ some v
      → (index + size ≡ (list.items v).parent_index)
        × Live list v
        × (1 ≤ (list.items v).actual_size)
  right_start list index size v valid room e =
      let k = valid.keyed (index + size) v e in
      let r = room v k.1 in (omega (arith, k, r), k.1, k.3)

  merge_left-Merging :
      (list : FreeList avl) (index size : ℕ)
      → IsValid list
      → 1 ≤ size
      → Room list index size
      → Merging list index size (merge_left list index size).0 (merge_left list index size).1
  unfolding merge_left
  merge_left-Merging list index size valid pos room = elim (Option-cases (get_before list index)) [
    | inl e ↦
        rw (e, merge_left)
          (record {
            valid = valid;
            positive = pos;
            old = λ x h. (h, refl);
            room = room;
            inside = λ p h. inr h;
            whole = λ p h. h;
          })
    | inr (v, e) ↦
        let k = left_end list index size v valid pos room e in
        let u = unlink list valid v (index - 1) (list.items v).parent_index k.1 (inr (refl, k.0)) in
        rw (e, merge_left)
          (record {
            valid = u.valid;
            positive = omega arith;
            old = λ x h. ((u.old x h).0, u.same x);
            room = λ x h.
                let o = u.old x h in
                rw u.same (
                  omega
                    (arith, valid.apart x v o.0 k.1 o.1, room x o.0, k, (valid.keyed _ x o.0).3));
            inside = λ p h. elim (dec_lt p index) [
              | yes q ↦ inl (v, k.1, omega arith)
              | no q ↦ inr (omega arith)
            ];
            whole = λ p h. omega (arith, h, k);
          })
  ]

  merge_right-Merging :
      (list mid : FreeList avl) (item : ItemPos) (index size : ℕ)
      → 1 ≤ size
      → Room list index size
      → Merging list index size mid item
      → Merging list index size
          (merge_right mid item index size).0
          (merge_right mid item index size).1
  unfolding merge_right
  merge_right-Merging list mid item index size pos room m =
      let clear = λ (x : ℕ) (h : Live mid x).
        let o = m.old x h in
        (let r : Apart (mid.items x) (block index size) = rw (o.1) (room x o.0) in r) in
      elim (Option-cases (avl.get mid.index_tree (index + size))) [
        | inl e ↦ rw (e, merge_right) m
        | inr (v, e) ↦
            let k = right_start mid index size v m.valid clear e in
            let u =
              unlink mid m.valid v (index + size)
                ((mid.items v).parent_index + (mid.items v).actual_size - 1) k.1
                (inl (k.0, refl)) in
            rw (e, merge_right)
              (record {
                valid = u.valid;
                positive = omega arith;
                old = λ x h. let o = m.old x (u.old x h).0 in (o.0, u.same x ∙ o.1);
                room = λ x h.
                    let o = u.old x h in
                    rw u.same (
                      omega (
                        arith,
                        m.valid.apart x v o.0 k.1 o.1,
                        clear x o.0,
                        k,
                        (m.valid.keyed _ x o.0).3,
                      ));
                inside = λ p h. elim (dec_lt p (index + size)) [
                  | yes q ↦ inr (omega arith)
                  | no q ↦
                      let o = m.old v k.1 in
                      inl (v, o.0, subst (λ (i : ItemPos). Covers i p) o.1 (omega (arith, k)))
                ];
                whole = λ p h. omega (arith, h);
              })
      ]

  -- A block that is added.
  pub record Added (list : FreeList avl) (index size : ℕ) (after : FreeList avl) : Type 0 where
    pub valid : IsValid after
    pub free : (p : ℕ) → Free after p → Free list p ⊎ Covers (block index size) p
    pub added : (p : ℕ) → Covers (block index size) p → Free after p

  store-Added :
      (list : FreeList avl) (index size : ℕ) (mid : FreeList avl) (item : ItemPos)
      → Merging list index size mid item
      → Added list index size (store_item mid item)
  store-Added list index size mid item m =
      let s = store_item-Stored mid m.valid item m.positive m.room in
      record {
        valid = s.valid;
        free = λ p (x, h, c). elim (s.split x h) [
          | inl e ↦ m.inside p (subst (λ (i : ItemPos). Covers i p) e c)
          | inr (o, e) ↦
              let w = m.old x o in inl (x, w.0, subst (λ (i : ItemPos). Covers i p) (e ∙ w.1) c)
        ];
        added = λ p h. (
          mid.next,
          s.fresh.0,
          subst (λ (i : ItemPos). Covers i p) (sym s.fresh.1) (m.whole p h),
        );
      }

  -- If the free list is valid and no free block meets the `size` positions from `index` on, of
  -- which there is at least one, then after `add` the free list is valid, these positions are free,
  -- and every free position was free or is one of these.
  pub add-Added :
      (list : FreeList avl) (index size : ℕ)
      → IsValid list
      → 1 ≤ size
      → Room list index size
      → Added list index size (add list index size)
  unfolding add
  add-Added list index size valid pos room = store-Added list index size _ _ (
      merge_right-Merging list _ _ index size pos room
        (merge_left-Merging list index size valid pos room))
