-- ===== src/Queue/FreeList/Take.antt =====
-- What `find_in_size_list` does with an item that is large enough.
use ngbigcache.Base.{
  ℕ, zero, suc, ◌+◌, ◌-◌, ◌*◌, ◌≤◌, ◌<◌, ◌≡◌, refl, sym, subst, ◌∙◌, ◌⊎◌, inl, inr, some, arith,
  ==-cases, leb, Bool-cases, get_elem?, remove_at, In-get_elem?, leb→le,
}
use ngbigcache.Gods.{AvlTree}
use ngbigcache.Queue.FreeList.{
  ItemPos, FreeList, size_class, update, add, take_item, remove_key, remove_pos, put_key,
}
use ngbigcache.Queue.FreeList.Valid.{Apart, Live, IsValid, Taken, Covers, Free, Unlinked}
use ngbigcache.Queue.FreeList.Drop.{dropped-Unlinked}
use ngbigcache.Queue.FreeList.Remove.{remove_at_left, remove_at_once}
use ngbigcache.Queue.FreeList.Add.{block, add-Added}
use ngbigcache.Queue.FreeList.Shrink.{shrunk-Taken}

-- The bound of list `c` for `c` up to 6: 64 times a power of two.
abbrev pub bound : ℕ → ℕ
bound zero = 64
bound (suc c) = bound c * 2

-- The bucket size with which `find` comes to list `idx`.
abbrev pub Bucket : ℕ → ℕ → ℕ → Type 0
Bucket idx size buck_size =
    ((idx ≤ 6) × (buck_size ≡ bound idx))
    ⊎ ((idx ≤ 6) × (size ≡ 4096))
    ⊎ ((idx ≡ 7) × (buck_size ≡ 4097))

pub size_class-lt : (a c : ℕ) → size_class a ≡ some c → (c ≤ 6) → a < bound c
unfolding size_class
size_class-lt a zero e h = ground arith
size_class-lt a (suc zero) e h = ground arith
size_class-lt a (suc (suc zero)) e h = ground arith
size_class-lt a (suc (suc (suc zero))) e h = ground arith
size_class-lt a (suc (suc (suc (suc zero)))) e h = ground arith
size_class-lt a (suc (suc (suc (suc (suc zero))))) e h = ground arith
size_class-lt a (suc (suc (suc (suc (suc (suc zero)))))) e h = ground arith
size_class-lt a (suc (suc (suc (suc (suc (suc (suc c))))))) e h = absurd (omega arith)

bound-le : (c : ℕ) → c ≤ 6 → bound c ≤ 4096
bound-le zero h = omega arith
bound-le (suc zero) h = omega arith
bound-le (suc (suc zero)) h = omega arith
bound-le (suc (suc (suc zero))) h = omega arith
bound-le (suc (suc (suc (suc zero)))) h = omega arith
bound-le (suc (suc (suc (suc (suc zero))))) h = omega arith
bound-le (suc (suc (suc (suc (suc (suc zero)))))) h = omega arith
bound-le (suc (suc (suc (suc (suc (suc (suc c))))))) h = absurd (omega arith)

class_seven : (a : ℕ) → 4096 < a → size_class a ≡ some 7
unfolding size_class
class_seven a h = ground arith

-- An item that is cut in place stays in the size class of its list.
cut_class :
    (idx size buck_size a : ℕ)
    → Bucket idx size buck_size
    → size_class a ≡ some idx
    → size ≤ a
    → buck_size ≤ a - size
    → 1 ≤ size
    → size_class (a - size) ≡ size_class a
cut_class idx size buck_size a (inl (h, e)) c le b pos =
    absurd (omega (arith, size_class-lt a idx c h))
cut_class idx size buck_size a (inr (inl (h, e))) c le b pos =
    absurd (omega (arith, size_class-lt a idx c h, bound-le idx h))
cut_class idx size buck_size a (inr (inr (h, e))) c le b pos =
    class_seven (a - size) (omega arith) ∙ sym (class_seven a (omega arith))

module _ {avl : AvlTree ℕ} (list : FreeList avl) (valid : IsValid list) (idx x v : ℕ)
    (at : get_elem? (list.size_list idx) x ≡ some v) where
  live : Live list v
  live = (valid.listed idx v (In-get_elem? v (list.size_list idx) x at)).0

  -- Both keys of an item at a known position are removed, and the position.
  pull :
      (b : ℕ)
      → b ≡ (list.items v).parent_index + (list.items v).actual_size - 1
      → Unlinked list v
          (remove_pos (remove_key (remove_key list (list.items v).parent_index) b) idx x)
  unfolding remove_pos remove_key
  pull b e =
      dropped-Unlinked list valid v live (list.items v).parent_index b
        (avl.remove (avl.remove list.index_tree (list.items v).parent_index) b)
        (update list.size_list idx (remove_at x (list.size_list idx))) (inl (refl, e))
        (λ k. ground (
          arith,
          avl.get-remove (avl.remove list.index_tree (list.items v).parent_index) b k,
          avl.get-remove list.index_tree (list.items v).parent_index k,
        ))
        (remove_at_left list valid v idx x at) (remove_at_once list valid v idx x)

  Free-without :
      (after : FreeList avl)
      → Unlinked list v after
      → (p : ℕ) → Free after p
      → Free list p
        × (((p < (list.items v).parent_index)
            ⊎ ((list.items v).parent_index + (list.items v).actual_size ≤ p)))
  Free-without after u p (y, h, c) =
      let o = u.old y h in
      let d : Covers (list.items y) p = subst (λ (i : ItemPos). Covers i p) (u.same y) c in
      ((y, o.0, d), omega (arith, valid.apart y v o.0 live o.1))

  module _ (size buck_size : ℕ) (positive : 1 ≤ size) (fits : size ≤ (list.items v).actual_size)
      (bucket : Bucket idx size buck_size) where
    whole :
        (after : FreeList avl)
        → Unlinked list v after
        → size ≡ (list.items v).actual_size
        → Taken list size (list.items v).parent_index after
    whole after u e = record {
      valid = u.valid;
      got = λ p lo hi. (v, live, omega arith);
      free = λ p f. let o = Free-without after u p f in (o.0, omega (arith, o.1));
    }

    part :
        (mid : FreeList avl)
        → Unlinked list v mid
        → size < (list.items v).actual_size
        → Taken list size
            (list.items v).parent_index
            (add mid ((list.items v).parent_index + size) ((list.items v).actual_size - size))
    part mid u lt =
        let room = λ (y : ℕ) (h : Live mid y).
          let o = u.old y h in
          (let r : Apart (mid.items y)
                (block ((list.items v).parent_index + size) ((list.items v).actual_size - size)) =
              rw (u.same y) (omega (arith, valid.apart y v o.0 live o.1)) in
            r) in
        let a =
          add-Added mid ((list.items v).parent_index + size) ((list.items v).actual_size - size)
            u.valid (omega arith) room in
        record {
          valid = a.valid;
          got = λ p lo hi. (v, live, omega arith);
          free = λ p f. elim (a.free p f) [
            | inl g ↦ let o = Free-without mid u p g in (o.0, omega (arith, o.1))
            | inr c ↦ ((v, live, omega arith), inr (omega arith))
          ];
        }

    pub take_item-Taken :
        Taken list size
          (take_item list idx size buck_size x v).1
          (take_item list idx size buck_size x v).0
    unfolding take_item remove_pos remove_key put_key
    take_item-Taken = elim (==-cases size (list.items v).actual_size) [
      | inl (t, e) ↦ rw t (
          whole _
            (pull ((list.items v).actual_size + (list.items v).parent_index - 1) (omega arith)) e)
      | inr (t, n) ↦ elim (Bool-cases (leb buck_size ((list.items v).actual_size - size))) [
        | inl b ↦
            rw (t, b)
              (shrunk-Taken list valid v size live (omega arith) positive (
                cut_class idx size buck_size (list.items v).actual_size bucket
                  (valid.listed idx v (In-get_elem? v (list.size_list idx) x at)).1 fits
                  (leb→le _ _ b) positive))
        | inr b ↦
            rw (t, b)
              (part _ (pull ((list.items v).parent_index + (list.items v).actual_size - 1) refl)
                (omega arith))
      ]
    ]
