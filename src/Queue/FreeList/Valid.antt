-- ===== src/Queue/FreeList/Valid.antt =====
-- What holds of a free list between two calls, and the positions that it holds free.
use ngbigcache.Base.{ℕ, ◌+◌, ◌-◌, ◌≤◌, ◌<◌, ◌≡◌, ◌≢◌, ◌⊎◌, some, In, Distinct}
use ngbigcache.Gods.{AvlTree}
use ngbigcache.Queue.FreeList.{ItemPos, FreeList, size_class}

-- Two blocks share no position.
abbrev pub Apart : ItemPos → ItemPos → Type 0
Apart a b =
    (a.parent_index + a.actual_size ≤ b.parent_index)
    ⊎ (b.parent_index + b.actual_size ≤ a.parent_index)

-- `p` is a position of the block.
abbrev pub Covers : ItemPos → ℕ → Type 0
Covers a p = (a.parent_index ≤ p) × (p < a.parent_index + a.actual_size)

module _ {avl : AvlTree ℕ} where
  -- The tree knows item `x` by its first position.
  abbrev pub Live : FreeList avl → ℕ → Type 0
  Live list x = avl.get list.index_tree (list.items x).parent_index ≡ some x

  abbrev pub Keyed : FreeList avl → ℕ → ℕ → Type 0
  Keyed list k x =
      ((k ≡ (list.items x).parent_index)
        ⊎ (k ≡ (list.items x).parent_index + (list.items x).actual_size - 1))
      × Live list x
      × (avl.get list.index_tree ((list.items x).parent_index + (list.items x).actual_size - 1)
          ≡ some x)
      × (1 ≤ (list.items x).actual_size)
      × (x < list.next)

  -- Every key of the tree is an end of its item, the items share no position, and a size list
  -- holds items of the tree, each of the list's size class and once.
  pub record IsValid (list : FreeList avl) : Type 0 where
    pub keyed : (k x : ℕ) → avl.get list.index_tree k ≡ some x → Keyed list k x
    pub apart : (x y : ℕ) → Live list x → Live list y → x ≢ y → Apart (list.items x) (list.items y)
    pub listed :
        (c x : ℕ)
        → In x (list.size_list c)
        → Live list x × (size_class (list.items x).actual_size ≡ some c)
    pub distinct : (c : ℕ) → Distinct (list.size_list c)

  -- Position `p` is in a block that the tree knows.
  abbrev pub Free : FreeList avl → ℕ → Type 0
  Free list p = (x : ℕ) × Live list x × Covers (list.items x) p

  -- `after` is `list` without item `v`.
  pub record Unlinked (list : FreeList avl) (v : ℕ) (after : FreeList avl) : Type 0 where
    pub valid : IsValid after
    pub same : (x : ℕ) → after.items x ≡ list.items x
    pub old : (x : ℕ) → Live after x → Live list x × (x ≢ v)
    pub kept : (x : ℕ) → Live list x → x ≢ v → Live after x

  -- `after` is `list` with `item` added.
  pub record Stored (list : FreeList avl) (item : ItemPos) (after : FreeList avl) : Type 0 where
    pub valid : IsValid after
    pub split :
        (x : ℕ)
        → Live after x
        → (after.items x ≡ item) ⊎ (Live list x × (after.items x ≡ list.items x))
    pub kept : (x : ℕ) → Live list x → Live after x × (after.items x ≡ list.items x)
    pub fresh : Live after list.next × (after.items list.next ≡ item)

  -- `after` is `list` with the `size` positions from `index` on taken out of the free ones.
  pub record Taken (list : FreeList avl) (size index : ℕ) (after : FreeList avl) : Type 0 where
    pub valid : IsValid after
    pub got : (p : ℕ) → index ≤ p → p < index + size → Free list p
    pub free : (p : ℕ) → Free after p → Free list p × ((p < index) ⊎ (index + size ≤ p))
