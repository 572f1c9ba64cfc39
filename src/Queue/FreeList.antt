-- ===== src/Queue/FreeList.antt =====
-- bigcache/queue/freeList.go: the free blocks of a byte queue.
--
-- An item is a pointer in the source: it stands in one of the eight size lists and, under its
-- first and its last position, in the index tree, and `find_in_size_list` changes it in place. So
-- `items` is the store of the items, by number, and the lists and the tree hold numbers. A result
-- of -1 is `none`. Positions and sizes are natural numbers: the queue adds blocks with a positive
-- index, and at index 0 the key -1 is in no tree.
pub mod Valid
pub mod Drop
pub mod Insert
pub mod Remove
pub mod Add
pub mod Shrink
pub mod Take
pub mod Find
use ngbigcache.Base.{
  ℕ, zero, suc, ◌+◌, ◌-◌, ◌*◌, Bool, Option, none, some, List, [], ◌∷◌, ◌++◌, ltb, leb, ◌==◌,
  if◌then◌else◌, remove_at,
}
use ngbigcache.Gods.{AvlTree}

-- `itemPos`
pub record ItemPos : Type 0 where
  pub actual_size : ℕ
  pub parent_index : ℕ

-- `freeList`: `size_list c` is `sizeList[c]`, and items from `next` on are not allocated.
pub record FreeList (avl : AvlTree ℕ) : Type 0 where
  pub size_list : ℕ → List ℕ
  pub index_tree : avl.Tree
  pub items : ℕ → ItemPos
  pub next : ℕ

-- One cell of an array, or one object of a store, is written.
abbrev pub update {ℓ} : {A : Type ℓ} → (ℕ → A) → ℕ → A → ℕ → A
update f k v j = if k == j then v else f j

-- The `switch` of `removeFromSizeList` and of `putIntoSizeList`: there is no case for 4096.
unfoldable pub size_class : ℕ → Option ℕ
size_class size =
    if ltb size 64
    then some 0
    else if ltb size 128
    then some 1
    else if ltb size 256
    then some 2
    else if ltb size 512
    then some 3
    else if ltb size 1024
    then some 4
    else if ltb size 2048
    then some 5
    else if ltb size 4096
    then some 6
    else if ltb 4096 size
    then some 7
    else none

-- The `switch` of `find`: `index` and `buckSize` stay 0 at 4096.
unfoldable pub find_start : ℕ → ℕ × ℕ
find_start size =
    if ltb size 64
    then (0, 64)
    else if ltb size 128
    then (1, 128)
    else if ltb size 256
    then (2, 256)
    else if ltb size 512
    then (3, 512)
    else if ltb size 1024
    then (4, 1024)
    else if ltb size 2048
    then (5, 2048)
    else if ltb size 4096
    then (6, 4096)
    else if ltb 4096 size
    then (7, 4097)
    else (0, 0)

-- The loop of `listPos`, from `x` on.
unfoldable pub list_pos_from : ℕ → ℕ → List ℕ → Option ℕ
list_pos_from x v [] = none
list_pos_from x v (y ∷ ys) = if v == y then some x else list_pos_from (x + 1) v ys

unfoldable pub list_pos : ℕ → List ℕ → Option ℕ
unfolding list_pos_from
list_pos v arr = list_pos_from 0 v arr

-- `newFreeList`
unfoldable pub new_free_list : (avl : AvlTree ℕ) → FreeList avl
new_free_list avl = record {
  size_list = λ c. [];
  index_tree = avl.empty;
  items = λ x. record { actual_size = 0; parent_index = 0 };
  next = 0;
}

module _ {avl : AvlTree ℕ} where
  -- `copy(l[pos:], l[(pos+1):])` and the cut by one, on `sizeList[c]`
  unfoldable pub remove_pos : FreeList avl → ℕ → ℕ → FreeList avl
  remove_pos list c pos = record list {
    size_list = update list.size_list c (remove_at pos (list.size_list c));
  }

  -- `removeFromSizeList`
  unfoldable pub remove_from_size_list : FreeList avl → ℕ → FreeList avl
  unfolding list_pos remove_pos
  remove_from_size_list list v = elim (size_class (list.items v).actual_size) [
    | none ↦ list
    | some c ↦ elim (list_pos v (list.size_list c)) [
      | none ↦ list
      | some pos ↦ remove_pos list c pos
    ]
  ]

  -- `putIntoSizeList`
  unfoldable pub put_into_size_list : FreeList avl → ℕ → FreeList avl
  put_into_size_list list item = elim (size_class (list.items item).actual_size) [
    | none ↦ list
    | some c ↦ record list { size_list = update list.size_list c (list.size_list c ++ item ∷ []) }
  ]

  unfoldable pub remove_key : FreeList avl → ℕ → FreeList avl
  remove_key list k = record list { index_tree = avl.remove list.index_tree k }

  unfoldable pub put_key : FreeList avl → ℕ → ℕ → FreeList avl
  put_key list k item = record list { index_tree = avl.put list.index_tree k item }

  -- `list.indexTree.Get(index - 1)`
  unfoldable pub get_before : FreeList avl → ℕ → Option ℕ
  get_before list zero = none
  get_before list (suc i) = avl.get list.index_tree i

  -- The first `if` of `add`, with the item as it is then.
  unfoldable pub merge_left : FreeList avl → ℕ → ℕ → FreeList avl × ItemPos
  unfolding get_before remove_key remove_from_size_list
  merge_left list index size = elim (get_before list index) [
    | none ↦ (list, record { actual_size = size; parent_index = index })
    | some v ↦ (
      remove_from_size_list (remove_key (remove_key list (index - 1)) (list.items v).parent_index)
          v,
      record {
        actual_size = (list.items v).actual_size + size;
        parent_index = (list.items v).parent_index;
      },
    )
  ]

  -- The second `if` of `add`.
  unfoldable pub merge_right : FreeList avl → ItemPos → ℕ → ℕ → FreeList avl × ItemPos
  unfolding remove_key remove_from_size_list
  merge_right list item index size = elim (avl.get list.index_tree (index + size)) [
    | none ↦ (list, item)
    | some v ↦ (
      remove_from_size_list
          (remove_key (remove_key list (index + size))
            ((list.items v).parent_index + (list.items v).actual_size - 1))
          v,
      record { actual_size = size + (list.items v).actual_size; parent_index = index },
    )
  ]

  -- The item is allocated, and stored under both its ends and in its size list.
  unfoldable pub store_item : FreeList avl → ItemPos → FreeList avl
  unfolding put_key put_into_size_list
  store_item list item =
      let fresh : FreeList avl = record list {
        items = update list.items list.next item;
        next = list.next + 1;
      } in
      put_into_size_list
        (put_key (put_key fresh item.parent_index list.next)
          (item.parent_index + item.actual_size - 1) list.next)
        list.next

  -- `add`
  unfoldable pub add : FreeList avl → ℕ → ℕ → FreeList avl
  unfolding merge_left merge_right store_item
  add list index size =
      let left = merge_left list index size in
      let right = merge_right left.0 left.1 index size in store_item right.0 right.1

  -- The body of the `if size <= tmp.actualSize`, for `tmp` at position `x` of `sizeList[idx]`.
  unfoldable pub take_item : FreeList avl → ℕ → ℕ → ℕ → ℕ → ℕ → FreeList avl × ℕ
  unfolding remove_key remove_pos put_key add
  take_item list idx size buck_size x tmp =
      let start = (list.items tmp).parent_index in
      let actual = (list.items tmp).actual_size in
      let cut = remove_key list start in
      if size == actual
      then (remove_key (remove_pos cut idx x) (actual + start - 1), start)
      else if leb buck_size (actual - size)
      then (
        put_key
            (record cut {
              items =
                  update list.items tmp
                    (record { actual_size = actual - size; parent_index = start + size });
            })
            (start + size) tmp,
        start,
      )
      else (
        add (remove_pos (remove_key cut (start + actual - 1)) idx x) (start + size) (actual - size),
        start,
      )

  -- The loop of `findInSizeList`, over what is left of `sizeList[idx]` from position `x` on.
  unfoldable pub scan : FreeList avl → ℕ → ℕ → ℕ → ℕ → List ℕ → FreeList avl × Option ℕ
  unfolding take_item
  scan list idx size buck_size x [] = (list, none)
  scan list idx size buck_size x (tmp ∷ rest) =
      let (taken, ret) = take_item list idx size buck_size x tmp in
      if leb size (list.items tmp).actual_size
      then (taken, some ret)
      else scan list idx size buck_size (x + 1) rest

  -- `findInSizeList`
  unfoldable pub find_in_size_list : FreeList avl → ℕ → ℕ → ℕ → FreeList avl × Option ℕ
  unfolding scan
  find_in_size_list list idx size buck_size = scan list idx size buck_size 0 (list.size_list idx)

  -- The loop of `find`, with the rounds that are left.
  unfoldable pub find_loop : ℕ → FreeList avl → ℕ → ℕ → ℕ → FreeList avl × Option ℕ
  unfolding find_in_size_list
  find_loop zero list idx size buck_size = (list, none)
  find_loop (suc rounds) list idx size buck_size =
      let found = find_in_size_list list idx size buck_size in
      let rest =
        find_loop rounds found.0 (idx + 1) size (if ltb idx 6 then buck_size * 2 else 4097) in
      elim found.1 [ some v ↦ found | none ↦ rest ]

  -- `find`
  unfoldable pub find : FreeList avl → ℕ → FreeList avl × Option ℕ
  unfolding find_loop
  find list size =
      let (index, buck_size) = find_start size in find_loop (8 - index) list index size buck_size
