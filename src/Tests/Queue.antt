-- ===== src/Tests/Queue.antt =====
-- bigcache/queue at concrete data.
use ngbigcache.Base.{
  ℕ, ◌+◌, ◌<◌, ◌≡◌, ◌⊎◌, ◌↔◌, refl, inl, List, [], ◌∷◌, In, arith, length, Bytes, false, copy_at,
  le_bytes, ok, value,
}
use ngbigcache.Gods.{AvlTree}
use ngbigcache.Base.Assoc.{get as get_item}
use ngbigcache.Gods.Assoc.{assoc_tree}
use ngbigcache.Queue.FreeList.{FreeList, new_free_list, find, find_start, size_class, add}
use ngbigcache.Queue.FreeList.Valid.{IsValid, Free, Taken}
use ngbigcache.Queue.FreeList.Add.{Added, Room, add-Added}
use ngbigcache.Queue.FreeList.Find.{find-some, find-none}
use ngbigcache.Queue.BytesQueue.{BytesQueue, new_bytes_queue, push, get, reset}
use ngbigcache.Queue.BytesQueue.Layout.{Lays, Entries, entry_bytes}
use ngbigcache.Queue.BytesQueue.New.{
  new_free_list-IsValid, new_free_list-Free, new_bytes_queue-Lays,
}
use ngbigcache.Queue.BytesQueue.Place.{placed-Lays}
use ngbigcache.Queue.BytesQueue.Push.{Stored, Refused, push-cases}
use ngbigcache.Queue.BytesQueue.Delete.{freed}
use ngbigcache.Queue.BytesQueue.Reset.{reset-Lays}
use ngbigcache.Queue.BytesQueue.Sequence.{Op, store, discard, run, run_get}

abbrev tree : AvlTree ℕ
tree = assoc_tree ℕ

abbrev start : BytesQueue tree
start = new_bytes_queue tree 64 0 false

start-Lays : Lays start []
start-Lays = new_bytes_queue-Lays tree 64 0 false (omega arith)

-- Two entries, of which the first is deleted, and a third.
abbrev calls : List Op
calls = store (1 ∷ 2 ∷ 3 ∷ []) ∷ store (4 ∷ []) ∷ discard 1 ∷ store (5 ∷ 6 ∷ []) ∷ []

run_get_example :
    (q' : BytesQueue tree) × (es : Entries) × (run (start, []) calls ≡ ok (q', es))
    × ((i : ℕ) (d : Bytes) → In (i, d) es → get q' i ≡ ok (value d))
run_get_example = run_get start calls start-Lays (
  (omega arith, omega arith),
  ((omega arith, omega arith), (tt, ((omega arith, omega arith), tt))),
)

abbrev two_bytes : Bytes
two_bytes = 1 ∷ 2 ∷ []

push-cases_example :
    Stored start [] two_bytes (push start two_bytes)
    ⊎ (Refused start two_bytes (push start two_bytes)
        × ((c x : ℕ)
            → In x (start.freelist.size_list c)
            → (start.freelist.items x).actual_size < length two_bytes + 4))
push-cases_example = push-cases start [] start-Lays two_bytes (omega arith)

-- A queue that holds one entry of three bytes.
abbrev data_bytes : Bytes
data_bytes = 7 ∷ 8 ∷ 9 ∷ []

abbrev full : BytesQueue tree
full = record start {
  array = copy_at start.array 1 (entry_bytes data_bytes);
  header_buffer = le_bytes 4 (length data_bytes);
  tail = 8;
  right_margin = 8;
  count = start.count + 1;
}

full-Lays : Lays full ((1, data_bytes) ∷ [])
unfolding new_bytes_queue
full-Lays =
    placed-Lays start [] start-Lays 1 data_bytes (omega arith) (omega arith) (omega arith)
      (λ j e h. elim h [ ]) 8 8 start.freelist refl (omega arith) (omega arith) (omega arith)
      (new_free_list-IsValid tree) (λ p f. absurd (new_free_list-Free tree p f))

-- The free list after the entry was deleted.
abbrev left_list : FreeList tree
left_list =
    (freed full ((1, data_bytes) ∷ []) 1 data_bytes full-Lays (inl refl) (omega arith)).freelist

reset-Lays_example : Lays (reset full) [] ↔ ((p : ℕ) → ¬ (Free full.freelist p))
reset-Lays_example = reset-Lays full ((1, data_bytes) ∷ []) full-Lays

-- A free list with the block of ten positions from 1 on.
abbrev none_free : FreeList tree
none_free = new_free_list tree

none_free-Room : Room none_free 1 10
none_free-Room x live = absurd (
    new_free_list-Free tree (none_free.items x).parent_index (
      x,
      live,
      omega (arith, ((new_free_list-IsValid tree).keyed (none_free.items x).parent_index x live).3),
    ))

add-Added_example : Added none_free 1 10 (add none_free 1 10)
add-Added_example =
    add-Added none_free 1 10 (new_free_list-IsValid tree) (omega arith) none_free-Room

abbrev one_free : FreeList tree
one_free = add none_free 1 10

one_free-IsValid : IsValid one_free
one_free-IsValid =
    (add-Added none_free 1 10 (new_free_list-IsValid tree) (omega arith) none_free-Room).valid

find-some_example : Taken one_free 6 1 (find one_free 6).0
unfolding find find_start size_class get_item new_free_list
find-some_example = find-some one_free 6 1 one_free-IsValid (omega arith) refl

find-none_example :
    ((find one_free 50).0 ≡ one_free)
    × ((c y : ℕ) → In y (one_free.size_list c) → (one_free.items y).actual_size < 50)
unfolding find find_start size_class get_item new_free_list
find-none_example = find-none one_free 50 one_free-IsValid (omega arith) refl
