-- ===== src/Queue/BytesQueue.antt =====
-- bigcache/queue/bytes_queue.go: entries in a byte array, each behind its length in four bytes.
--
-- An `int` that cannot be negative is a natural number, and the two differences that can be are
-- integers. A slice of the array that a method returns is its bytes. What `make`, a slice
-- expression and `copy` refuse is `panic`. The log line of `allocateAdditionalMemory` is left out.
pub mod Layout
pub mod Write
pub mod Read
pub mod Delete
pub mod Place
pub mod Grow
pub mod Push
pub mod New
pub mod Sequence
pub mod Reset
pub mod Overwrite
use ngbigcache.Base.{
  ℕ, ◌+◌, ◌-◌, ◌*◌, ◌%◌, ◌^◌, Bool, ◌&&◌, Option, none, some, ltb, leb, ◌==◌, if◌then◌else◌, length,
  take, replicate, Bytes, copy, copy_at, Run, ok, panic, ◌>>=◌, Result, value, error, put_le,
  read_le, sub_slice,
}
use ngbigcache.Base.Int.{ℤ, pos, sub_ℕ, ltb_ℤ, leb_ℤ}
use ngbigcache.Gods.{AvlTree}
use ngbigcache.Queue.FreeList.{FreeList, new_free_list, find, add}

abbrev pub header_entry_size : ℕ
header_entry_size = 4

abbrev pub left_margin_index : ℕ
left_margin_index = 1

abbrev pub minimum_empty_blob_size : ℕ
minimum_empty_blob_size = 32 + header_entry_size

-- The messages of `queueError`.
pub data QueueError : Type 0 where
  full_queue empty_queue invalid_index index_out_of_range : QueueError

pub record BytesQueue (avl : AvlTree ℕ) : Type 0 where
  pub array : Bytes
  pub capacity : ℕ
  pub max_capacity : ℕ
  pub head : ℕ
  pub tail : ℕ
  pub count : ℕ
  pub right_margin : ℕ
  pub header_buffer : Bytes
  pub verbose : Bool
  pub initial_capacity : ℕ
  pub freelist : FreeList avl

-- `NewBytesQueue`
unfoldable pub new_bytes_queue : (avl : AvlTree ℕ) → ℕ → ℕ → Bool → BytesQueue avl
new_bytes_queue avl initial_capacity max_capacity verbose = record {
  array = replicate initial_capacity 0;
  capacity = initial_capacity;
  max_capacity = max_capacity;
  head = left_margin_index;
  tail = left_margin_index;
  count = 0;
  right_margin = left_margin_index;
  header_buffer = replicate header_entry_size 0;
  verbose = verbose;
  initial_capacity = initial_capacity;
  freelist = new_free_list avl;
}

abbrev pub first_part : Result QueueError (Bytes × ℕ) → Result QueueError Bytes
first_part (value (bytes, size)) = value bytes
first_part (error e) = error e

module _ {avl : AvlTree ℕ} where
  -- `Reset`
  unfoldable pub reset : BytesQueue avl → BytesQueue avl
  reset q = record q {
    tail = left_margin_index;
    head = left_margin_index;
    right_margin = left_margin_index;
    count = 0;
  }

  -- `copy`: `q.tail += copy(q.array[q.tail:], data[:len])`, at `len = len(data)`, as in every call
  unfoldable pub copy_in : BytesQueue avl → Bytes → Run (BytesQueue avl)
  copy_in q data' =
      if ltb (length q.array) q.tail
      then panic
      else ok (record q {
        array = copy_at q.array q.tail data';
        tail =
            q.tail
            + (if ltb (length q.array - q.tail) (length data')
                then length q.array - q.tail
                else length data');
      })

  -- `PutUint32` of the length into the header buffer, and the two calls of `copy`
  unfoldable pub write_entry : BytesQueue avl → Bytes → Run (BytesQueue avl)
  unfolding copy_in
  write_entry q data' = do
    header ← put_le 4 q.header_buffer 0 (length data' % 2 ^ 32)
    headed ← copy_in (record q { header_buffer = header }) header
    copy_in headed data'

  -- `push`
  unfoldable pub push_tail : BytesQueue avl → Bytes → Run (BytesQueue avl)
  unfolding write_entry
  push_tail q data' = do
    w ← write_entry q data'
    ok (record w {
      right_margin = if ltb w.head w.tail then w.tail else w.right_margin;
      count = w.count + 1;
    })

  unfoldable pub available_space_after_tail : BytesQueue avl → ℤ
  available_space_after_tail q =
      if leb q.head q.tail
      then sub_ℕ q.capacity q.tail
      else sub_ℕ q.head (q.tail + minimum_empty_blob_size)

  unfoldable pub available_space_before_head : BytesQueue avl → ℤ
  available_space_before_head q =
      if leb q.head q.tail
      then sub_ℕ q.head (left_margin_index + minimum_empty_blob_size)
      else sub_ℕ q.head (q.tail + minimum_empty_blob_size)

  -- The new capacity in `allocateAdditionalMemory`.
  unfoldable pub grown_capacity : BytesQueue avl → ℕ → ℕ
  grown_capacity q minimum =
      let more = if ltb q.capacity minimum then q.capacity + minimum else q.capacity in
      if ltb q.max_capacity (more * 2) && ltb 0 q.max_capacity then q.max_capacity else more * 2

  -- The part of `allocateAdditionalMemory` where entries stand before the head: an empty blob
  -- fills the space up to the head. `make` panics at a negative length.
  unfoldable pub fill_gap : BytesQueue avl → Run (BytesQueue avl)
  unfolding push_tail
  fill_gap q =
      if ltb q.tail q.head
      then (if ltb q.head (q.tail + header_entry_size) then panic else do
        filled ← push_tail q (replicate (q.head - q.tail - header_entry_size) 0)
        ok (record filled { head = left_margin_index; tail = filled.right_margin }))
      else ok q

  -- `allocateAdditionalMemory`
  unfoldable pub allocate_additional_memory : BytesQueue avl → ℕ → Run (BytesQueue avl)
  unfolding grown_capacity fill_gap
  allocate_additional_memory q minimum =
      let capacity = grown_capacity q minimum in
      let larger : BytesQueue avl = record q {
        capacity = capacity;
        array = replicate capacity 0;
      } in
      if q.right_margin == left_margin_index
      then ok larger
      else if ltb (length q.array) q.right_margin
      then panic
      else fill_gap
          (record larger { array = copy (replicate capacity 0) (take q.right_margin q.array) })

  -- The branch of `Push` for an index that the free list gave.
  unfoldable pub push_free : BytesQueue avl → Bytes → ℕ → Run (BytesQueue avl × Result QueueError ℕ)
  unfolding write_entry
  push_free q data' idx = do
    w ← write_entry (record q { tail = idx }) data'
    ok (record w { count = w.count + 1; tail = q.tail }, value idx)

  -- The end of `Push`.
  unfoldable pub push_end : BytesQueue avl → Bytes → Run (BytesQueue avl × Result QueueError ℕ)
  unfolding push_tail
  push_end q data' = do pushed ← push_tail q data'; ok (pushed, value q.tail)

  -- `Push` where the free list has no block.
  unfoldable pub push_new : BytesQueue avl → Bytes → Run (BytesQueue avl × Result QueueError ℕ)
  unfolding push_end allocate_additional_memory available_space_after_tail
      available_space_before_head
  push_new q data' =
      let need = length data' + header_entry_size in
      if ltb_ℤ (available_space_after_tail q) (pos need)
      then (if leb_ℤ (pos need) (available_space_before_head q)
          then push_end (record q { tail = left_margin_index }) data'
          else if leb q.max_capacity (q.capacity + header_entry_size + length data')
              && ltb 0 q.max_capacity
          then ok (q, error full_queue)
          else do larger ← allocate_additional_memory q need; push_end larger data')
      else push_end q data'

  -- `Push`
  unfoldable pub push : BytesQueue avl → Bytes → Run (BytesQueue avl × Result QueueError ℕ)
  unfolding push_free push_new
  push q data' =
      let found = find q.freelist (length data' + header_entry_size) in
      let q' : BytesQueue avl = record q { freelist = found.0 } in
      elim found.1 [ some idx ↦ push_free q' data' idx | none ↦ push_new q' data' ]

  -- `peek`: the bytes of the entry and its size
  unfoldable pub peek_at : BytesQueue avl → ℕ → Run (Result QueueError (Bytes × ℕ))
  peek_at q index =
      if q.count == 0
      then ok (error empty_queue)
      else if leb index 0
      then ok (error invalid_index)
      else if leb (length q.array) (index + header_entry_size)
      then ok (error index_out_of_range)
      else do
        block_size ← read_le 4 q.array index
        bytes ←
            sub_slice q.array (index + header_entry_size) (index + header_entry_size + block_size)
        ok (value (bytes, block_size))

  -- `Get`
  unfoldable pub get : BytesQueue avl → ℕ → Run (Result QueueError Bytes)
  unfolding peek_at
  get q index = do r ← peek_at q index; ok (first_part r)

  -- `Peek`
  unfoldable pub peek : BytesQueue avl → Run (Result QueueError Bytes)
  unfolding peek_at
  peek q = do r ← peek_at q q.head; ok (first_part r)

  -- What `Pop` does with an entry that `peek` read.
  unfoldable pub move_head : BytesQueue avl → ℕ → BytesQueue avl
  move_head q size =
      let head' = q.head + (header_entry_size + size) in
      let count' = q.count - 1 in
      if head' == q.right_margin
      then (let tail' = if q.tail == q.right_margin then left_margin_index else q.tail in
          record q { head = left_margin_index; count = count'; tail = tail'; right_margin = tail' })
      else record q { head = head'; count = count' }

  abbrev popped :
      BytesQueue avl → Result QueueError (Bytes × ℕ) → BytesQueue avl × Result QueueError Bytes
  popped q (value (bytes, size)) = (move_head q size, value bytes)
  popped q (error e) = (q, error e)

  -- `Pop`
  unfoldable pub pop : BytesQueue avl → Run (BytesQueue avl × Result QueueError Bytes)
  unfolding peek_at move_head
  pop q = do r ← peek_at q q.head; ok (popped q r)

  abbrev deleted :
      BytesQueue avl → ℕ → Result QueueError (Bytes × ℕ) → BytesQueue avl × Option QueueError
  deleted q index (value (bytes, size)) = (
    record q { freelist = add q.freelist index (size + header_entry_size); count = q.count - 1 },
    none,
  )
  deleted q index (error e) = (q, some e)

  -- `Delete`
  unfoldable pub delete : BytesQueue avl → ℕ → Run (BytesQueue avl × Option QueueError)
  unfolding peek_at
  delete q index = do r ← peek_at q index; ok (deleted q index r)

  -- `Capacity` and `Len`
  unfoldable pub capacity_of : BytesQueue avl → ℕ
  capacity_of q = q.capacity

  unfoldable pub len : BytesQueue avl → ℕ
  len q = q.count
