-- ===== src/Queue/BytesQueue/Push.antt =====
-- `Push` on a queue from which nothing was popped: the data stand at the returned index, every
-- entry is as it was, and an error leaves the queue alone.
use ngbigcache.Base.{
  ℕ, ◌+◌, ◌*◌, ◌≤◌, ◌<◌, ◌^◌, ◌≡◌, ◌⊎◌, refl, ◌∙◌, ◌∷◌, In, arith, length, Bytes, inl, inr, Run, ok,
  ◌>>=◌, Result, value, error, le_bytes, copy_at, lt→ltb, ltb, leb, Option-cases, Bool, true, false,
  ◌&&◌,
}
use native.Mathlib.Decide.{dec_le}
use ngbigcache.Base.Int.{pos, ltb_ℤ, leb_ℤ}
use ngbigcache.Gods.{AvlTree}
use ngbigcache.Queue.FreeList.{FreeList, find}
use ngbigcache.Queue.FreeList.Valid.{Taken}
use ngbigcache.Queue.FreeList.Find.{find-some, find-none}
use ngbigcache.Queue.BytesQueue.{
  BytesQueue, QueueError, full_queue, push, push_free, push_end, push_new, push_tail,
  available_space_after_tail, available_space_before_head,
}
use ngbigcache.Queue.BytesQueue.Layout.{Lays, Entries, Clear, entry_bytes}
use ngbigcache.Queue.BytesQueue.Write.{write_entry_ok}
use ngbigcache.Queue.BytesQueue.Place.{placed-Lays}
use ngbigcache.Queue.BytesQueue.Grow.{Grown, grown_capacity_bound, allocate-Grown}

module _ {avl : AvlTree ℕ} where
  -- The data are stored: the result is their index, and the queue holds them with the old entries.
  abbrev pub Stored :
      BytesQueue avl → Entries → Bytes → Run (BytesQueue avl × Result QueueError ℕ) → Type 0
  Stored q es d r =
      (index : ℕ) × (q' : BytesQueue avl) × (r ≡ ok (q', value index))
      × Lays q' ((index, d) ∷ es)
      × (q'.max_capacity ≡ q.max_capacity)
      × (q'.capacity ≤ (q.capacity + (length d + 4)) * 2)

  -- The data are stored, and the array has the size it had.
  abbrev StoredAtEnd :
      BytesQueue avl → Entries → Bytes → Run (BytesQueue avl × Result QueueError ℕ) → Type 0
  StoredAtEnd q es d r =
      (index : ℕ) × (q' : BytesQueue avl) × (r ≡ ok (q', value index))
      × Lays q' ((index, d) ∷ es)
      × (q'.max_capacity ≡ q.max_capacity)
      × (q'.capacity ≡ q.capacity)

  module _ (q : BytesQueue avl) (es : Entries) (lays : Lays q es) (d : Bytes)
      (short : length d < 2 ^ 32) where
    -- At the end of the used part.
    push_end-Stored : q.tail + (4 + length d) ≤ q.capacity → StoredAtEnd q es d (push_end q d)
    unfolding push_end push_tail
    push_end-Stored room =
        let fits : q.tail + (4 + length d) ≤ length q.array = omega (arith, lays.sized) in
        let q' : BytesQueue avl = record q {
          header_buffer = le_bytes 4 (length d);
          array = copy_at q.array q.tail (entry_bytes d);
          tail = q.tail + (4 + length d);
          right_margin = q.tail + (4 + length d);
          count = q.count + 1;
        } in
        (
          q.tail,
          q',
          rw
              (
                write_entry_ok q d lays.header fits short,
                lt→ltb q.head (q.tail + (4 + length d)) (omega (arith, lays.head, lays.started)),
              )
              refl,
          placed-Lays q es lays q.tail d short lays.started fits
              (λ j e h. inr (lays.holds j e h).below) (q.tail + (4 + length d))
              (q.tail + (4 + length d)) q.freelist refl (omega arith) (omega arith) room lays.valid
              (λ p f. (f, inl (lays.free_inside p f).1)),
          refl,
          refl,
        )

    -- In a block that the free list gave.
    free_room :
        (index : ℕ) (fl : FreeList avl)
        → Taken q.freelist (length d + 4) index fl
        → (1 ≤ index) × (index + (4 + length d) ≤ q.tail)
    free_room index fl taken = (
      (lays.free_inside index (taken.got index (omega arith) (omega arith))).0,
      omega (
        arith,
        lays.free_inside (index + length d + 3)
            (taken.got (index + length d + 3) (omega arith) (omega arith)),
      ),
    )

    free_apart :
        (index : ℕ) (fl : FreeList avl)
        → Taken q.freelist (length d + 4) index fl
        → (j : ℕ) (e : Bytes) → In (j, e) es
        → Clear index d j e
    free_apart index fl taken j e h =
        elim (lays.free_clear index (taken.got index (omega arith) (omega arith)) j e h) [
          | inr after ↦ inr after
          | inl before ↦ elim (dec_le (index + (4 + length d)) j) [
            | yes le ↦ inl le
            | no gt ↦
                absurd
                  (omega (arith, lays.free_clear j (taken.got j (omega arith) (omega arith)) j e h))
          ]
        ]

    push_free-Stored :
        (index : ℕ) (fl : FreeList avl)
        → Taken q.freelist (length d + 4) index fl
        → Stored q es d (push_free (record q { freelist = fl }) d index)
    unfolding push_free
    push_free-Stored index fl taken =
        let room = free_room index fl taken in
        let fits : index + (4 + length d) ≤ length q.array =
          omega (arith, room.1, lays.sized, lays.fits) in
        (
          index,
          record q {
            header_buffer = le_bytes 4 (length d);
            array = copy_at q.array index (entry_bytes d);
            count = q.count + 1;
            freelist = fl;
          },
          rw (write_entry_ok (record q { freelist = fl; tail = index }) d lays.header fits short)
              refl,
          placed-Lays q es lays index d short room.0 fits (free_apart index fl taken) q.tail
              q.right_margin fl lays.margin (omega arith) room.1 lays.fits taken.valid
              (λ p f. let o = taken.free p f in (o.0, omega (arith, o.1))),
          refl,
          omega arith,
        )

  -- The error, with its reason; the queue is as it was.
  abbrev pub Refused : BytesQueue avl → Bytes → Run (BytesQueue avl × Result QueueError ℕ) → Type 0
  Refused q d r =
      (r ≡ ok (q, error full_queue))
      × (0 < q.max_capacity)
      × (q.max_capacity ≤ q.capacity + 4 + length d)
      × (q.capacity < q.tail + (4 + length d))

  module _ (q : BytesQueue avl) (es : Entries) (lays : Lays q es) (d : Bytes)
      (short : length d < 2 ^ 32) where
    full : Bool
    full = leb q.max_capacity (q.capacity + 4 + length d) && ltb 0 q.max_capacity

    full_cases :
        ((full ≡ true) × (0 < q.max_capacity) × (q.max_capacity ≤ q.capacity + 4 + length d))
        ⊎ ((full ≡ false) × ((q.max_capacity ≡ 0) ⊎ (q.capacity + (length d + 4) < q.max_capacity)))
    unfolding full
    full_cases = ground arith

    after_cases :
        ((ltb_ℤ (available_space_after_tail q) (pos (length d + 4)) ≡ true)
          × (q.capacity < q.tail + (4 + length d)))
        ⊎ ((ltb_ℤ (available_space_after_tail q) (pos (length d + 4)) ≡ false)
            × (q.tail + (4 + length d) ≤ q.capacity))
    unfolding available_space_after_tail
    after_cases = ground (arith, lays.head, lays.started, lays.fits)

    -- With the head at the margin there is never room before it.
    before_false : leb_ℤ (pos (length d + 4)) (available_space_before_head q) ≡ false
    unfolding available_space_before_head
    before_false = ground (arith, lays.head, lays.started)

    after_growth :
        (r : Run (BytesQueue avl))
        → Grown q es (length d + 4) r
        → Stored q es d (r >>= λ larger. push_end larger d)
    after_growth r (larger, e, grown, room, max, size) =
        let (index, q', ret, laid, max', size') =
          push_end-Stored larger es grown d short (omega arith) in
        let bound = grown_capacity_bound q (length d + 4) in
        (index, q', rw (e, ret) refl, laid, max' ∙ max, omega (arith, size, size', bound))

    push_new-cases : Stored q es d (push_new q d) ⊎ Refused q d (push_new q d)
    unfolding push_new
    push_new-cases = elim after_cases [
      | inr (t, room) ↦
          let (index, q', ret, laid, max, size) = push_end-Stored q es lays d short room in
          rw t (inl (index, q', ret, laid, max, omega (arith, size)))
      | inl (t, tight) ↦ elim full_cases [
        | inl (f, pos_max, le_max) ↦
            let g : (leb q.max_capacity (q.capacity + 4 + length d) && ltb 0 q.max_capacity)
                ≡ true =
              unfold full in f in
            rw (t, before_false, g) (inr (refl, pos_max, le_max, tight))
        | inr (f, max) ↦
            let g : (leb q.max_capacity (q.capacity + 4 + length d) && ltb 0 q.max_capacity)
                ≡ false =
              unfold full in f in
            rw (t, before_false, g)
              (inl (after_growth _ (allocate-Grown q es (length d + 4) lays max)))
      ]
    ]

    -- For a queue from which nothing was popped and data whose length fits 32 bits: either the
    -- data are stored at the index that is returned, every entry is still held, and the capacity
    -- is at most twice that of before with the data; or the queue has a maximal size, which the
    -- data and the capacity reach, there is no room after the tail, every block in a size list is
    -- too small, and the error is returned with the queue as it was.
    pub push-cases :
        Stored q es d (push q d)
        ⊎ (Refused q d (push q d)
            × ((c x : ℕ)
                → In x (q.freelist.size_list c)
                → (q.freelist.items x).actual_size < length d + 4))
    unfolding push
    push-cases = elim (Option-cases (find q.freelist (length d + 4)).1) [
      | inr (index, e) ↦
          rw (e, push)
            (inl (
              push_free-Stored q es lays d short index (find q.freelist (length d + 4)).0
                (find-some q.freelist (length d + 4) index lays.valid (omega arith) e)))
      | inl e ↦
          let miss = find-none q.freelist (length d + 4) lays.valid (omega arith) e in
          rw (e, push, miss.0) (elim push_new-cases [ inl st ↦ inl st | inr rf ↦ inr (rf, miss.1) ])
    ]
