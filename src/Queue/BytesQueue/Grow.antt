-- ===== src/Queue/BytesQueue/Grow.antt =====
-- `allocateAdditionalMemory` on a queue from which nothing was popped: a larger array with the same
-- entries.
use ngbigcache.Base.{
  ℕ, ◌+◌, ◌*◌, ◌≤◌, ◌<◌, ◌≡◌, ◌⊎◌, refl, ap, ◌∙◌, arith, length, Bytes, slice, inl, inr, Run, ok,
  copy, length-copy, slice-copy-take, le→ltb_false, take, replicate, length-replicate, ==-cases,
}
use ngbigcache.Gods.{AvlTree}
use ngbigcache.Queue.BytesQueue.{BytesQueue, allocate_additional_memory, grown_capacity}
use ngbigcache.Queue.BytesQueue.Layout.{Lays, Entries}

module _ {avl : AvlTree ℕ} where
  -- A larger array that agrees with the old one below the tail.
  grown-Lays :
      (q : BytesQueue avl) (es : Entries) (array : Bytes) (capacity : ℕ)
      → Lays q es
      → length array ≡ capacity
      → q.tail ≤ capacity
      → ((o n : ℕ) → o + n ≤ q.tail → 1 ≤ o → slice array o n ≡ slice q.array o n)
      → Lays (record q { array = array; capacity = capacity }) es
  grown-Lays q es array capacity lays sized fits same = record {
    head = lays.head;
    margin = lays.margin;
    started = lays.started;
    fits = fits;
    sized = sized;
    header = lays.header;
    counted = lays.counted;
    holds = λ i d h.
        let o = lays.holds i d h in
        record {
          above = o.above;
          below = o.below;
          short = o.short;
          written = same i (4 + length d) o.below o.above ∙ o.written;
        };
    spread = lays.spread;
    valid = lays.valid;
    free_inside = lays.free_inside;
    free_clear = lays.free_clear;
  }

  -- The capacity after `allocateAdditionalMemory` has room for what is asked.
  grown_capacity_room :
      (q : BytesQueue avl) (need : ℕ)
      → q.tail ≤ q.capacity
      → (q.max_capacity ≡ 0) ⊎ (q.capacity + need < q.max_capacity)
      → q.tail + need ≤ grown_capacity q need
  unfolding grown_capacity
  grown_capacity_room q need fits max = ground arith

  pub grown_capacity_bound :
      (q : BytesQueue avl) (need : ℕ) → grown_capacity q need ≤ (q.capacity + need) * 2
  unfolding grown_capacity
  grown_capacity_bound q need = ground arith

  -- The queue with room for what is asked, and the same entries.
  abbrev pub Grown : BytesQueue avl → Entries → ℕ → Run (BytesQueue avl) → Type 0
  Grown q es need r =
      (q' : BytesQueue avl) × (r ≡ ok q')
      × Lays q' es
      × (q'.tail + need ≤ q'.capacity)
      × (q'.max_capacity ≡ q.max_capacity)
      × (q'.capacity ≡ grown_capacity q need)

  pub allocate-Grown :
      (q : BytesQueue avl) (es : Entries) (need : ℕ)
      → Lays q es
      → (q.max_capacity ≡ 0) ⊎ (q.capacity + need < q.max_capacity)
      → Grown q es need (allocate_additional_memory q need)
  unfolding allocate_additional_memory
  allocate-Grown q es need lays max =
      let c = grown_capacity q need in
      let room = grown_capacity_room q need lays.fits max in
      let blank : Bytes = replicate c 0 in
      let size : length blank ≡ c = length-replicate c 0 in
      elim (==-cases q.right_margin 1) [
        | inl (t, p) ↦ (
          record q { capacity = c; array = blank },
          rw t refl,
          grown-Lays q es blank c lays size (omega arith) (λ o n h k.
              let z : n ≡ 0 = omega (arith, lays.margin, p) in
              rw (ap (λ m. slice blank o m) z, ap (λ m. slice q.array o m) z) refl),
          room,
          refl,
          refl,
        )
        | inr (t, n) ↦ (
          record q { capacity = c; array = copy blank (take q.right_margin q.array) },
          rw
              (
                t,
                le→ltb_false (length q.array) q.right_margin
                    (omega (arith, lays.margin, lays.fits, lays.sized)),
                le→ltb_false q.tail q.head (omega (arith, lays.head, lays.started)),
              )
              refl,
          grown-Lays q es (copy blank (take q.right_margin q.array)) c lays
              (length-copy blank (take q.right_margin q.array) ∙ size) (omega arith)
              (λ o m h k.
                slice-copy-take blank q.array q.right_margin o m (omega (arith, lays.margin))
                  (omega (arith, lays.margin, lays.fits, lays.sized)) (omega (arith, lays.margin))),
          room,
          refl,
          refl,
        )
      ]
