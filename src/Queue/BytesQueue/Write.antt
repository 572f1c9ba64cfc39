-- ===== src/Queue/BytesQueue/Write.antt =====
-- Writing an entry: the array changes in the bytes of the entry only.
use ngbigcache.Base.{
  ℕ, ◌+◌, ◌-◌, ◌≤◌, ◌<◌, ◌^◌, ◌%◌, ◌≡◌, refl, sym, ◌∙◌, arith, length, Bytes, ok, le_bytes,
  length-le_bytes, put_le_ok, copy_at, copy_full, copy_at_append, length-copy_at, le→ltb_false,
}
use native.Mathlib.Nat.{mod-eq_of_lt}
use ngbigcache.Gods.{AvlTree}
use ngbigcache.Queue.BytesQueue.{BytesQueue, copy_in, write_entry}
use ngbigcache.Queue.BytesQueue.Layout.{entry_bytes}

module _ {avl : AvlTree ℕ} (q : BytesQueue avl) where
  copy_in_ok :
      (d : Bytes)
      → q.tail + length d ≤ length q.array
      → copy_in q d ≡ ok (record q { array = copy_at q.array q.tail d; tail = q.tail + length d })
  unfolding copy_in
  copy_in_ok d h = rw (
    le→ltb_false (length q.array) q.tail (omega arith),
    le→ltb_false (length q.array - q.tail) (length d) (omega arith),
  )

module _ {avl : AvlTree ℕ} (q : BytesQueue avl) (d : Bytes) (header : length q.header_buffer ≡ 4)
    (room : q.tail + (4 + length d) ≤ length q.array) (short : length d < 2 ^ 32) where
  abbrev pub entry_written : BytesQueue avl
  entry_written = record q {
    header_buffer = le_bytes 4 (length d);
    array = copy_at q.array q.tail (entry_bytes d);
    tail = q.tail + (4 + length d);
  }

  pub write_entry_ok : write_entry q d ≡ ok entry_written
  unfolding write_entry
  write_entry_ok =
      let w : Bytes = le_bytes 4 (length d) in
      let lw : length w ≡ 4 = length-le_bytes 4 (length d) in
      let headed : BytesQueue avl = record q {
        header_buffer = w;
        array = copy_at q.array q.tail w;
        tail = q.tail + length w;
      } in
      rw (
        (let e : length d % 2 ^ 32 ≡ length d = mod-eq_of_lt short in e),
        put_le_ok 4 q.header_buffer 0 (length d) (omega arith),
        (let e : copy_at q.header_buffer 0 w ≡ w =
              unfold copy_at in copy_full q.header_buffer w (header ∙ sym lw) in
            e),
        copy_in_ok (record q { header_buffer = w }) w (omega arith),
        copy_in_ok headed d (rw length-copy_at (omega arith)),
        copy_at_append q.array q.tail w d (q.tail + length w) refl,
        (let e : q.tail + length w + length d ≡ q.tail + (4 + length d) = omega arith in e),
      )
