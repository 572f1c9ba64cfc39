-- ===== src/Queue/BytesQueue/Read.antt =====
-- Reads of an entry that the queue holds.
use ngbigcache.Base.{
  ℕ, ◌+◌, ◌-◌, ◌≤◌, ◌≡◌, [], ◌∷◌, In, arith, length, Bytes, ok, value, read_le_ok, sub_slice_ok,
  lt→leb_false, ne→==_false,
}
use ngbigcache.Gods.{AvlTree}
use ngbigcache.Queue.BytesQueue.{BytesQueue, peek_at, get}
use ngbigcache.Queue.BytesQueue.Layout.{Lays, Entries, written_word, written_data}

In-count : (es : Entries) (i : ℕ) (d : Bytes) → In (i, d) es → 1 ≤ length es
In-count [] i d h = elim h [ ]
In-count (e ∷ es) i d h = omega arith

module _ {avl : AvlTree ℕ} where
  pub peek_at-held :
      (q : BytesQueue avl) (es : Entries) (i : ℕ) (d : Bytes)
      → Lays q es
      → In (i, d) es
      → 1 ≤ length d
      → peek_at q i ≡ ok (value (d, length d))
  unfolding peek_at
  peek_at-held q es i d lays h pos =
      let held = lays.holds i d h in
      let room : i + (4 + length d) ≤ length q.array =
        omega (arith, lays.sized, lays.fits, held.below) in
      rw (
        ne→==_false q.count 0 (λ e. omega (arith, e, lays.counted, In-count es i d h)),
        lt→leb_false i 0 held.above,
        lt→leb_false (length q.array) (i + 4) (omega arith),
        read_le_ok 4 q.array i (length d) (omega arith) (written_word q.array i d held.written)
            (omega (arith, held.short)),
        sub_slice_ok q.array (i + 4) (i + 4 + length d) (omega arith) (omega arith),
        (let z : i + 4 + length d - (i + 4) ≡ length d = omega arith in z),
        written_data q.array i d held.written,
      )

  -- For a queue from which nothing was popped, `Get` at the index of an entry of at least one byte
  -- returns its bytes.
  pub get-held :
      (q : BytesQueue avl) (es : Entries) (i : ℕ) (d : Bytes)
      → Lays q es
      → In (i, d) es
      → 1 ≤ length d
      → get q i ≡ ok (value d)
  unfolding get
  get-held q es i d lays h pos = rw (peek_at-held q es i d lays h pos)
