-- ===== src/Queue/BytesQueue/Delete.antt =====
-- `Delete` of an entry that the queue holds: the entry is gone, its block is free, and every other
-- entry is as it was.
use ngbigcache.Base.{
  ℕ, ◌+◌, ◌-◌, ◌≤◌, ◌≡◌, ◌≢◌, ◌⊎◌, refl, ap, [], ◌∷◌, In, arith, length, Bytes, ok, inl, inr,
  ==-cases, none,
}
use native.Mathlib.Decide.{dec_le}
use ngbigcache.Gods.{AvlTree}
use ngbigcache.Queue.FreeList.{add}
use ngbigcache.Queue.FreeList.Add.{Room, block, add-Added}
use ngbigcache.Queue.FreeList.Valid.{Free, Covers}
use ngbigcache.Queue.BytesQueue.{BytesQueue, delete}
use ngbigcache.Queue.BytesQueue.Layout.{Lays, Entries, Clear, ClearOf, Spread, without}
use ngbigcache.Queue.BytesQueue.Read.{peek_at-held}

abbrev index_of : ℕ × Bytes → ℕ
index_of e = e.0

abbrev bytes_of : ℕ × Bytes → Bytes
bytes_of e = e.1

pub ClearOf-In :
    (i j : ℕ) (d e : Bytes) (es : Entries) → ClearOf i d es → In (j, e) es → Clear i d j e
ClearOf-In i j d e [] c h = elim h [ ]
ClearOf-In i j d e ((a, b) ∷ es) (c, cs) (inl p) =
    let pj : j ≡ a = ap index_of p in let pe : e ≡ b = ap bytes_of p in rw (pj, pe) c
ClearOf-In i j d e ((a, b) ∷ es) (c, cs) (inr h) = ClearOf-In i j d e es cs h

-- An entry that is left is another one, and clear of the one that was removed.
pub In-without :
    (i j : ℕ) (d e : Bytes) (es : Entries)
    → Spread es
    → In (i, d) es
    → In (j, e) (without i es)
    → In (j, e) es × Clear i d j e
unfolding without
In-without i j d e [] s h k = elim h [ ]
In-without i j d e ((a, b) ∷ es) (c, s) h k = elim (==-cases i a) [
  | inl (t, p) ↦ let m : In (j, e) es = rw t at k in (inr m, head h p m)
  | inr (t, n) ↦ other (In-without i j d e es s) n h (rw t at k)
]
  where
    head : In (i, d) ((a, b) ∷ es) → i ≡ a → In (j, e) es → Clear i d j e
    head (inl q) p m = let pd : d ≡ b = ap bytes_of q in rw (p, pd) (ClearOf-In a j b e es c m)
    head (inr h) p m = absurd (omega (arith, ClearOf-In a i b d es c h))

    other :
        (In (i, d) es → In (j, e) (without i es) → In (j, e) es × Clear i d j e)
        → i ≢ a
        → In (i, d) ((a, b) ∷ es)
        → In (j, e) ((a, b) ∷ without i es)
        → In (j, e) ((a, b) ∷ es) × Clear i d j e
    other ih n (inl q) k = absurd (n (ap index_of q))
    other ih n (inr h) (inl q) =
        let pj : j ≡ a = ap index_of q in
        let pe : e ≡ b = ap bytes_of q in
        (inl q, rw (pj, pe) (omega (arith, ClearOf-In a i b d es c h)))
    other ih n (inr h) (inr k) = let r = ih h k in (inr r.0, r.1)

pub length-without :
    (i : ℕ) (d : Bytes) (es : Entries) → In (i, d) es → length (without i es) + 1 ≡ length es
unfolding without
length-without i d [] h = elim h [ ]
length-without i d ((a, b) ∷ es) (inl q) = let p : i ≡ a = ap index_of q in ground (arith, p)
length-without i d ((a, b) ∷ es) (inr h) = ground (arith, length-without i d es h)

pub ClearOf-without :
    (i j : ℕ) (d : Bytes) (es : Entries) → ClearOf j d es → ClearOf j d (without i es)
unfolding without
ClearOf-without i j d [] c = c
ClearOf-without i j d ((a, b) ∷ es) (c, cs) = ground (arith, ClearOf-without i j d es cs)

pub Spread-without : (i : ℕ) (es : Entries) → Spread es → Spread (without i es)
unfolding without
Spread-without i [] s = s
Spread-without i ((a, b) ∷ es) (c, s) =
    ground (arith, Spread-without i es s, ClearOf-without i a b es c)

module _ {avl : AvlTree ℕ} (q : BytesQueue avl) (es : Entries) (i : ℕ) (d : Bytes)
    (lays : Lays q es) (held : In (i, d) es) (nonempty : 1 ≤ length d) where
  -- What `Delete` leaves.
  abbrev pub freed : BytesQueue avl
  freed = record q { freelist = add q.freelist i (length d + 4); count = q.count - 1 }

  -- No free block meets the block of the entry.
  room : Room q.freelist i (length d + 4)
  room x live =
      let k = lays.valid.keyed (q.freelist.items x).parent_index x live in
      let first =
        lays.free_clear (q.freelist.items x).parent_index (x, live, omega (arith, k.3)) i d held in
      elim first [
        | inr r ↦ inr (omega arith)
        | inl l ↦
            elim (dec_le ((q.freelist.items x).parent_index + (q.freelist.items x).actual_size) i) [
              | yes h ↦ inl h
              | no h ↦ absurd (omega (arith, lays.free_clear i (x, live, omega arith) i d held))
            ]
      ]

  pub delete-held :
      (delete q i ≡ ok (freed, none))
      × Lays freed (without i es)
      × ((at : ℕ)
          → Free freed.freelist at
          → Free q.freelist at ⊎ Covers (block i (length d + 4)) at)
      × ((at : ℕ) → Covers (block i (length d + 4)) at → Free freed.freelist at)
  unfolding delete
  delete-held =
      let b = lays.holds i d held in
      let added = add-Added q.freelist i (length d + 4) lays.valid (omega arith) room in
      (
        rw (peek_at-held q es i d lays held nonempty) refl,
        record {
          head = lays.head;
          margin = lays.margin;
          started = lays.started;
          fits = lays.fits;
          sized = lays.sized;
          header = lays.header;
          counted = omega (arith, lays.counted, length-without i d es held);
          holds = λ j e h.
              let o = lays.holds j e (In-without i j d e es lays.spread held h).0 in
              record { above = o.above; below = o.below; short = o.short; written = o.written };
          spread = Spread-without i es lays.spread;
          valid = added.valid;
          free_inside = λ p f. elim (added.free p f) [
            | inl g ↦ lays.free_inside p g
            | inr c ↦ omega (arith, b.above, b.below)
          ];
          free_clear = λ p f j e h.
              let o = In-without i j d e es lays.spread held h in
              elim (added.free p f) [
                | inl g ↦ lays.free_clear p g j e o.0
                | inr c ↦ omega (arith, o.1)
              ];
        },
        added.free,
        added.added,
      )
