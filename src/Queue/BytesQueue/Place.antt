-- ===== src/Queue/BytesQueue/Place.antt =====
-- A new entry in the array: where its bytes are clear of the entries, those are as they were.
use ngbigcache.Base.{
  ℕ, ◌+◌, ◌≤◌, ◌<◌, ◌^◌, ◌≡◌, ◌⊎◌, refl, ap, ◌∙◌, [], ◌∷◌, In, arith, length, Bytes, slice, inl,
  inr, le_bytes, length-le_bytes, copy_at, length-copy_at, slice-copy_at_self, slice-copy_at_before,
  slice-copy_at_after, subst,
}
use ngbigcache.Gods.{AvlTree}
use ngbigcache.Queue.FreeList.{FreeList}
use ngbigcache.Queue.FreeList.Valid.{IsValid, Free}
use ngbigcache.Queue.BytesQueue.{BytesQueue}
use ngbigcache.Queue.BytesQueue.Layout.{
  Lays, Holds, Entries, Clear, ClearOf, Written, entry_bytes, length-entry_bytes,
}

pub ClearOf-intro :
    (i : ℕ) (d : Bytes) (es : Entries)
    → ((j : ℕ) (e : Bytes) → In (j, e) es → Clear i d j e)
    → ClearOf i d es
ClearOf-intro i d [] f = tt
ClearOf-intro i d ((j, e) ∷ es) f =
    (f j e (inl refl), ClearOf-intro i d es (λ k g h. f k g (inr h)))

module _ {avl : AvlTree ℕ} where
  module _ (q : BytesQueue avl) (es : Entries) (lays : Lays q es) (t : ℕ) (d : Bytes)
      (short : length d < 2 ^ 32) (above : 1 ≤ t) (room : t + (4 + length d) ≤ length q.array)
      (clear : (j : ℕ) (e : Bytes) → In (j, e) es → Clear t d j e) where
    -- The array with the new entry, and what an entry that was there reads.
    abbrev array' : Bytes
    array' = copy_at q.array t (entry_bytes d)

    new_Written : Written array' t d
    new_Written =
        subst (λ n. slice array' t n ≡ entry_bytes d) (length-entry_bytes d)
          (slice-copy_at_self q.array t (entry_bytes d) (omega (arith, length-entry_bytes d)))

    old_Written : (j : ℕ) (e : Bytes) → In (j, e) es → Written array' j e
    old_Written j e h = elim (clear j e h) [
      | inl after ↦
          slice-copy_at_after q.array t (entry_bytes d) j (4 + length e)
            (omega (arith, length-entry_bytes d))
          ∙ (lays.holds j e h).written
      | inr before ↦
          slice-copy_at_before q.array t (entry_bytes d) j (4 + length e) before
          ∙ (lays.holds j e h).written
    ]

    -- The queue with the new entry, with its tail and its free list as they are then.
    module _ (tail' margin : ℕ) (fl : FreeList avl) where
      abbrev placed : BytesQueue avl
      placed = record q {
        array = array';
        header_buffer = le_bytes 4 (length d);
        tail = tail';
        right_margin = margin;
        count = q.count + 1;
        freelist = fl;
      }

      pub placed-Lays :
          margin ≡ tail'
          → q.tail ≤ tail'
          → t + (4 + length d) ≤ tail'
          → tail' ≤ q.capacity
          → IsValid fl
          → ((p : ℕ) → Free fl p → Free q.freelist p × ((p < t) ⊎ (t + (4 + length d) ≤ p)))
          → Lays placed ((t, d) ∷ es)
      placed-Lays same grows below fits valid free = record {
        head = lays.head;
        margin = same;
        started = omega (arith, lays.started);
        fits = fits;
        sized = length-copy_at q.array t (entry_bytes d) ∙ lays.sized;
        header = length-le_bytes 4 (length d);
        counted = omega (arith, lays.counted);
        holds = held;
        spread = (ClearOf-intro t d es clear, lays.spread);
        valid = valid;
        free_inside = λ p f. omega (arith, lays.free_inside p (free p f).0);
        free_clear = λ p f i e h. apart p (free p f) i e h;
      }
        where
          held : (i : ℕ) (e : Bytes) → In (i, e) ((t, d) ∷ es) → Holds placed i e
          held i e (inl p) =
              let pi : i ≡ t = ap (λ (x : ℕ × Bytes). x.0) p in
              let pe : e ≡ d = ap (λ (x : ℕ × Bytes). x.1) p in
              rw (pi, pe)
                (record { above = above; below = below; short = short; written = new_Written })
          held i e (inr h) =
              let o = lays.holds i e h in
              record {
                above = o.above;
                below = omega (arith, o.below);
                short = o.short;
                written = old_Written i e h;
              }

          apart :
              (p : ℕ)
              → Free q.freelist p × ((p < t) ⊎ (t + (4 + length d) ≤ p))
              → (i : ℕ) (e : Bytes) → In (i, e) ((t, d) ∷ es)
              → (p < i) ⊎ (i + (4 + length e) ≤ p)
          apart p (f, off) i e (inl q') =
              let pi : i ≡ t = ap (λ (x : ℕ × Bytes). x.0) q' in
              let pe : e ≡ d = ap (λ (x : ℕ × Bytes). x.1) q' in rw (pi, pe) off
          apart p (f, off) i e (inr h) = lays.free_clear p f i e h
