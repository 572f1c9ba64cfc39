-- ===== src/Queue/BytesQueue/Overwrite.antt =====
-- A write through the slice that `Get` returned: the entry has other bytes of the same number.
use ngbigcache.Base.{
  ℕ, zero, suc, ◌+◌, ◌≤◌, ◌<◌, ◌≡◌, ◌⊎◌, refl, ap, ◌∙◌, ◌++◌, [], ◌∷◌, In, arith, length, take,
  drop, Bytes, slice, inl, inr, take_nil, copy_at, length-copy_at, slice-copy_at_self,
  slice-copy_at_before, slice-copy_at_after,
}
use ngbigcache.Gods.{AvlTree}
use ngbigcache.Queue.BytesQueue.{BytesQueue}
use ngbigcache.Queue.BytesQueue.Layout.{Lays, Holds, Entries, Clear, Written, written_word, without}
use ngbigcache.Queue.BytesQueue.Delete.{In-without, Spread-without, length-without}
use ngbigcache.Queue.BytesQueue.Place.{ClearOf-intro}

take_append : (b : Bytes) (m n k : ℕ) → k ≡ m + n → take k b ≡ take m b ++ take n (drop m b)
take_append b zero n k e = ap (λ l. take l b) (let p : k ≡ n = omega arith in p)
take_append b (suc m) n zero e = absurd (omega arith)
take_append [] (suc m) zero (suc k) e = refl
take_append [] (suc m) (suc n) (suc k) e = refl
take_append (x ∷ b) (suc m) n (suc k) e = ap (λ l. x ∷ l) (take_append b m n k (omega arith))

slice_append :
    (b : Bytes) (i m n k j : ℕ) → k ≡ m + n → j ≡ i + m → slice b i k ≡ slice b i m ++ slice b j n
slice_append b zero m n k j e f =
    take_append b m n k e ∙ ap (λ l. take m b ++ slice b l n) (let p : m ≡ j = omega arith in p)
slice_append b (suc i) m n k zero e f = absurd (omega arith)
slice_append [] (suc i) m n k (suc j) e f = rw (take_nil k, take_nil m, take_nil n) refl
slice_append (x ∷ b) (suc i) m n k (suc j) e f = slice_append b i m n k j e (omega arith)

module _ {avl : AvlTree ℕ} (q : BytesQueue avl) (es : Entries) (i : ℕ) (d d' : Bytes)
    (lays : Lays q es) (held : In (i, d) es) (same : length d' ≡ length d) where
  abbrev array' : Bytes
  array' = copy_at q.array (i + 4) d'

  abbrev pub overwritten : BytesQueue avl
  overwritten = record q { array = array' }

  fits : i + 4 + length d' ≤ length q.array
  fits = omega (arith, (lays.holds i d held).below, lays.fits, lays.sized, same)

  new_Written : Written array' i d'
  new_Written =
      slice_append array' i 4 (length d') (4 + length d') (i + 4) refl refl
      ∙ rw
          (
            slice-copy_at_before q.array (i + 4) d' i 4 (omega arith),
            written_word q.array i d (lays.holds i d held).written,
            slice-copy_at_self q.array (i + 4) d' fits,
            same,
          )
          refl

  old_Written : (j : ℕ) (e : Bytes) → In (j, e) es → Clear i d j e → Written array' j e
  old_Written j e h clear = elim clear [
    | inl after ↦
        slice-copy_at_after q.array (i + 4) d' j (4 + length e) (omega (arith, same))
        ∙ (lays.holds j e h).written
    | inr before ↦
        slice-copy_at_before q.array (i + 4) d' j (4 + length e) (omega arith)
        ∙ (lays.holds j e h).written
  ]

  left : (j : ℕ) (e : Bytes) → In (j, e) (without i es) → In (j, e) es × Clear i d j e
  left j e h = In-without i j d e es lays.spread held h

  -- The entry has its new bytes, and the others are kept.
  pub overwrite-Lays : Lays overwritten ((i, d') ∷ without i es)
  overwrite-Lays =
      let old = lays.holds i d held in
      record {
        head = lays.head;
        margin = lays.margin;
        started = lays.started;
        fits = lays.fits;
        sized = length-copy_at q.array (i + 4) d' ∙ lays.sized;
        header = lays.header;
        counted = omega (arith, lays.counted, length-without i d es held);
        holds = holds;
        spread = (
          ClearOf-intro i d' (without i es) (λ j e h. omega (arith, same, left j e h)),
          Spread-without i es lays.spread,
        );
        valid = lays.valid;
        free_inside = lays.free_inside;
        free_clear = λ p f j e h. free_clear p (lays.free_clear p f) j e h;
      }
    where
      holds : (j : ℕ) (e : Bytes) → In (j, e) ((i, d') ∷ without i es) → Holds overwritten j e
      holds j e (inl p) =
          let old = lays.holds i d held in
          let pj : j ≡ i = ap (λ (x : ℕ × Bytes). x.0) p in
          let pe : e ≡ d' = ap (λ (x : ℕ × Bytes). x.1) p in
          rw (pj, pe)
            (record {
              above = old.above;
              below = omega (arith, old.below, same);
              short = omega (arith, old.short, same);
              written = new_Written;
            })
      holds j e (inr h) =
          let (m, clear) = left j e h in
          let o = lays.holds j e m in
          record {
            above = o.above;
            below = o.below;
            short = o.short;
            written = old_Written j e m clear;
          }

      free_clear :
          (p : ℕ)
          → ((j : ℕ) (e : Bytes) → In (j, e) es → (p < j) ⊎ (j + (4 + length e) ≤ p))
          → (j : ℕ) (e : Bytes) → In (j, e) ((i, d') ∷ without i es)
          → (p < j) ⊎ (j + (4 + length e) ≤ p)
      free_clear p f j e (inl q) =
          let pj : j ≡ i = ap (λ (x : ℕ × Bytes). x.0) q in
          let pe : e ≡ d' = ap (λ (x : ℕ × Bytes). x.1) q in
          rw (pj, pe) (omega (arith, same, f i d held))
      free_clear p f j e (inr h) = f j e (left j e h).0
