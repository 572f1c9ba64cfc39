-- ===== src/Queue/BytesQueue/Reset.antt =====
-- `Reset` leaves the free list as it is, with the blocks that were deleted before.
use ngbigcache.Base.{ℕ, ◌↔◌, refl, [], arith}
use ngbigcache.Gods.{AvlTree}
use ngbigcache.Queue.FreeList.Valid.{Free}
use ngbigcache.Queue.BytesQueue.{BytesQueue, reset}
use ngbigcache.Queue.BytesQueue.Layout.{Lays, Entries}

module _ {avl : AvlTree ℕ} where
  -- For a queue from which nothing was popped: after `Reset` it is laid out as an empty one exactly
  -- if no position was free before.
  pub reset-Lays :
      (q : BytesQueue avl) (es : Entries)
      → Lays q es
      → Lays (reset q) [] ↔ ((p : ℕ) → ¬ (Free q.freelist p))
  unfolding reset
  reset-Lays q es lays = (
    λ r p f. omega (arith, r.free_inside p f),
    λ none_free. record {
      head = refl;
      margin = refl;
      started = omega arith;
      fits = omega (arith, lays.started, lays.fits);
      sized = lays.sized;
      header = lays.header;
      counted = refl;
      holds = λ i d m. elim m [ ];
      spread = tt;
      valid = lays.valid;
      free_inside = λ p f. absurd (none_free p f);
      free_clear = λ p f. absurd (none_free p f);
    },
  )
