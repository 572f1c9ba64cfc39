-- ===== src/Queue/BytesQueue/New.antt =====
-- A new queue holds no entries and has no free block.
use ngbigcache.Base.{ℕ, ◌≤◌, ◌≡◌, refl, [], arith, Bool, length-replicate, some}
use ngbigcache.Gods.{AvlTree}
use ngbigcache.Queue.FreeList.{new_free_list}
use ngbigcache.Queue.FreeList.Valid.{IsValid, Free}
use ngbigcache.Queue.BytesQueue.{new_bytes_queue}
use ngbigcache.Queue.BytesQueue.Layout.{Lays}

module _ (avl : AvlTree ℕ) where
  no_key : (k x : ℕ) {A : Type 0} → avl.get avl.empty k ≡ some x → A
  no_key k x e = absurd (let z = avl.get-empty k in cc)

  pub new_free_list-IsValid : IsValid (new_free_list avl)
  unfolding new_free_list
  new_free_list-IsValid = record {
    keyed = λ k x e. no_key k x e;
    apart = λ x y hx hy n. no_key _ x hx;
    listed = λ c x h. elim h [ ];
    distinct = λ c. tt;
  }

  pub new_free_list-Free : (p : ℕ) → ¬ (Free (new_free_list avl) p)
  unfolding new_free_list
  new_free_list-Free p (x, h, c) = no_key _ x h

  -- A new queue with a capacity of at least one byte satisfies the layout invariant, with no
  -- entries.
  pub new_bytes_queue-Lays :
      (capacity max_capacity : ℕ) (verbose : Bool)
      → 1 ≤ capacity
      → Lays (new_bytes_queue avl capacity max_capacity verbose) []
  unfolding new_bytes_queue
  new_bytes_queue-Lays capacity max_capacity verbose h = record {
    head = refl;
    margin = refl;
    started = omega arith;
    fits = h;
    sized = length-replicate capacity 0;
    header = refl;
    counted = refl;
    holds = λ i d m. elim m [ ];
    spread = tt;
    valid = new_free_list-IsValid;
    free_inside = λ p f. absurd (new_free_list-Free p f);
    free_clear = λ p f. absurd (new_free_list-Free p f);
  }
