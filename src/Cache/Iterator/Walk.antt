-- ===== src/Cache/Iterator/Walk.antt =====
-- A loop over an iterator of bigcache/iterator.go, of a cache that does not change.
use ngbigcache.Base.{
  ℕ, zero, suc, ◌+◌, ◌-◌, ◌≤◌, ◌<◌, ◌≡◌, ◌∙◌, refl, sym, ap, subst, Bool, true, false, some, List,
  [], ◌∷◌, ◌++◌, ltb, if◌then◌else◌, Run, ok, panic, blocked, ◌>>=◌, length, length-drop, drop,
  get_elem?, get_elem?-some, inl, inr, arith, Bool-cases, ltb→lt, ltb-false,
}
use ngbigcache.Cache.Library.{Library}
use ngbigcache.Cache.Shard.{Shard, copy_keys, indices}
use ngbigcache.Cache.BigCache.{BigCache}
use ngbigcache.Cache.Iterator.{
  EntryInfoIterator, nth, value_at, new_iterator, next_shard, set_next, current_value,
}
use ngbigcache.Cache.Iterator.Reference.{
  Seen, read_indices, read_shards, AllUnlocked, entry_count, placed, length-indices, suc_eq,
  empty_list, drop-get_elem?,
}
use ngbigcache.Cache.Iterator.Next.{none_left, found_one, next_shard_lem, same}

module _ {lib : Library} where
  -- For at most so many elements: `for it.SetNext() { v, err := it.Value() }`.
  unfoldable pub walk : ℕ → BigCache lib → EntryInfoIterator → Run (List Seen)
  unfolding set_next current_value
  walk zero c it = ok []
  walk (suc n) c it = do
    r ← set_next c it
    let more : Run (List Seen) = do v ← current_value c r.0; rest ← walk n c r.0; ok (v ∷ rest)
    if r.1 then more else ok []

module _ {lib : Library} (c : BigCache lib) where
  -- One more element.
  join :
      (v : Run Seen) (m : Run (List Seen)) (ws : Run (List Seen))
      → (do x ← v; vs ← (do us ← m; zs ← ws; ok (us ++ zs)); ok (x ∷ vs))
        ≡ (do vs ← (do x ← v; us ← m; ok (x ∷ us)); zs ← ws; ok (vs ++ zs))
  join (ok x) (ok us) (ok zs) = refl
  join (ok x) (ok us) panic = refl
  join (ok x) (ok us) blocked = refl
  join (ok x) panic ws = refl
  join (ok x) blocked ws = refl
  join panic m ws = refl
  join blocked m ws = refl

  -- What is left for an iterator at a position of a shard.
  abbrev remaining : ℕ → Shard lib → List ℕ → Run (List Seen)
  remaining i s elements = do
    vs ← read_indices s elements
    ws ← read_shards (drop (suc i) c.shards)
    ok (vs ++ ws)

  -- The element that `Value` reads.
  value_eq :
      (i k index : ℕ) (s : Shard lib) (elements : List ℕ)
      → get_elem? c.shards i ≡ some s
      → get_elem? elements k ≡ some index
      → current_value c (placed i (suc k) elements true) ≡ value_at s index
  unfolding current_value
  value_eq i k index s elements at has =
      rw (current_value, nth, at, (let e : suc k - 1 ≡ k = omega arith in e), has) refl

  next_in_shard :
      (i k : ℕ) (elements : List ℕ) (valid : Bool)
      → ltb k (length elements) ≡ true
      → set_next c (placed i k elements valid) ≡ ok (placed i (suc k) elements true, true)
  unfolding set_next
  next_in_shard i k elements valid t =
      rw (set_next, t) refl ∙ ap (λ m. ok (placed i m elements true, true)) (sym (suc_eq k))

  next_after_shard :
      (i k : ℕ) (elements : List ℕ) (valid : Bool)
      → ltb k (length elements) ≡ false
      → c.config.shards ≡ length c.shards
      → set_next c (placed i k elements valid)
        ≡ next_shard c (placed i (k + 1) elements false) (length (drop (suc i) c.shards)) (i + 1)
  unfolding set_next
  next_after_shard i k elements valid f sized =
      let n : c.config.shards - (i + 1) ≡ length (drop (suc i) c.shards) =
        omega (arith, sized, length-drop (suc i) c.shards) in
      rw (set_next, f) (ap (λ m. next_shard c (placed i (k + 1) elements false) m (i + 1)) n)

  walk_stop :
      (n : ℕ) (it it' : EntryInfoIterator)
      → set_next c it ≡ ok (it', false)
      → walk (suc n) c it ≡ ok []
  unfolding walk
  walk_stop n it it' e = rw (walk, e) refl

  -- A round of the loop that finds an element.
  walk_step :
      (n i k index : ℕ) (s : Shard lib) (elements : List ℕ) (it : EntryInfoIterator)
      → set_next c it ≡ ok (placed i (suc k) elements true, true)
      → get_elem? c.shards i ≡ some s
      → get_elem? elements k ≡ some index
      → walk n c (placed i (suc k) elements true) ≡ remaining i s (drop (suc k) elements)
      → walk (suc n) c it ≡ remaining i s (drop k elements)
  unfolding walk read_indices
  walk_step n i k index s elements it e at has rest =
      rw (walk, e, value_eq i k index s elements at has, rest)
        (join (value_at s index) (read_indices s (drop (suc k) elements))
            (read_shards (drop (suc i) c.shards))
          ∙ ap (remaining i s) (sym (drop-get_elem? elements k index has)))

  walk_lem :
      (n i k : ℕ) (s : Shard lib) (elements : List ℕ) (valid : Bool)
      → get_elem? c.shards i ≡ some s
      → AllUnlocked (drop (suc i) c.shards)
      → c.config.shards ≡ length c.shards
      → length (drop k elements) + entry_count (drop (suc i) c.shards) < n
      → walk n c (placed i k elements valid) ≡ remaining i s (drop k elements)
  unfolding read_indices read_shards
  walk_lem zero i k s elements valid at all sized enough = absurd (omega arith)
  walk_lem (suc n) i k s elements valid at all sized enough =
      elim (Bool-cases (ltb k (length elements))) [
        | inl t ↦
            let (index, has) = get_elem?-some elements k (ltb→lt k (length elements) t) in
            let tail = drop-get_elem? elements k index has in
            walk_step n i k index s elements (placed i k elements valid)
              (next_in_shard i k elements valid t) at has
              (walk_lem n i (suc k) s elements true at all sized
                (omega (arith, enough, ap length tail)))
        | inr f ↦
            let nil : drop k elements ≡ [] =
              empty_list (drop k elements)
                (omega (arith, length-drop k elements, ltb-false k (length elements) f)) in
            let moved = placed i (k + 1) elements false in
            let next = next_after_shard i k elements valid f sized in
            elim (next_shard_lem c (drop (suc i) c.shards) moved (i + 1)
              (ap (λ m. drop m c.shards) (sym (suc_eq i))) all) [
                | none_left it' g h ↦
                    walk_stop n (placed i k elements valid) it' (next ∙ g)
                    ∙ sym h
                    ∙ sym (same c (read_shards (drop (suc i) c.shards)))
                    ∙ ap (remaining i s) (sym nil)
                | found_one i' index xs s' g at' all' more h m ↦
                    walk_step n i' 0 index s' (index ∷ xs) (placed i k elements valid) (next ∙ g)
                      at' refl
                      (walk_lem n i' 1 s' (index ∷ xs) true at' all' sized
                        (omega (arith, enough, m, ap length more, ap length nil)))
                    ∙ ap (remaining i' s') (sym more)
                    ∙ sym h
                    ∙ sym (same c (read_shards (drop (suc i) c.shards)))
                    ∙ ap (remaining i s) (sym nil)
              ]
      ]

  first_iterator :
      (s : Shard lib)
      → get_elem? c.shards 0 ≡ some s
      → s.locked ≡ false
      → new_iterator c ≡ ok (placed 0 0 (indices s.hashmap) false)
  unfolding new_iterator copy_keys
  first_iterator s at unlocked =
      rw (new_iterator, nth, at, copy_keys, unlocked, length-indices s.hashmap) refl

  -- If no lock of a shard is held, and the configuration has the number of shards of the cache, which
  -- is at least one, then a loop that calls `SetNext` and then `Value`, on a new iterator of the
  -- cache, which does not change meanwhile, for more rounds than there are entries, gives what stands
  -- in the shards, in their order, at the indices in their maps, and it panics or waits exactly
  -- where reading these does.
  pub walk-read_shards :
      (n : ℕ)
      → AllUnlocked c.shards
      → c.config.shards ≡ length c.shards
      → 1 ≤ length c.shards
      → entry_count c.shards < n
      → (do it ← new_iterator c; walk n c it) ≡ read_shards c.shards
  unfolding read_shards
  walk-read_shards n all sized one_shard enough =
      let (s, at) = get_elem?-some c.shards 0 one_shard in
      let split : c.shards ≡ s ∷ drop 1 c.shards = drop-get_elem? c.shards 0 s at in
      let unlocked = subst AllUnlocked split all in
      let count = ap entry_count split in
      ap (λ m. m >>= walk n c) (first_iterator s at unlocked.0)
      ∙ walk_lem n 0 0 s (indices s.hashmap) false at unlocked.1 sized
          (omega (arith, enough, count))
      ∙ ap read_shards (sym split)
