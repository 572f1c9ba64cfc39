-- ===== src/Cache/Iterator/Next.antt =====
-- The loop of `SetNext` of bigcache/iterator.go over the shards that follow.
use ngbigcache.Base.{
  ℕ, suc, ◌+◌, ◌≡◌, ◌∙◌, refl, sym, ap, subst, Bool, true, false, some, List, [], ◌∷◌, ◌++◌, ltb,
  Run, ok, panic, blocked, ◌>>=◌, length, drop, get_elem?, inl, inr, arith, List-cases, Bool-cases,
  ltb→lt, ltb-false,
}
use ngbigcache.Cache.Library.{Library}
use ngbigcache.Cache.Shard.{Shard, copy_keys, indices}
use ngbigcache.Cache.BigCache.{BigCache}
use ngbigcache.Cache.Iterator.{EntryInfoIterator, nth, next_shard}
use ngbigcache.Cache.Iterator.Reference.{
  Seen, read_indices, read_shards, AllUnlocked, entry_count, placed, length-indices, suc_eq,
  empty_list, drop-cons,
}

module _ {lib : Library} (c : BigCache lib) where
  found_shard :
      (it : EntryInfoIterator) (n j : ℕ) (s : Shard lib)
      → get_elem? c.shards j ≡ some s
      → s.locked ≡ false
      → ltb 0 (length s.hashmap) ≡ true
      → next_shard c it (suc n) j ≡ ok (placed j 1 (indices s.hashmap) true, true)
  unfolding next_shard copy_keys
  found_shard it n j s at unlocked some_keys =
      rw (next_shard, nth, at, copy_keys, unlocked, some_keys, length-indices s.hashmap) refl

  empty_shard :
      (it : EntryInfoIterator) (n j : ℕ) (s : Shard lib) (out : Run (EntryInfoIterator × Bool))
      → get_elem? c.shards j ≡ some s
      → s.locked ≡ false
      → ltb 0 (length s.hashmap) ≡ false
      → next_shard c
          (record it { elements = indices s.hashmap; elements_count = length s.hashmap })
          n
          (j + 1)
        ≡ out
      → next_shard c it (suc n) j ≡ out
  unfolding next_shard copy_keys
  empty_shard it n j s out at unlocked no_keys h =
      rw (next_shard, nth, at, copy_keys, unlocked, no_keys) h

  -- What the loop of `SetNext` comes to over some shards: all are empty, or it finds the first that is
  -- not.
  pub data NextShard (it : EntryInfoIterator) (j : ℕ) (ss : List (Shard lib)) : Type 0 where
    none_left :
        (it' : EntryInfoIterator)
        → next_shard c it (length ss) j ≡ ok (it', false)
        → read_shards ss ≡ ok []
        → NextShard it j ss
    found_one :
        (i index : ℕ) (xs : List ℕ) (s : Shard lib)
        → next_shard c it (length ss) j ≡ ok (placed i 1 (index ∷ xs) true, true)
        → get_elem? c.shards i ≡ some s
        → AllUnlocked (drop (suc i) c.shards)
        → indices s.hashmap ≡ index ∷ xs
        → read_shards ss ≡ read_shards (s ∷ drop (suc i) c.shards)
        → entry_count ss ≡ entry_count (s ∷ drop (suc i) c.shards)
        → NextShard it j ss

  pub same : (m : Run (List Seen)) → (do ws ← m; ok ([] ++ ws)) ≡ m
  same (ok a) = refl
  same panic = refl
  same blocked = refl

  read_empty :
      (s : Shard lib) (rest : List (Shard lib))
      → indices s.hashmap ≡ []
      → read_shards (s ∷ rest) ≡ read_shards rest
  unfolding read_shards read_indices
  read_empty s rest e =
      ap (λ is. read_indices s is >>= λ vs. read_shards rest >>= λ ws. ok (vs ++ ws)) e
      ∙ same (read_shards rest)

  pub next_shard_lem :
      (ss : List (Shard lib)) (it : EntryInfoIterator) (j : ℕ)
      → drop j c.shards ≡ ss
      → AllUnlocked ss
      → NextShard it j ss
  unfolding next_shard read_shards
  next_shard_lem [] it j e all = none_left it refl refl
  next_shard_lem (s ∷ rest) it j e all =
      let (at, left) = drop-cons c.shards j s rest e in
      elim (Bool-cases (ltb 0 (length s.hashmap))) [
        | inl t ↦ elim (List-cases (indices s.hashmap)) [
          | inl nil ↦ absurd (
              omega (arith, length-indices s.hashmap, ap length nil, ltb→lt 0 (length s.hashmap) t))
          | inr (index, xs, more) ↦
              found_one j index xs s
                (found_shard it (length rest) j s at all.0 t
                  ∙ ap (λ l. ok (placed j 1 l true, true)) more)
                at (subst AllUnlocked (sym left) all.1) more
                (ap (λ l. read_shards (s ∷ l)) (sym left))
                (ap (λ l. entry_count (s ∷ l)) (sym left))
        ]
        | inr f ↦
            let gone : length (indices s.hashmap) ≡ 0 =
              omega (arith, length-indices s.hashmap, ltb-false 0 (length s.hashmap) f) in
            let nil : indices s.hashmap ≡ [] = empty_list (indices s.hashmap) gone in
            let it' : EntryInfoIterator = record it {
              elements = indices s.hashmap;
              elements_count = length s.hashmap;
            } in
            elim (next_shard_lem rest it' (j + 1)
              (subst (λ i. drop i c.shards ≡ rest) (suc_eq j) left) all.1) [
                | none_left it'' g h ↦
                    none_left it'' (empty_shard it (length rest) j s _ at all.0 f g)
                      (read_empty s rest nil ∙ h)
                | found_one i index xs s' g at' all' more h n ↦
                    found_one i index xs s' (empty_shard it (length rest) j s _ at all.0 f g) at'
                      all' more (read_empty s rest nil ∙ h) (omega (arith, gone, n))
              ]
      ]
