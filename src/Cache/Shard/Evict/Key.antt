-- ===== src/Cache/Shard/Evict/Key.antt =====
-- One key of the set that `evictDel` of bigcache/shard.go runs over.
use ngbigcache.Base.{
  ok-injective, ◌+◌, ◌<◌, ◌≤◌, ◌^◌, length, ℕ, ◌≡◌, ◌≢◌, ◌∙◌, refl, sym, ap, some, none, true,
  false, ◌==◌, ==-cases, inl, inr, In, Bytes, Run, ok, value, Option-cases,
}
use ngbigcache.Base.Assoc as assoc
use mathlib.Core.Option.{some-injective}
use ngbigcache.Queue.BytesQueue as queue
use ngbigcache.Queue.BytesQueue.Layout.{Entries, without}
use ngbigcache.Cache.Encoding.{read_timestamp_from_entry}
use ngbigcache.Cache.Encoding.RoundTrip.{layout, read_timestamp-wrapped}
use ngbigcache.Cache.Library.{Library}
use ngbigcache.Cache.Shard.{Shard, Removals, item_index, delhit, delmiss}
use ngbigcache.Cache.Shard.Get.{item_index_eq, index_test, queue_get}
use ngbigcache.Cache.Shard.Set.{Caches}
use ngbigcache.Cache.Shard.Drop.{In-without_ne}
use ngbigcache.Cache.Shard.Del.{gone, take_out_eq, removed_self, removed_other, deleted-Caches}
use ngbigcache.Cache.Shard.Evict.{evict_key}
use ngbigcache.Cache.BigCache.Abstract.{same_entries}

module _ {lib : Library} where
  -- The callback of a shard returns on every wrapped entry.
  abbrev pub CallbackReturns : Shard lib → Type 0
  CallbackReturns s =
      (timestamp hash : ℕ) (key entry : Bytes)
      → (calls : Removals) × (s.on_remove (layout timestamp hash key entry) ≡ ok calls)

  -- A shard has an entry with a timestamp under a hash.
  abbrev pub HasStamp : Shard lib → ℕ → ℕ → Type 0
  HasStamp s hash timestamp =
      (i : ℕ) × (d : Bytes) × (assoc.get s.hashmap hash ≡ some i)
      × (queue.get s.entries i ≡ ok (value d))
      × (read_timestamp_from_entry d ≡ ok timestamp)

  -- The place of a hash in one shard is as in another.
  abbrev pub Stays : Shard lib → Shard lib → ℕ → Type 0
  Stays s s' hash =
      (assoc.get s'.hashmap hash ≡ assoc.get s.hashmap hash)
      × ((i : ℕ)
          → assoc.get s.hashmap hash ≡ some i
          → queue.get s'.entries i ≡ queue.get s.entries i)

  -- What a pass comes to.
  pub data Evicted (s : Shard lib) (timestamp hash : ℕ) (out : Run (Shard lib)) : Type 0 where
    kept :
        (s' : Shard lib) (es' : Entries)
        → out ≡ ok s'
        → Caches s' es'
        → s'.on_remove ≡ s.on_remove
        → ((other : ℕ) → Stays s s' other)
        → ¬ (HasStamp s hash timestamp)
        → Evicted s timestamp hash out
    taken :
        (s' : Shard lib) (es' : Entries)
        → out ≡ ok s'
        → Caches s' es'
        → s'.on_remove ≡ s.on_remove
        → ((other : ℕ) → hash ≢ other → Stays s s' other)
        → HasStamp s hash timestamp
        → assoc.get s'.hashmap hash ≡ none
        → Evicted s timestamp hash out

  -- The shard after an attempt is counted.
  abbrev counted : Shard lib → Shard lib
  counted s = record s { stats = record s.stats { evict_count = s.stats.evict_count + 1 } }

  counted-Caches : (s : Shard lib) (es : Entries) → Caches s es → Caches (counted s) es
  counted-Caches s es keeps = (same_entries s (counted s) es keeps refl refl refl).0

  evict_none :
      (s : Shard lib) (es : Entries) (timestamp : ℕ) (key : Bytes)
      → Caches s es
      → assoc.get s.hashmap (lib.sum64 key) ≡ none
      → Evicted s timestamp (lib.sum64 key) (evict_key timestamp s key)
  unfolding evict_key delmiss
  evict_none s es timestamp key keeps e =
      kept (delmiss (counted s)) es (rw (evict_key, e, item_index) refl)
        (same_entries s (delmiss (counted s)) es keeps refl refl refl).0 refl
        (λ other. (refl, λ i f. refl))
        (λ (i, d, f, _, _). absurd (let g : none ≡ some i = sym e ∙ f in cc))

  module _ (s : Shard lib) (es : Entries) (timestamp : ℕ) (key : Bytes) (keeps : Caches s es)
      (i : ℕ) (at : assoc.get s.hashmap (lib.sum64 key) ≡ some i) (t : ℕ) (k v : Bytes)
      (st : t < 2 ^ 64) (hf : lib.sum64 key < 2 ^ 64) (kf : length k ≤ 65517)
      (held : In (i, layout t (lib.sum64 key) k v) es) where
    -- The timestamp under the hash is that of the entry.
    stamp_eq : HasStamp s (lib.sum64 key) timestamp → t ≡ timestamp
    stamp_eq (j, d, e, q, r) =
        let read = queue_get s es (λ h. ⊥) keeps (lib.sum64 key) i at t k v st hf kf held in
        let same : i ≡ j = some-injective _ _ (sym at ∙ e) in
        let found : value (layout t (lib.sum64 key) k v) ≡ value d =
          ok-injective _ _ (sym read ∙ ap (queue.get s.entries) same ∙ q) in
        let d_eq : layout t (lib.sum64 key) k v ≡ d = cc in
        ok-injective _ _ (
          sym (read_timestamp-wrapped t (lib.sum64 key) k v st hf kf)
          ∙ ap read_timestamp_from_entry d_eq
          ∙ r)

    evict_other :
        (t == timestamp) ≡ false
        → t ≢ timestamp
        → Evicted s timestamp (lib.sum64 key) (evict_key timestamp s key)
    unfolding evict_key
    evict_other f n =
        kept (counted s) es
          (rw
            (
              evict_key,
              item_index_eq s es (λ h. ⊥) keeps (lib.sum64 key) i at t k v st hf kf held,
              index_test s es (λ h. ⊥) keeps (lib.sum64 key) i at t k v st hf kf held,
              queue_get s es (λ h. ⊥) keeps (lib.sum64 key) i at t k v st hf kf held,
              read_timestamp-wrapped t (lib.sum64 key) k v st hf kf,
              f,
            )
            refl)
          (counted-Caches s es keeps) refl (λ other. (refl, λ j e. refl)) (λ has. n (stamp_eq has))

    module _ (calls : Removals)
        (called : s.on_remove (layout t (lib.sum64 key) k v) ≡ ok calls) where
      -- The shard without the entry.
      abbrev evicted : Shard lib
      evicted = delhit (
          gone (counted s) es (counted-Caches s es keeps) (lib.sum64 key) i at t k v st hf kf held
            calls called)

      evicted-Caches : Caches evicted (without i es)
      unfolding delhit
      evicted-Caches =
          (same_entries _ evicted (without i es)
            (deleted-Caches (counted s) es (counted-Caches s es keeps) (lib.sum64 key) i at t k v st
              hf kf held calls called key 0)
            refl refl refl).0

      evicted-Stays : (other : ℕ) → lib.sum64 key ≢ other → Stays s evicted other
      unfolding delhit
      evicted-Stays other n =
          let same : assoc.get evicted.hashmap other ≡ assoc.get s.hashmap other =
            removed_other (counted s) es (counted-Caches s es keeps) (lib.sum64 key) i at t k v st
              hf kf held calls called other n in
          (
            same,
            λ j e.
                let (d, m, (t', k', v', st', hf', kf', q)) = keeps.indexed other j (λ x. x) e in
                let apart : j ≢ i = λ p.
                  n (keeps.apart (lib.sum64 key) other i (λ x. x) (λ x. x) at (e ∙ ap some p)) in
                let here : In (j, layout t' other k' v') es = rw⁻¹ q m in
                queue_get evicted (without i es) (λ h. ⊥) evicted-Caches other j (same ∙ e) t' k' v'
                  st' hf' kf' (In-without_ne i j _ es here apart)
                ∙ sym (queue_get s es (λ h. ⊥) keeps other j e t' k' v' st' hf' kf' here),
          )

      evict_same :
          (t == timestamp) ≡ true
          → t ≡ timestamp
          → Evicted s timestamp (lib.sum64 key) (evict_key timestamp s key)
      unfolding evict_key delhit
      evict_same b e =
          taken evicted (without i es)
            (rw
              (
                evict_key,
                item_index_eq s es (λ h. ⊥) keeps (lib.sum64 key) i at t k v st hf kf held,
                index_test s es (λ h. ⊥) keeps (lib.sum64 key) i at t k v st hf kf held,
                queue_get s es (λ h. ⊥) keeps (lib.sum64 key) i at t k v st hf kf held,
                read_timestamp-wrapped t (lib.sum64 key) k v st hf kf,
                b,
                item_index_eq s es (λ h. ⊥) keeps (lib.sum64 key) i at t k v st hf kf held,
                take_out_eq (counted s) es (counted-Caches s es keeps) (lib.sum64 key) i at t k v st
                    hf kf held calls called,
              )
              refl)
            evicted-Caches refl evicted-Stays
            (
              i,
              layout t (lib.sum64 key) k v,
              at,
              queue_get s es (λ h. ⊥) keeps (lib.sum64 key) i at t k v st hf kf held,
              read_timestamp-wrapped t (lib.sum64 key) k v st hf kf ∙ ap ok e,
            )
            (removed_self (counted s) es (counted-Caches s es keeps) (lib.sum64 key) i at t k v st
              hf kf held calls called)

  pub evict_key_lem :
      (s : Shard lib) (es : Entries) (timestamp : ℕ) (key : Bytes)
      → Caches s es
      → CallbackReturns s
      → Evicted s timestamp (lib.sum64 key) (evict_key timestamp s key)
  evict_key_lem s es timestamp key keeps calls_back =
      elim (Option-cases (assoc.get s.hashmap (lib.sum64 key))) [
        | inl e ↦ evict_none s es timestamp key keeps e
        | inr (i, at) ↦
            let (d, m, (t, k, v, st, hf, kf, p)) = keeps.indexed (lib.sum64 key) i (λ x. x) at in
            let held : In (i, layout t (lib.sum64 key) k v) es = rw⁻¹ p m in
            let (calls, called) = calls_back t (lib.sum64 key) k v in
            elim (==-cases t timestamp) [
              | inl (b, e) ↦
                  evict_same s es timestamp key keeps i at t k v st hf kf held calls called b e
              | inr (b, n) ↦ evict_other s es timestamp key keeps i at t k v st hf kf held b n
            ]
      ]
