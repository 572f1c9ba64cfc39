-- ===== src/Cache/Shard/Del.antt =====
-- `del` of a hash that the map has.
use ngbigcache.Base.{
  ℕ, ◌≤◌, ◌<◌, ◌^◌, ◌≡◌, ◌≢◌, ◌⊎◌, ◌∙◌, sym, refl, some, none, ◌++◌, In, inl, inr, arith, length,
  Bytes, ==-cases, ok, error, ap,
}
use ngbigcache.Base.Assoc as assoc
use ngbigcache.Base.Assoc.{get-remove}
use ngbigcache.Queue.BytesQueue.Layout.{Entries, without}
use ngbigcache.Cache.Encoding.RoundTrip.{layout, read_timestamp-wrapped}
use ngbigcache.Cache.Library.{Library}
use ngbigcache.Cache.Ttl as ttl
use ngbigcache.Cache.Shard.{
  Shard, Removals, entry_not_found, get, del, take_out, reset_key, delete, delhit, miss,
}
use ngbigcache.Cache.Shard.Get.{item_index_eq, index_test, queue_get, get_miss}
use ngbigcache.Cache.Shard.Drop.{left, left-Lays, reset_key_eq, delete_eq, In-without_ne}
use ngbigcache.Cache.Shard.Set.{Caches, answer, same_answer}

module _ {lib : Library} (s : Shard lib) (es : Entries) (keeps : Caches s es) (hash i : ℕ)
    (indexed : assoc.get s.hashmap hash ≡ some i) (timestamp : ℕ) (key entry : Bytes)
    (stamp_fits : timestamp < 2 ^ 64) (hash_fits : hash < 2 ^ 64) (key_fits : length key ≤ 65517)
    (held : In (i, layout timestamp hash key entry) es) (calls : Removals)
    (called : s.on_remove (layout timestamp hash key entry) ≡ ok calls) where
  -- The shard without the entry.
  abbrev pub gone : Shard lib
  gone = record s {
    hashmap = assoc.remove s.hashmap hash;
    removed = s.removed ++ calls;
    entries = left s es keeps hash i indexed timestamp key entry stamp_fits hash_fits key_fits held;
  }

  pub take_out_eq : take_out s hash i (layout timestamp hash key entry) ≡ ok gone
  unfolding take_out reset_key delete
  take_out_eq =
      rw
        (
          called,
          reset_key_eq s es keeps hash i indexed timestamp key entry stamp_fits hash_fits key_fits
              held,
          delete_eq s es keeps hash i indexed timestamp key entry stamp_fits hash_fits key_fits
              held,
        )
        refl

  abbrev pub deleted : Bytes → ℕ → Shard lib
  deleted asked now =
      delhit (record gone { ttl_table = ttl.remove gone.ttl_table timestamp asked now })

  del_eq : (asked : Bytes) (now : ℕ) → del s asked hash now ≡ ok (deleted asked now, none)
  unfolding del
  del_eq asked now =
      rw
        (
          item_index_eq s es (λ h. ⊥) keeps hash i indexed timestamp key entry stamp_fits hash_fits
              key_fits held,
          index_test s es (λ h. ⊥) keeps hash i indexed timestamp key entry stamp_fits hash_fits
              key_fits held,
          queue_get s es (λ h. ⊥) keeps hash i indexed timestamp key entry stamp_fits hash_fits
              key_fits held,
          item_index_eq s es (λ h. ⊥) keeps hash i indexed timestamp key entry stamp_fits hash_fits
              key_fits held,
          take_out_eq,
          read_timestamp-wrapped timestamp hash key entry stamp_fits hash_fits key_fits,
          keeps.unlocked,
        )
        refl

  pub removed_self : assoc.get (assoc.remove s.hashmap hash) hash ≡ none
  removed_self = get-remove s.hashmap hash hash ∙ ground arith

  pub removed_other :
      (other : ℕ)
      → hash ≢ other
      → assoc.get (assoc.remove s.hashmap hash) other ≡ assoc.get s.hashmap other
  removed_other other n = get-remove s.hashmap hash other ∙ ground (arith, n)

  -- A hash that is left is another one.
  still :
      (h j : ℕ)
      → assoc.get (assoc.remove s.hashmap hash) h ≡ some j
      → (hash ≢ h) × (assoc.get s.hashmap h ≡ some j)
  still h j e = elim (==-cases hash h) [
    | inl (t, p) ↦
        let z : assoc.get (assoc.remove s.hashmap hash) h ≡ none =
          ap (λ k. assoc.get (assoc.remove s.hashmap hash) k) (sym p) ∙ removed_self in
        absurd (let f : none ≡ some j = sym z ∙ e in cc)
    | inr (t, n) ↦ (n, sym (removed_other h n) ∙ e)
  ]

  pub deleted-Caches : (asked : Bytes) (now : ℕ) → Caches (deleted asked now) (without i es)
  unfolding delhit
  deleted-Caches asked now = record {
    unlocked = keeps.unlocked;
    lays =
        left-Lays s es keeps hash i indexed timestamp key entry stamp_fits hash_fits key_fits held;
    indexed = λ h j o e.
        let (n, e') = still h j e in
        let (d, m, w) = keeps.indexed h j (λ x. x) e' in
        (
          d,
          In-without_ne i j d es m
              (λ p. n (keeps.apart hash h i (λ x. x) (λ x. x) indexed (e' ∙ ap some p))),
          w,
        );
    apart = λ h k j o p e f. keeps.apart h k j (λ x. x) (λ x. x) (still h j e).1 (still k j f).1;
  }

  -- If the map of a well-formed shard has the hash, at the index of a wrapped entry, and the callback
  -- returns, then `del` returns no error, whichever key was asked for; the callback was called with
  -- the entry, the shard is well-formed without it, `get` finds nothing under the hash, and answers
  -- as before for every other hash.
  pub del_get :
      (asked : Bytes) (now : ℕ)
      → (s' : Shard lib) × (del s asked hash now ≡ ok (s', none))
        × Caches s' (without i es)
        × (s'.removed ≡ s.removed ++ calls)
        × ((k : Bytes) → get s' k hash ≡ ok (miss s', error (entry_not_found k)))
        × ((k : Bytes) (other : ℕ)
            → (hash ≡ other) ⊎ (answer (get s' k other) ≡ answer (get s k other)))
  unfolding delhit
  del_get asked now =
      let caches = deleted-Caches asked now in
      (
        deleted asked now,
        del_eq asked now,
        caches,
        refl,
        λ k. get_miss (deleted asked now) caches.unlocked k hash removed_self,
        λ k other. elim (==-cases hash other) [
          | inl (t, p) ↦ inl p
          | inr (t, n) ↦ inr (
              same_answer s (deleted asked now) es (without i es) other keeps caches
                (removed_other other n)
                (λ j d e m.
                  In-without_ne i j d es m
                    (λ p. n (keeps.apart hash other i (λ x. x) (λ x. x) indexed (e ∙ ap some p))))
                k)
        ],
      )
