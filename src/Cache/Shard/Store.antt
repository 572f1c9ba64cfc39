-- ===== src/Cache/Shard/Store.antt =====
-- `set` stores the new entry, after it dropped the one that has its hash.
use ngbigcache.Base.{
  ℕ, ◌≤◌, ◌<◌, ◌^◌, ◌%◌, ◌≡◌, ◌≢◌, ◌∙◌, sym, refl, some, ◌∷◌, inl, inr, arith, length, Bytes,
  ==-cases, ap, subst,
}
use native.Mathlib.Nat.{mod-eq_of_lt}
use mathlib.Core.Option.{some-injective}
use ngbigcache.Base.Assoc as assoc
use ngbigcache.Base.Assoc.{get-put}
use ngbigcache.Queue.BytesQueue.{BytesQueue}
use ngbigcache.Queue.BytesQueue.Layout.{Lays, Entries}
use ngbigcache.Queue.BytesQueue.Delete.{ClearOf-In}
use ngbigcache.Cache.Encoding.RoundTrip.{layout}
use ngbigcache.Cache.Library.{Library}
use ngbigcache.Cache.Ttl.{TtlManager}
use ngbigcache.Cache.Shard.{Shard}
use ngbigcache.Cache.Shard.Keeps.{Keeps, IsWrapped}

module _ {lib : Library} (s : Shard lib) (es : Entries) (hash : ℕ)
    (keeps : Keeps s es (λ h. h ≡ hash)) (timestamp : ℕ) (key entry : Bytes)
    (stamp_fits : timestamp < 2 ^ 64) (hash_fits : hash < 2 ^ 64) (key_fits : length key ≤ 65517)
    (index : ℕ) (q : BytesQueue lib.index_trees)
    (lays : Lays q ((index, layout timestamp hash key entry) ∷ es)) where
  -- The shard with the entry at the index that `Push` gave.
  abbrev pub stored : Bytes → TtlManager lib → Shard lib
  stored buffer table = record s {
    entry_buffer = buffer;
    entries = q;
    hashmap = assoc.put s.hashmap hash (index % 2 ^ 32);
    ttl_table = table;
  }

  module _ (small : q.capacity ≤ 2 ^ 32) where
    index_fits : index % 2 ^ 32 ≡ index
    index_fits = mod-eq_of_lt (
        omega (
          arith,
          small,
          lays.fits,
          (lays.holds index (layout timestamp hash key entry) (inl refl)).below,
        ))

    pub get_self : assoc.get (assoc.put s.hashmap hash (index % 2 ^ 32)) hash ≡ some index
    get_self = get-put s.hashmap hash (index % 2 ^ 32) hash ∙ rw index_fits (ground arith)

    pub get_other :
        (other : ℕ)
        → hash ≢ other
        → assoc.get (assoc.put s.hashmap hash (index % 2 ^ 32)) other ≡ assoc.get s.hashmap other
    get_other other n = get-put s.hashmap hash (index % 2 ^ 32) other ∙ ground (arith, n)

    -- No entry that was there is at the new index.
    new_index : (h : ℕ) → h ≢ hash → assoc.get s.hashmap h ≢ some index
    new_index h n e =
        let (d, m, w) = keeps.indexed h index n e in
        absurd (
          omega
            (arith, ClearOf-In index index (layout timestamp hash key entry) d es lays.spread.0 m))

    pub stored-Keeps :
        (buffer : Bytes) (table : TtlManager lib)
        → Keeps (stored buffer table) ((index, layout timestamp hash key entry) ∷ es) (λ h. ⊥)
    stored-Keeps buffer table = record {
      unlocked = keeps.unlocked;
      lays = lays;
      indexed = λ h j n e. elim (==-cases hash h) [
        | inl (t, p) ↦
            let e' : assoc.get (assoc.put s.hashmap hash (index % 2 ^ 32)) hash ≡ some j =
              subst (λ k. assoc.get (assoc.put s.hashmap hash (index % 2 ^ 32)) k ≡ some j) (sym p)
                e in
            let pj : j ≡ index = some-injective _ _ (sym e' ∙ get_self) in
            (
              layout timestamp hash key entry,
              inl (ap (λ k. (k, layout timestamp hash key entry)) pj),
              subst (λ k. IsWrapped k (layout timestamp hash key entry)) p
                  (timestamp, key, entry, stamp_fits, hash_fits, key_fits, refl),
            )
        | inr (t, m) ↦
            let (d, k, w) = keeps.indexed h j (λ p. m (sym p)) (sym (get_other h m) ∙ e) in
            (d, inr k, w)
      ];
      apart = λ h k j n m e f. elim (==-cases hash h) [
        | inl (t, p) ↦ elim (==-cases hash k) [
          | inl (u, r) ↦ sym p ∙ r
          | inr (u, r) ↦ absurd (clash h k j p r e f)
        ]
        | inr (t, p) ↦ elim (==-cases hash k) [
          | inl (u, r) ↦ absurd (clash k h j r p f e)
          | inr (u, r) ↦
              keeps.apart h k j (λ x. p (sym x)) (λ x. r (sym x)) (sym (get_other h p) ∙ e)
                (sym (get_other k r) ∙ f)
        ]
      ];
    }
      where
        clash :
            (h k j : ℕ)
            → hash ≡ h
            → hash ≢ k
            → assoc.get (assoc.put s.hashmap hash (index % 2 ^ 32)) h ≡ some j
            → assoc.get (assoc.put s.hashmap hash (index % 2 ^ 32)) k ≡ some j
            → ⊥
        clash h k j p r e f =
            let e' : assoc.get (assoc.put s.hashmap hash (index % 2 ^ 32)) hash ≡ some j =
              subst (λ l. assoc.get (assoc.put s.hashmap hash (index % 2 ^ 32)) l ≡ some j) (sym p)
                e in
            new_index k (λ x. r (sym x)) (sym (get_other k r) ∙ (f ∙ (sym e' ∙ get_self)))
