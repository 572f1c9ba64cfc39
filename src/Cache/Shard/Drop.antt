-- ===== src/Cache/Shard/Drop.antt =====
-- `set` drops the entry that has the hash of the new one.
use ngbigcache.Base.{
  ℕ, ◌≤◌, ◌<◌, ◌^◌, ◌≡◌, ◌≢◌, ◌∙◌, sym, refl, some, none, [], ◌∷◌, In, inl, inr, arith, length,
  Bytes, ok, ==-cases, eq→==, ap, subst, copy_at, length-copy_at, le_bytes, put_le_ok,
}
use ngbigcache.Base.Assoc as assoc
use ngbigcache.Queue.BytesQueue.{BytesQueue}
use ngbigcache.Queue.BytesQueue as queue
use ngbigcache.Queue.BytesQueue.Layout.{Lays, Entries, without}
use ngbigcache.Queue.BytesQueue.Delete.{delete-held, freed}
use ngbigcache.Queue.BytesQueue.Overwrite.{overwritten, overwrite-Lays}
use ngbigcache.Cache.Encoding.{reset_key_from_entry}
use ngbigcache.Cache.Encoding.RoundTrip.{layout, length-layout, read_timestamp-wrapped}
use ngbigcache.Cache.Library.{Library}
use ngbigcache.Cache.Ttl as ttl
use ngbigcache.Cache.Shard.{Shard, drop_previous, reset_key, delete, item_index}
use ngbigcache.Cache.Shard.Keeps.{Keeps}
use ngbigcache.Cache.Shard.Get.{item_index_eq, index_test, queue_get}

without_head : (i : ℕ) (d : Bytes) (es : Entries) → without i ((i, d) ∷ es) ≡ es
unfolding without
without_head i d es = rw (eq→== i i refl) refl

pub In-without_ne :
    (i j : ℕ) (d : Bytes) (es : Entries) → In (j, d) es → j ≢ i → In (j, d) (without i es)
unfolding without
In-without_ne i j d [] h n = h
In-without_ne i j d ((a, b) ∷ es) h n = elim (==-cases i a) [
  | inl (t, p) ↦
      rw t (elim h [ inl q ↦ absurd (n (ap (λ (x : ℕ × Bytes). x.0) q ∙ sym p)) | inr m ↦ m ])
  | inr (t, m) ↦ rw t (elim h [ inl q ↦ inl q | inr k ↦ inr (In-without_ne i j d es k n) ])
]

module _ {lib : Library} (s : Shard lib) (es : Entries) (keeps : Keeps s es (λ h. ⊥)) (hash i : ℕ)
    (indexed : assoc.get s.hashmap hash ≡ some i) (timestamp : ℕ) (key entry : Bytes)
    (stamp_fits : timestamp < 2 ^ 64) (hash_fits : hash < 2 ^ 64) (key_fits : length key ≤ 65517)
    (held : In (i, layout timestamp hash key entry) es) where
  abbrev pub old : Bytes
  old = layout timestamp hash key entry

  -- The entry with its hash cleared, and the queue that holds it.
  abbrev pub cleared : Bytes
  cleared = copy_at old 8 (le_bytes 8 0)

  pub same : length cleared ≡ length old
  same = length-copy_at old 8 (le_bytes 8 0)

  pub cleared_long : 1 ≤ length cleared
  cleared_long = omega (arith, same, length-layout timestamp hash key entry)

  pub reset_key_eq : reset_key_from_entry old ≡ ok cleared
  unfolding reset_key_from_entry
  reset_key_eq = put_le_ok 8 old 8 0 (omega (arith, length-layout timestamp hash key entry))

  abbrev pub written : BytesQueue lib.index_trees
  written = overwritten s.entries es i old cleared keeps.lays held same

  pub written-Lays : Lays written ((i, cleared) ∷ without i es)
  written-Lays = overwrite-Lays s.entries es i old cleared keeps.lays held same

  abbrev pub left : BytesQueue lib.index_trees
  left = freed written ((i, cleared) ∷ without i es) i cleared written-Lays (inl refl) cleared_long

  pub delete_eq : queue.delete written i ≡ ok (left, none)
  delete_eq =
      (delete-held written ((i, cleared) ∷ without i es) i cleared written-Lays (inl refl)
        cleared_long).0

  pub left-Lays : Lays left (without i es)
  left-Lays =
      subst (λ xs. Lays left xs) (without_head i cleared (without i es))
        (delete-held written ((i, cleared) ∷ without i es) i cleared written-Lays (inl refl)
          cleared_long).1

  -- What is left of the shard.
  abbrev pub dropped : Bytes → ℕ → Shard lib
  dropped asked now = record s {
    ttl_table = ttl.remove s.ttl_table timestamp asked now;
    entries = left;
  }

  drop_previous_at :
      (asked : Bytes) (now : ℕ) → drop_previous s asked i now ≡ ok (dropped asked now)
  unfolding drop_previous reset_key delete
  drop_previous_at asked now =
      rw
        (
          index_test s es (λ h. ⊥) keeps hash i indexed timestamp key entry stamp_fits hash_fits
              key_fits held,
          queue_get s es (λ h. ⊥) keeps hash i indexed timestamp key entry stamp_fits hash_fits
              key_fits held,
          read_timestamp-wrapped timestamp hash key entry stamp_fits hash_fits key_fits,
          reset_key_eq,
          delete_eq,
        )
        refl

  pub drop_previous_lem :
      (asked : Bytes) (now : ℕ)
      → drop_previous s asked (item_index s.hashmap hash) now ≡ ok (dropped asked now)
  drop_previous_lem asked now =
      ap (λ n. drop_previous s asked n now)
        (item_index_eq s es (λ h. ⊥) keeps hash i indexed timestamp key entry stamp_fits hash_fits
          key_fits held)
      ∙ drop_previous_at asked now

  -- The other hashes keep their entries.
  pub dropped-Keeps :
      (asked : Bytes) (now : ℕ) → Keeps (dropped asked now) (without i es) (λ h. h ≡ hash)
  dropped-Keeps asked now = record {
    unlocked = keeps.unlocked;
    lays = left-Lays;
    indexed = λ h j n e.
        let (d, m, w) = keeps.indexed h j (λ x. x) e in
        (
          d,
          In-without_ne i j d es m
              (λ p. n (keeps.apart h hash i (λ x. x) (λ x. x) (e ∙ ap some p) indexed)),
          w,
        );
    apart = λ h k j n m e f. keeps.apart h k j (λ x. x) (λ x. x) e f;
  }
