-- ===== src/Cache/Iterator/Entry.antt =====
-- What `Value` of bigcache/iterator.go returns for an index in the map of a shard.
use ngbigcache.Base.{ℕ, ◌≡◌, ◌∙◌, refl, ap, some, ok, value, In, eq_bytes_refl}
use ngbigcache.Base.Assoc as assoc
use ngbigcache.Queue.BytesQueue.Layout.{Entries}
use ngbigcache.Cache.Encoding.RoundTrip.{
  layout, read_timestamp-wrapped, read_hash-wrapped, read_key-wrapped, read_entry-wrapped,
}
use ngbigcache.Cache.Library.{Library}
use ngbigcache.Cache.Shard.{Shard, get, get_entry}
use ngbigcache.Cache.Shard.Get.{get_lem, queue_get}
use ngbigcache.Cache.Shard.Set.{Caches, answer}
use ngbigcache.Cache.Iterator.{EntryInfo, value_at, entry_info}

-- If the map of a well-formed shard has a hash at an index, then `Value` for that index returns, without
-- an error, an entry with that hash, and `get` of the shard for its key and its hash returns its value.
pub value_at-get :
    {lib : Library} (s : Shard lib) (es : Entries) (hash index : ℕ)
    → Caches s es
    → assoc.get s.hashmap hash ≡ some index
    → (info : EntryInfo) × (value_at s index ≡ ok (value info))
      × (info.hash ≡ hash)
      × (answer (get s info.key hash) ≡ ok (value info.entry))
unfolding value_at entry_info get_entry
value_at-get s es hash index keeps at =
    let (d, m, (t, k, v, st, hf, kf, p)) = keeps.indexed hash index (λ x. x) at in
    let held : In (index, layout t hash k v) es = rw⁻¹ p m in
    let read = queue_get s es (λ h. ⊥) keeps hash index at t k v st hf kf held in
    let found = get_lem s es (λ h. ⊥) keeps hash index at t k v st hf kf held k in
    (
      record { timestamp = t; hash = hash; key = k; entry = v },
      rw
          (
            value_at,
            get_entry,
            read,
            entry_info,
            read_timestamp-wrapped t hash k v st hf kf,
            read_hash-wrapped t hash k v st hf kf,
            read_key-wrapped t hash k v st hf kf,
            read_entry-wrapped t hash k v st hf kf,
          )
          refl,
      refl,
      ap answer found ∙ rw (eq_bytes_refl k) refl,
    )
