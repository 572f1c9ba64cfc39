-- ===== src/Cache/Encoding/RoundTrip.antt =====
-- The bytes that `wrap_entry` of bigcache/encoding.go writes, and the readers on them.
use ngbigcache.Base.{
  ℕ, ◌+◌, ◌-◌, ◌≤◌, ◌<◌, ◌%◌, ◌^◌, ◌≡◌, refl, sym, ap, ◌∙◌, ◌++◌, [], arith, Bytes, length, ltb,
  replicate, length-replicate, take, slice, take-copy, slice_mid, copy_at, copy_at_append,
  copy_full, length-copy_at, length-append, le_bytes, length-le_bytes, ok, put_le_ok, read_le,
  read_le_ok, sub_slice_ok, le→ltb_false, Bool-cases, inl, inr, ltb-false,
}
use native.Mathlib.Nat.{mod-eq_of_lt}
use mathlib.Core.List.{append-nil, append_assoc}
use ngbigcache.Cache.Encoding.{
  fill_blob, wrap_entry, read_timestamp_from_entry, read_hash_from_entry, read_key_from_entry,
  read_entry,
}

-- The bytes of an entry.
abbrev pub layout : ℕ → ℕ → Bytes → Bytes → Bytes
layout timestamp hash key entry =
    le_bytes 8 timestamp ++ (le_bytes 8 hash ++ (le_bytes 2 (length key) ++ (key ++ entry)))

pub length-layout :
    (timestamp hash : ℕ) (key entry : Bytes)
    → length (layout timestamp hash key entry) ≡ length entry + 18 + length key
length-layout timestamp hash key entry = omega (
  arith,
  length-append {0} (le_bytes 8 timestamp)
      (le_bytes 8 hash ++ (le_bytes 2 (length key) ++ (key ++ entry))),
  length-append {0} (le_bytes 8 hash) (le_bytes 2 (length key) ++ (key ++ entry)),
  length-append {0} (le_bytes 2 (length key)) (key ++ entry),
  length-append {0} key entry,
  length-le_bytes 8 timestamp,
  length-le_bytes 8 hash,
  length-le_bytes 2 (length key),
)

-- The writes of `wrap_entry` into a buffer that is large enough are one copy of the layout.
filled_eq :
    (timestamp hash : ℕ) (key entry blob : Bytes)
    → copy_at
        (copy_at
          (copy_at
            (copy_at (copy_at blob 0 (le_bytes 8 timestamp)) 8 (le_bytes 8 hash))
            (8 + 8)
            (le_bytes 2 (length key)))
          18
          key)
        (18 + length key)
        entry
      ≡ copy_at blob 0 (layout timestamp hash key entry)
filled_eq timestamp hash key entry blob =
    let t = le_bytes 8 timestamp in
    let h = le_bytes 8 hash in
    let n = le_bytes 2 (length key) in
    let b1 = copy_at blob 0 t in
    let b2 = copy_at b1 8 h in
    let b3 = copy_at b2 16 n in
    rw (
      copy_at_append b3 18 key entry (18 + length key) refl,
      copy_at_append b2 16 n (key ++ entry) 18 (omega (arith, length-le_bytes 2 (length key))),
      copy_at_append b1 8 h (n ++ (key ++ entry)) 16 (omega (arith, length-le_bytes 8 hash)),
      copy_at_append blob 0 t (h ++ (n ++ (key ++ entry))) 8
          (omega (arith, length-le_bytes 8 timestamp)),
    )

module _ (timestamp hash : ℕ) (key entry : Bytes) (stamp_fits : timestamp < 2 ^ 64)
    (hash_fits : hash < 2 ^ 64) (key_fits : length key ≤ 65517) where
  abbrev pub wrapped : Bytes
  wrapped = layout timestamp hash key entry

  wrap_into :
      (blob : Bytes)
      → length entry + 18 + length key ≤ length blob
      → fill_blob timestamp hash key entry blob ≡ ok (wrapped, copy_at blob 0 wrapped)
  unfolding fill_blob
  wrap_into blob room =
      let t = le_bytes 8 timestamp in
      let h = le_bytes 8 hash in
      let b1 = copy_at blob 0 t in
      let b2 = copy_at b1 8 h in
      let len : length wrapped ≡ length entry + 18 + length key =
        length-layout timestamp hash key entry in
      rw (
        (let e : length key % 2 ^ 16 ≡ length key = mod-eq_of_lt (omega arith) in e),
        put_le_ok 8 blob 0 timestamp (omega arith),
        put_le_ok 8 b1 8 hash (rw length-copy_at (omega arith)),
        put_le_ok 2 b2 16 (length key) (rw (length-copy_at, length-copy_at) (omega arith)),
        filled_eq timestamp hash key entry blob,
        sym len,
        (let e : take (length wrapped) (copy_at blob 0 wrapped) ≡ wrapped =
              unfold copy_at in take-copy blob wrapped (omega arith) in
            e),
      )

  -- The entry is the layout, whatever the buffer held.
  pub wrap_entry_lem :
      (buffer : Bytes)
      → (buffer' : Bytes) × (wrap_entry timestamp hash key entry buffer ≡ ok (wrapped, buffer'))
  unfolding wrap_entry
  wrap_entry_lem buffer = elim (Bool-cases (ltb (length buffer) (length entry + 18 + length key))) [
    | inl small ↦
        let n = length entry + 18 + length key in
        let blob : Bytes = replicate n 0 in
        (
          copy_at blob 0 wrapped,
          rw small (wrap_into blob (let e : length blob ≡ n = length-replicate n 0 in omega arith)),
        )
    | inr large ↦ (copy_at buffer 0 wrapped, rw large (wrap_into buffer (ltb-false _ _ large)))
  ]

  pub read_timestamp-wrapped : read_timestamp_from_entry wrapped ≡ ok timestamp
  unfolding read_timestamp_from_entry
  read_timestamp-wrapped =
      read_le_ok 8 wrapped 0 timestamp (omega (arith, length-layout timestamp hash key entry))
        (slice_mid [] (le_bytes 8 timestamp) _ 0 8 refl (sym (length-le_bytes 8 timestamp)))
        stamp_fits

  pub read_hash-wrapped : read_hash_from_entry wrapped ≡ ok hash
  unfolding read_hash_from_entry
  read_hash-wrapped =
      read_le_ok 8 wrapped 8 hash (omega (arith, length-layout timestamp hash key entry))
        (slice_mid (le_bytes 8 timestamp) (le_bytes 8 hash) _ 8 8
          (sym (length-le_bytes 8 timestamp)) (sym (length-le_bytes 8 hash)))
        hash_fits

  -- The part before the key length, and the part before the key.
  abbrev words : Bytes
  words = le_bytes 8 timestamp ++ le_bytes 8 hash

  abbrev front : Bytes
  front = words ++ le_bytes 2 (length key)

  length-words : length words ≡ 16
  length-words = omega (
    arith,
    length-append {0} (le_bytes 8 timestamp) (le_bytes 8 hash),
    length-le_bytes 8 timestamp,
    length-le_bytes 8 hash,
  )

  length-front : length front ≡ 18
  length-front = omega (
    arith,
    length-append {0} words (le_bytes 2 (length key)),
    length-words,
    length-le_bytes 2 (length key),
  )

  by_words : wrapped ≡ words ++ (le_bytes 2 (length key) ++ (key ++ entry))
  by_words = sym (append_assoc (le_bytes 8 timestamp) (le_bytes 8 hash) _)

  by_front : wrapped ≡ front ++ (key ++ entry)
  by_front = by_words ∙ sym (append_assoc words (le_bytes 2 (length key)) _)

  read_length-wrapped : read_le 2 wrapped 16 ≡ ok (length key)
  read_length-wrapped =
      read_le_ok 2 wrapped 16 (length key) (omega (arith, length-layout timestamp hash key entry))
        (ap (λ b. slice b 16 2) by_words
          ∙ slice_mid words (le_bytes 2 (length key)) (key ++ entry) 16 2 (sym length-words)
              (sym (length-le_bytes 2 (length key))))
        (omega arith)

  start_eq : (18 + length key) % 2 ^ 16 ≡ 18 + length key
  start_eq = mod-eq_of_lt (omega arith)

  pub read_key-wrapped : read_key_from_entry wrapped ≡ ok key
  unfolding read_key_from_entry
  read_key-wrapped = rw (
    read_length-wrapped,
    start_eq,
    sub_slice_ok wrapped 18 (18 + length key) (omega arith)
        (omega (arith, length-layout timestamp hash key entry)),
    (let z : 18 + length key - 18 ≡ length key = omega arith in z),
    (let e : slice wrapped 18 (length key) ≡ key =
          ap (λ b. slice b 18 (length key)) by_front
          ∙ slice_mid front key entry 18 (length key) (sym length-front) refl in
        e),
    copy_full (replicate (length key) 0) key (length-replicate (length key) 0),
  )

  pub read_entry-wrapped : read_entry wrapped ≡ ok entry
  unfolding read_entry
  read_entry-wrapped =
      let len : length wrapped ≡ length entry + 18 + length key =
        length-layout timestamp hash key entry in
      let z : length wrapped - (18 + length key) ≡ length entry = omega arith in
      rw (
        read_length-wrapped,
        start_eq,
        le→ltb_false (length wrapped) (18 + length key) (omega arith),
        sub_slice_ok wrapped (18 + length key) (length wrapped) (omega arith) (omega arith),
        z,
        (let e : slice wrapped (18 + length key) (length entry) ≡ entry =
              ap (λ b. slice b (18 + length key) (length entry))
                (by_front
                  ∙ (sym (append_assoc front key entry)
                      ∙ ap (λ b. (front ++ key) ++ b) (sym (append-nil entry))))
              ∙ slice_mid (front ++ key) entry [] (18 + length key) (length entry)
                  (omega (arith, length-append {0} front key, length-front)) refl in
            e),
        copy_full (replicate (length entry) 0) entry (length-replicate (length entry) 0),
      )

  -- For a timestamp and a hash that fit 64 bits and a key of at most 65517 bytes: `wrap_entry`
  -- into any buffer does not panic, and from the bytes that it returns the readers give back the
  -- timestamp, the hash, the key and the value.
  pub wrap_entry-read :
      (buffer : Bytes)
      → (blob buffer' : Bytes) × (wrap_entry timestamp hash key entry buffer ≡ ok (blob, buffer'))
        × (length blob ≡ length entry + 18 + length key)
        × (read_timestamp_from_entry blob ≡ ok timestamp)
        × (read_hash_from_entry blob ≡ ok hash)
        × (read_key_from_entry blob ≡ ok key)
        × (read_entry blob ≡ ok entry)
  wrap_entry-read buffer =
      let (buffer', e) = wrap_entry_lem buffer in
      (
        wrapped,
        buffer',
        e,
        length-layout timestamp hash key entry,
        read_timestamp-wrapped,
        read_hash-wrapped,
        read_key-wrapped,
        read_entry-wrapped,
      )
