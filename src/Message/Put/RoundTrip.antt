-- ===== src/Message/Put/RoundTrip.antt =====
-- Serialized messages of message/putMessage.go, and `DeSerialize` on them.
use ngbigcache.Base.{
  ℕ, ◌+◌, ◌-◌, ◌≤◌, ◌<◌, ◌%◌, ◌^◌, ◌≡◌, refl, sym, ap, ◌∙◌, ◌++◌, [], arith, Bytes, length, lt→ltb,
  replicate, length-replicate, slice, slice_mid, copy_at, copy_at_append, copy_full, length-copy_at,
  length-append, le_bytes, length-le_bytes, ok, panic, ◌>>=◌, put_le_ok, read_le, read_le_ok,
  sub_slice, sub_slice_ok,
}
use native.Mathlib.Nat.{mod-eq_of_lt}
use mathlib.Core.List.{append-nil, append_assoc}
use ngbigcache.Message.{msg_put}
use ngbigcache.Message.Put.{PutMessage, serialize, deserialize}

module _ (pm : PutMessage) (short : length pm.key < 2 ^ 16) (in_range : pm.expiry < 2 ^ 64) where
  -- The two words, and the bytes of the message.
  abbrev words : Bytes
  words = le_bytes 8 pm.expiry ++ le_bytes 2 (length pm.key)

  abbrev pub wire : Bytes
  wire = le_bytes 8 pm.expiry ++ (le_bytes 2 (length pm.key) ++ (pm.key ++ pm.contents))

  length-words : length words ≡ 10
  length-words = omega (
    arith,
    length-append {0} (le_bytes 8 pm.expiry) (le_bytes 2 (length pm.key)),
    length-le_bytes 8 pm.expiry,
    length-le_bytes 2 (length pm.key),
  )

  by_words : wire ≡ words ++ (pm.key ++ pm.contents)
  by_words = sym (append_assoc (le_bytes 8 pm.expiry) (le_bytes 2 (length pm.key)) _)

  pub length-wire : length wire ≡ length pm.key + length pm.contents + 2 + 8
  length-wire = omega (
    arith,
    ap (length {A = ℕ}) by_words,
    length-append {0} words (pm.key ++ pm.contents),
    length-append {0} pm.key pm.contents,
    length-words,
  )

  pub serialize_lem : serialize pm ≡ ok (record { code = msg_put; contents = wire })
  unfolding serialize
  serialize_lem =
      let n = length pm.key in
      let t = le_bytes 8 pm.expiry in
      let w = le_bytes 2 n in
      let blank : Bytes = replicate (n + length pm.contents + 2 + 8) 0 in
      let size : length blank ≡ n + length pm.contents + 2 + 8 = length-replicate _ 0 in
      rw (
        (let e : n % 2 ^ 16 ≡ n = mod-eq_of_lt short in e),
        put_le_ok 8 blank 0 pm.expiry (omega arith),
        put_le_ok 2 (copy_at blank 0 t) 8 n (rw length-copy_at (omega arith)),
        copy_at_append (copy_at (copy_at blank 0 t) 8 w) 10 pm.key pm.contents (10 + n) refl,
        copy_at_append (copy_at blank 0 t) 8 w (pm.key ++ pm.contents) 10
            (omega (arith, length-le_bytes 2 n)),
        copy_at_append blank 0 t (w ++ (pm.key ++ pm.contents)) 8
            (omega (arith, length-le_bytes 8 pm.expiry)),
        (let e : copy_at blank 0 wire ≡ wire =
              unfold copy_at in copy_full blank wire (omega (arith, length-wire)) in
            e),
      )

  read_expiry : read_le 8 wire 0 ≡ ok pm.expiry
  read_expiry =
      read_le_ok 8 wire 0 pm.expiry (omega (arith, length-wire))
        (slice_mid [] (le_bytes 8 pm.expiry) _ 0 8 refl (sym (length-le_bytes 8 pm.expiry)))
        in_range

  read_word : read_le 2 wire 8 ≡ ok (length pm.key)
  read_word =
      read_le_ok 2 wire 8 (length pm.key) (omega (arith, length-wire))
        (slice_mid (le_bytes 8 pm.expiry) (le_bytes 2 (length pm.key)) _ 8 2
          (sym (length-le_bytes 8 pm.expiry)) (sym (length-le_bytes 2 (length pm.key))))
        (omega arith)

  -- A put message with an expiry that fits 64 bits and a key of at most 65525 bytes is read back
  -- from its serialized form, with its code set.
  pub deserialize-serialize_put :
      length pm.key ≤ 65525 → (serialize pm >>= deserialize) ≡ ok (record pm { code = msg_put })
  unfolding deserialize
  deserialize-serialize_put fits =
      let n = length pm.key in
      rw (
        serialize_lem,
        read_expiry,
        read_word,
        (let e : (10 + n) % 2 ^ 16 ≡ 10 + n = mod-eq_of_lt (omega arith) in e),
        sub_slice_ok wire 10 (10 + n) (omega arith) (omega (arith, length-wire)),
        sub_slice_ok wire (10 + n) (length wire) (omega (arith, length-wire)) (omega arith),
        (let z : 10 + n - 10 ≡ n = omega arith in z),
        (let z : length wire - (10 + n) ≡ length pm.contents = omega (arith, length-wire) in z),
        (let e : slice wire 10 n ≡ pm.key =
              ap (λ b. slice b 10 n) by_words
              ∙ slice_mid words pm.key pm.contents 10 n (sym length-words) refl in
            e),
        (let e : slice wire (10 + n) (length pm.contents) ≡ pm.contents =
              ap (λ b. slice b (10 + n) (length pm.contents))
                (by_words
                  ∙ (sym (append_assoc words pm.key pm.contents)
                      ∙ ap (λ b. (words ++ pm.key) ++ b) (sym (append-nil pm.contents))))
              ∙ slice_mid (words ++ pm.key) pm.contents [] (10 + n) (length pm.contents)
                  (omega (arith, length-append {0} words pm.key, length-words)) refl in
            e),
      )

  -- A put message with a key of 65526 to 65535 bytes is serialized, and the receiver panics.
  deserialize-panic_put : 65526 ≤ length pm.key → (serialize pm >>= deserialize) ≡ panic
  unfolding deserialize sub_slice
  deserialize-panic_put long = rw (
    serialize_lem,
    read_expiry,
    read_word,
    lt→ltb ((10 + length pm.key) % 2 ^ 16) 10 (omega arith),
  )
