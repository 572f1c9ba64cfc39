-- ===== src/Message/GetRsp/RoundTrip.antt =====
-- Serialized messages of message/getRspMessage.go, and `DeSerialize` on them.
use ngbigcache.Base.{
  ◌+◌, ◌-◌, ◌≤◌, ◌<◌, ◌%◌, ◌^◌, ◌≡◌, refl, sym, ap, ◌∙◌, ◌++◌, [], arith, Bytes, length, lt→ltb,
  replicate, length-replicate, slice, slice_mid, copy_at, copy_at_append, copy_full, length-append,
  le_bytes, length-le_bytes, ok, panic, ◌>>=◌, put_le_ok, read_le, read_le_ok, sub_slice,
  sub_slice_ok,
}
use native.Mathlib.Nat.{mod-eq_of_lt}
use mathlib.Core.List.{append-nil, append_assoc}
use ngbigcache.Message.{msg_get_rsp}
use ngbigcache.Message.GetRsp.{GetRspMessage, serialize, deserialize}

module _ (gm : GetRspMessage) (short : length gm.pending_key < 2 ^ 16) where
  word : Bytes
  word = le_bytes 2 (length gm.pending_key)

  -- The bytes of the message.
  abbrev wire : Bytes
  wire = le_bytes 2 (length gm.pending_key) ++ (gm.pending_key ++ gm.contents)

  length-wire : length wire ≡ length gm.pending_key + length gm.contents + 2
  length-wire = omega (
    arith,
    length-append {0} (le_bytes 2 (length gm.pending_key)) (gm.pending_key ++ gm.contents),
    length-append {0} gm.pending_key gm.contents,
    length-le_bytes 2 (length gm.pending_key),
  )

  serialize_lem : serialize gm ≡ ok (record { code = msg_get_rsp; contents = wire })
  unfolding serialize
  serialize_lem =
      let n = length gm.pending_key in
      let w = le_bytes 2 n in
      let blank : Bytes = replicate (n + length gm.contents + 2) 0 in
      let size : length blank ≡ n + length gm.contents + 2 = length-replicate _ 0 in
      rw (
        (let e : n % 2 ^ 16 ≡ n = mod-eq_of_lt short in e),
        put_le_ok 2 blank 0 n (omega arith),
        copy_at_append (copy_at blank 0 w) 2 gm.pending_key gm.contents (2 + n) refl,
        copy_at_append blank 0 w (gm.pending_key ++ gm.contents) 2
            (omega (arith, length-le_bytes 2 n)),
        (let e : copy_at blank 0 wire ≡ wire =
              unfold copy_at in copy_full blank wire (omega (arith, length-wire)) in
            e),
      )

  read_word : read_le 2 wire 0 ≡ ok (length gm.pending_key)
  read_word =
      read_le_ok 2 wire 0 (length gm.pending_key) (omega (arith, length-wire))
        (slice_mid [] (le_bytes 2 (length gm.pending_key)) _ 0 2 refl
          (sym (length-le_bytes 2 (length gm.pending_key))))
        (omega arith)

  -- A get response with a key of at most 65533 bytes is read back from its serialized form, with
  -- its code set.
  pub deserialize-serialize_get_rsp :
      length gm.pending_key ≤ 65533
      → (serialize gm >>= deserialize) ≡ ok (record gm { code = msg_get_rsp })
  unfolding deserialize
  deserialize-serialize_get_rsp fits =
      let n = length gm.pending_key in
      let w = le_bytes 2 n in
      let lw : length w ≡ 2 = length-le_bytes 2 n in
      rw (
        serialize_lem,
        read_word,
        (let e : (2 + n) % 2 ^ 16 ≡ 2 + n = mod-eq_of_lt (omega arith) in e),
        sub_slice_ok wire 2 (2 + n) (omega arith) (omega (arith, length-wire)),
        sub_slice_ok wire (2 + n) (length wire) (omega (arith, length-wire)) (omega arith),
        (let z : 2 + n - 2 ≡ n = omega arith in z),
        (let z : length wire - (2 + n) ≡ length gm.contents = omega (arith, length-wire) in z),
        (let e : slice wire 2 n ≡ gm.pending_key =
              slice_mid w gm.pending_key gm.contents 2 n (sym lw) refl in
            e),
        (let e : slice wire (2 + n) (length gm.contents) ≡ gm.contents =
              ap (λ b. slice b (2 + n) (length gm.contents))
                (sym (append_assoc w gm.pending_key gm.contents)
                  ∙ ap (λ b. (w ++ gm.pending_key) ++ b) (sym (append-nil gm.contents)))
              ∙ slice_mid (w ++ gm.pending_key) gm.contents [] (2 + n) (length gm.contents)
                  (omega (arith, length-append {0} w gm.pending_key)) refl in
            e),
      )

  -- A get response with a key of 65534 or 65535 bytes is serialized, and the receiver panics.
  pub deserialize-panic_get_rsp :
      65534 ≤ length gm.pending_key → (serialize gm >>= deserialize) ≡ panic
  unfolding deserialize sub_slice
  deserialize-panic_get_rsp long =
      rw (serialize_lem, read_word, lt→ltb ((2 + length gm.pending_key) % 2 ^ 16) 2 (omega arith))
