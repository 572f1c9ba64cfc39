-- ===== src/Comms/Frame/RoundTrip.antt =====
-- The bytes of a frame of cluster/remoteNode.go, and what is read from them.
use ngbigcache.Base.{
  ℕ, ◌+◌, ◌-◌, ◌<◌, ◌%◌, ◌^◌, ◌≡◌, ◌∙◌, sym, refl, ap, Option, none, some, [], ◌∷◌, ◌++◌, length,
  slice, slice_mid, replicate, length-replicate, Bytes, copy_at, copy_at_append, copy_full,
  length-copy_at, length-append, le_bytes, length-le_bytes, Run, ok, put_le_ok, read_le, read_le_ok,
  arith, ltb, lt→ltb, le→ltb_false, if◌then◌else◌, take-length_append, drop-length_append,
}
use native.Mathlib.Nat.{mod-eq_of_lt}
use mathlib.Core.List.{append-nil, append_assoc}
use ngbigcache.Message.{NodeWireMessage}
use ngbigcache.Comms.Connection.{read_data}
use ngbigcache.Comms.Frame.{frame, read_frame}

-- A code of two bytes, and contents whose length with the code fits four.
abbrev pub Fits : NodeWireMessage → Type 0
Fits msg = (msg.code < 2 ^ 16) × (length msg.contents + 2 < 2 ^ 32)

abbrev pub header : NodeWireMessage → Bytes
header msg = le_bytes 4 (length msg.contents + 2) ++ le_bytes 2 msg.code

abbrev pub wire : NodeWireMessage → Bytes
wire msg = header msg ++ msg.contents

length-header : (msg : NodeWireMessage) → length (header msg) ≡ 6
length-header msg = omega (
  arith,
  length-append {0} (le_bytes 4 (length msg.contents + 2)) (le_bytes 2 msg.code),
  length-le_bytes 4 (length msg.contents + 2),
  length-le_bytes 2 msg.code,
)

length-wire : (msg : NodeWireMessage) → length (wire msg) ≡ 6 + length msg.contents
length-wire msg = omega (arith, length-append {0} (header msg) msg.contents, length-header msg)

pub frame_lem : (msg : NodeWireMessage) → Fits msg → frame msg ≡ ok (wire msg)
unfolding frame
frame_lem msg fits =
    let n = length msg.contents in
    let t = le_bytes 4 (n + 2) in
    let c = le_bytes 2 msg.code in
    let blank : Bytes = replicate (6 + n) 0 in
    let size : length blank ≡ 6 + n = length-replicate (6 + n) 0 in
    let lt : length t ≡ 4 = length-le_bytes 4 (n + 2) in
    let lh : length (t ++ c) ≡ 6 = length-header msg in
    rw (
      (let e : (n + 2) % 2 ^ 32 ≡ n + 2 = mod-eq_of_lt (fits.1) in e),
      put_le_ok 4 blank 0 (n + 2) (omega arith),
      put_le_ok 2 (copy_at blank 0 t) 4 msg.code (rw length-copy_at (omega arith)),
      copy_at_append blank 0 t c 4 (omega arith),
      copy_at_append blank 0 (t ++ c) msg.contents 6 (omega arith),
      (let e : copy_at blank 0 (wire msg) ≡ wire msg =
            unfold copy_at in copy_full blank (wire msg) (omega (arith, length-wire msg)) in
          e),
    )

read_data_append : (a b : Bytes) (n : ℕ) → n ≡ length a → read_data (a ++ b) n ≡ some (a, b)
unfolding read_data
read_data_append a b n e = rw (
  e,
  le→ltb_false (length (a ++ b)) (length a) (omega (arith, length-append {0} a b)),
  take-length_append a b,
  drop-length_append a b,
)

read_total :
    (msg : NodeWireMessage) → Fits msg → read_le 4 (header msg) 0 ≡ ok (length msg.contents + 2)
read_total msg fits =
    read_le_ok 4 (header msg) 0 (length msg.contents + 2) (omega (arith, length-header msg))
      (slice_mid [] (le_bytes 4 (length msg.contents + 2)) (le_bytes 2 msg.code) 0 4 refl
        (sym (length-le_bytes 4 (length msg.contents + 2))))
      (omega (arith, fits.1))

read_code : (msg : NodeWireMessage) → Fits msg → read_le 2 (header msg) 4 ≡ ok msg.code
read_code msg fits =
    read_le_ok 2 (header msg) 4 msg.code (omega (arith, length-header msg))
      (ap (λ b. slice b 4 2)
          (ap (λ b. le_bytes 4 (length msg.contents + 2) ++ b)
            (sym (append-nil (le_bytes 2 msg.code))))
        ∙ slice_mid (le_bytes 4 (length msg.contents + 2)) (le_bytes 2 msg.code) [] 4 2
            (sym (length-le_bytes 4 (length msg.contents + 2))) (sym (length-le_bytes 2 msg.code)))
      (omega (arith, fits.0))

-- The contents, where there are some and where there are none.
read_rest :
    (msg : NodeWireMessage) (rest : Bytes) (contents : Bytes)
    → msg.contents ≡ contents
    → ◌≡◌ {A = Run (Option (NodeWireMessage × Bytes))}
        (if ltb 0 (length msg.contents)
          then elim (read_data (msg.contents ++ rest) (length msg.contents)) [
            | none ↦ ok none
            | some (bytes, after) ↦ ok (some (record { code = msg.code; contents = bytes }, after))
          ]
          else ok (some (record { code = msg.code; contents = [] }, msg.contents ++ rest)))
        (ok (some (msg, rest)))
read_rest msg rest [] e = rw e refl
read_rest msg rest (b ∷ bs) e =
    rw
      (
        read_data_append msg.contents rest (length msg.contents) refl,
        lt→ltb 0 (length msg.contents) (omega (arith, ap (length {A = ℕ}) e)),
      )
      refl

-- If the code fits two bytes and the length of the contents with it four, then the message is read
-- back from its frame, whatever comes after it in the stream.
pub read_frame-frame :
    (msg : NodeWireMessage) (rest : Bytes)
    → Fits msg
    → (bytes : Bytes) × (frame msg ≡ ok bytes)
      × (read_frame (bytes ++ rest) ≡ ok (some (msg, rest)))
unfolding read_frame
read_frame-frame msg rest fits = (
  wire msg,
  frame_lem msg fits,
  rw
      (
        append_assoc (header msg) msg.contents rest,
        read_frame,
        read_data_append (header msg) (msg.contents ++ rest) 6 (sym (length-header msg)),
        read_total msg fits,
        read_code msg fits,
        (let e : (length msg.contents + 2 + 2 ^ 32 - 2) % 2 ^ 32 ≡ length msg.contents =
              omega (arith, fits.1) in
            e),
      )
      (read_rest msg rest msg.contents refl),
)
