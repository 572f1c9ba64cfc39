-- ===== src/Comms/Frame.antt =====
-- cluster/remoteNode.go: the form of a message on the wire, which `networkSender` writes and
-- `networkConsumer` reads: a length of four bytes, which counts the code, the code in two, and the
-- contents.
pub mod RoundTrip
use ngbigcache.Base.{
  ℕ, zero, suc, ◌+◌, ◌-◌, ◌%◌, ◌^◌, Option, none, some, List, [], ◌∷◌, ltb, if◌then◌else◌, length,
  replicate, Bytes, copy_at, Run, ok, panic, ◌>>=◌, put_le, read_le,
}
use ngbigcache.Message.{NodeWireMessage}
use ngbigcache.Comms.Connection.{read_data}

-- The bytes that `networkSender` gives to `SendData`.
unfoldable pub frame : NodeWireMessage → Run Bytes
frame msg = do
  let blank = replicate (6 + length msg.contents) 0
  sized ← put_le 4 blank 0 ((length msg.contents + 2) % 2 ^ 32)
  coded ← put_le 2 sized 4 msg.code
  ok (copy_at coded 6 msg.contents)

-- The reads of one round of `networkConsumer`: the message and the bytes after it, or nothing where
-- the connection ends.
unfoldable pub read_frame : Bytes → Run (Option (NodeWireMessage × Bytes))
read_frame stream = elim (read_data stream 6) [
  | none ↦ ok none
  | some (header, rest) ↦ do
    total ← read_le 4 header 0
    code ← read_le 2 header 4
    let data_length = (total + 2 ^ 32 - 2) % 2 ^ 32
    if ltb 0 data_length
        then elim (read_data rest data_length) [
          | none ↦ ok none
          | some (bytes, after) ↦ ok (some (record { code = code; contents = bytes }, after))
        ]
        else ok (some (record { code = code; contents = [] }, rest))
]
