-- ===== src/Message/Put.antt =====
-- message/putMessage.go: expiry, key length, key and data. A sum with the key length is a uint16.
pub mod RoundTrip
use ngbigcache.Base.{
  ℕ, ◌+◌, ◌%◌, ◌^◌, Bytes, length, replicate, copy_at, Run, ok, ◌>>=◌, put_le, read_le, sub_slice,
}
use ngbigcache.Message.{NodeWireMessage, msg_put}

pub record PutMessage : Type 0 where
  pub code : ℕ
  pub key : Bytes
  pub expiry : ℕ
  pub contents : Bytes

-- `Serialize`
unfoldable pub serialize : PutMessage → Run NodeWireMessage
serialize pm = do
  let key_len = length pm.key
  let blank = replicate (key_len + length pm.contents + 2 + 8) 0
  stamped ← put_le 8 blank 0 pm.expiry
  sized ← put_le 2 stamped 8 (key_len % 2 ^ 16)
  let keyed = copy_at sized (8 + 2) pm.key
  ok (record { code = msg_put; contents = copy_at keyed (8 + 2 + key_len) pm.contents })

-- `DeSerialize`, which writes every field of the message
unfoldable pub deserialize : NodeWireMessage → Run PutMessage
deserialize msg = do
  expiry ← read_le 8 msg.contents 0
  key_len ← read_le 2 msg.contents 8
  let end = (8 + 2 + key_len) % 2 ^ 16
  key ← sub_slice msg.contents (8 + 2) end
  rest ← sub_slice msg.contents end (length msg.contents)
  ok (record { code = msg_put; key = key; expiry = expiry; contents = rest })
