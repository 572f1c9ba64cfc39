-- ===== src/Message/GetRsp.antt =====
-- message/getRspMessage.go: length of the pending key, pending key and data.
pub mod RoundTrip
use ngbigcache.Base.{
  ℕ, ◌+◌, ◌%◌, ◌^◌, Bytes, length, replicate, copy_at, Run, ok, ◌>>=◌, put_le, read_le, sub_slice,
}
use ngbigcache.Message.{NodeWireMessage, msg_get_rsp}

pub record GetRspMessage : Type 0 where
  pub code : ℕ
  pub pending_key : Bytes
  pub contents : Bytes

-- `Serialize`
unfoldable pub serialize : GetRspMessage → Run NodeWireMessage
serialize gm = do
  let key_len = length gm.pending_key
  let blank = replicate (key_len + length gm.contents + 2) 0
  sized ← put_le 2 blank 0 (key_len % 2 ^ 16)
  let keyed = copy_at sized 2 gm.pending_key
  ok (record { code = msg_get_rsp; contents = copy_at keyed (2 + key_len) gm.contents })

-- `DeSerialize`, which writes every field of the message
unfoldable pub deserialize : NodeWireMessage → Run GetRspMessage
deserialize msg = do
  key_len ← read_le 2 msg.contents 0
  let end = (2 + key_len) % 2 ^ 16
  key ← sub_slice msg.contents 2 end
  rest ← sub_slice msg.contents end (length msg.contents)
  ok (record { code = msg_get_rsp; pending_key = key; contents = rest })
