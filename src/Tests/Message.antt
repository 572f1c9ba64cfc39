-- ===== src/Tests/Message.antt =====
-- message and the encodings at concrete data.
use ngbigcache.Base.{
  ◌+◌, ◌≡◌, refl, [], ◌∷◌, arith, length, Bytes, ok, panic, ◌>>=◌, read_le, le_value,
}
use ngbigcache.Message.{msg_put, msg_get_rsp}
use ngbigcache.Message.Put.{PutMessage}
use ngbigcache.Message.Put as put
use ngbigcache.Message.Put.RoundTrip.{deserialize-serialize_put}
use ngbigcache.Message.GetRsp.{GetRspMessage}
use ngbigcache.Message.GetRsp as get_rsp
use ngbigcache.Message.GetRsp.RoundTrip.{deserialize-serialize_get_rsp}
use ngbigcache.Cache.Encoding.{
  wrap_entry, read_timestamp_from_entry, read_hash_from_entry, read_key_from_entry, read_entry,
}
use ngbigcache.Cache.Encoding.RoundTrip.{wrap_entry-read}
use ngbigcache.Cache.Encoding.LongKeys.{read_key-panic}

abbrev key_bytes : Bytes
key_bytes = 107 ∷ 101 ∷ 121 ∷ []

abbrev value_bytes : Bytes
value_bytes = 1 ∷ 2 ∷ []

abbrev put_message : PutMessage
put_message = record { code = 0; key = key_bytes; expiry = 60; contents = value_bytes }

deserialize-serialize_put_example :
    (put.serialize put_message >>= put.deserialize) ≡ ok (record put_message { code = msg_put })
deserialize-serialize_put_example =
    deserialize-serialize_put put_message (omega arith) (omega arith) (omega arith)

abbrev get_rsp_message : GetRspMessage
get_rsp_message = record { code = 0; pending_key = key_bytes; contents = value_bytes }

deserialize-serialize_get_rsp_example :
    (get_rsp.serialize get_rsp_message >>= get_rsp.deserialize)
    ≡ ok (record get_rsp_message { code = msg_get_rsp })
deserialize-serialize_get_rsp_example =
    deserialize-serialize_get_rsp get_rsp_message (omega arith) (omega arith)

wrap_entry-read_example :
    (blob buffer' : Bytes) × (wrap_entry 60 77 key_bytes value_bytes [] ≡ ok (blob, buffer'))
    × (length blob ≡ length value_bytes + 18 + length key_bytes)
    × (read_timestamp_from_entry blob ≡ ok 60)
    × (read_hash_from_entry blob ≡ ok 77)
    × (read_key_from_entry blob ≡ ok key_bytes)
    × (read_entry blob ≡ ok value_bytes)
wrap_entry-read_example =
    wrap_entry-read 60 77 key_bytes value_bytes (omega arith) (omega arith) (omega arith) []

-- The head of an entry with a key of 65530 bytes.
abbrev long_head : Bytes
long_head = 0 ∷ 0 ∷ 0 ∷ 0 ∷ 0 ∷ 0 ∷ 0 ∷ 0 ∷ 0 ∷ 0 ∷ 0 ∷ 0 ∷ 0 ∷ 0 ∷ 0 ∷ 0 ∷ 250 ∷ 255 ∷ []

long_head-read : read_le 2 long_head 16 ≡ ok 65530
unfolding read_le le_value
long_head-read = refl

read_key-panic_example : read_key_from_entry long_head ≡ panic
read_key-panic_example = read_key-panic long_head 65530 long_head-read (omega arith) (omega arith)
