-- ===== src/Message/Any.antt =====
-- message/defs.go: the interface `NodeMessage`, as the messages that implement it.
use ngbigcache.Base.{Run, ok}
use ngbigcache.Message.{NodeWireMessage}
use ngbigcache.Message.Json.{
  Json, DeleteMessage, GetReqMessage, SyncReqMessage, SyncRspMessage, VerifyMessage, PingMessage,
  PongMessage, serialize_delete, serialize_get_req, serialize_sync_req, serialize_sync_rsp,
  serialize_verify, serialize_verify_ok, serialize_ping, serialize_pong,
}
use ngbigcache.Message.Put.{PutMessage}
use ngbigcache.Message.Put as put_message
use ngbigcache.Message.GetRsp.{GetRspMessage}
use ngbigcache.Message.GetRsp as get_rsp_message

pub data NodeMessage : Type 0 where
  verify : VerifyMessage → NodeMessage
  verify_ok : NodeMessage
  ping : PingMessage → NodeMessage
  pong : PongMessage → NodeMessage
  put : PutMessage → NodeMessage
  get_req : GetReqMessage → NodeMessage
  get_rsp : GetRspMessage → NodeMessage
  del : DeleteMessage → NodeMessage
  sync_req : SyncReqMessage → NodeMessage
  sync_rsp : SyncRspMessage → NodeMessage

-- `m.Serialize()`
unfoldable pub serialize : Json → NodeMessage → Run NodeWireMessage
serialize json (verify m) = ok (serialize_verify json m)
serialize json verify_ok = ok serialize_verify_ok
serialize json (ping m) = ok (serialize_ping m)
serialize json (pong m) = ok (serialize_pong m)
serialize json (put m) = put_message.serialize m
serialize json (get_req m) = ok (serialize_get_req json m)
serialize json (get_rsp m) = get_rsp_message.serialize m
serialize json (del m) = ok (serialize_delete json m)
serialize json (sync_req m) = ok (serialize_sync_req json m)
serialize json (sync_rsp m) = ok (serialize_sync_rsp json m)
