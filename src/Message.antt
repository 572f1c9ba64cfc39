-- ===== src/Message.antt =====
-- message/defs.go: what the nodes of a cluster send to each other, and the two messages with a
-- binary form (message/putMessage.go, message/getRspMessage.go) in the modules below.
pub mod Put
pub mod GetRsp
pub mod Json
pub mod Any
use ngbigcache.Base.{ℕ, Bytes, ◌==◌, if◌then◌else◌}
use Prim.Native.String.{String}

abbrev pub msg_verify : ℕ
msg_verify = 10

abbrev pub msg_verify_ok : ℕ
msg_verify_ok = 11

abbrev pub msg_ping : ℕ
msg_ping = 12

abbrev pub msg_pong : ℕ
msg_pong = 13

abbrev pub msg_put : ℕ
msg_put = 14

abbrev pub msg_get_req : ℕ
msg_get_req = 15

abbrev pub msg_get_rsp : ℕ
msg_get_rsp = 16

abbrev pub msg_del : ℕ
msg_del = 17

abbrev pub msg_sync_req : ℕ
msg_sync_req = 18

abbrev pub msg_sync_rsp : ℕ
msg_sync_rsp = 19

-- `NodeWireMessage`
pub record NodeWireMessage : Type 0 where
  pub code : ℕ
  pub contents : Bytes

-- `MsgCodeToString`
unfoldable pub msg_code_to_string : ℕ → String
msg_code_to_string code =
    if code == msg_del
    then "msgDelete"
    else if code == msg_sync_rsp
    then "msgSyncRsp"
    else if code == msg_sync_req
    then "msgSyncReq"
    else if code == msg_put
    then "msgPUT"
    else if code == msg_pong
    then "msgPONG"
    else if code == msg_ping
    then "mgsPING"
    else if code == msg_verify_ok
    then "msgVerifyOK"
    else if code == msg_verify
    then "msgVerify"
    else if code == msg_get_req
    then "msgGETReq"
    else if code == msg_get_rsp
    then "msgGETRsp"
    else "unknown"
