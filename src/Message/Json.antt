-- ===== src/Message/Json.antt =====
-- The messages whose contents encoding/json makes: deleteMessage.go, getReqMessage.go,
-- syncReqMessage.go, syncRspMessage.go and verifyMessge.go; and pingMessage.go, pongMessage.go and
-- verifyOK.go, which have no contents.
--
-- The encoder is a parameter. Its documentation says that a value which is encoded and then decoded
-- is itself, if its strings are valid UTF-8; other strings are changed.
use ngbigcache.Base.{ℕ, ◌≡◌, Bytes, List, [], In}
use ngbigcache.Base.Int.{ℤ}
use ngbigcache.Message.{
  NodeWireMessage, msg_verify, msg_verify_ok, msg_ping, msg_pong, msg_get_req, msg_del,
  msg_sync_req, msg_sync_rsp,
}

-- `ProposedPeer`
pub record ProposedPeer : Type 0 where
  pub id : Bytes
  pub ip_address : Bytes

pub record DeleteMessage : Type 0 where
  pub code : ℕ
  pub key : Bytes

pub record GetReqMessage : Type 0 where
  pub code : ℕ
  pub key : Bytes
  pub pending_key : Bytes

pub record SyncReqMessage : Type 0 where
  pub code : ℕ
  pub mode : ℕ

pub record SyncRspMessage : Type 0 where
  pub code : ℕ
  pub replication_factor : ℤ
  pub list : List ProposedPeer

pub record VerifyMessage : Type 0 where
  pub id : Bytes
  pub version : Bytes
  pub service_port : Bytes
  pub mode : ℕ

-- `PingMessage` and `PongMessage`
pub record PingMessage : Type 0 where
  pub code : ℕ

pub record PongMessage : Type 0 where
  pub code : ℕ

-- `json.Marshal`, and `json.Unmarshal` into a value.
pub record Codec (M : Type 0) (IsText : M → Type 0) : Type 0 where
  pub marshal : M → Bytes
  pub unmarshal : Bytes → M → M
  pub unmarshal-marshal : (m old : M) → IsText m → unmarshal (marshal m) old ≡ m

pub record Json : Type 1 where
  pub IsUtf8 : Bytes → Type 0
  pub delete_codec : Codec DeleteMessage (λ m. IsUtf8 m.key)
  pub get_req_codec : Codec GetReqMessage (λ m. IsUtf8 m.key × IsUtf8 m.pending_key)
  pub sync_req_codec : Codec SyncReqMessage (λ m. Unit {0})
  pub sync_rsp_codec :
      Codec SyncRspMessage
        (λ m. (p : ProposedPeer) → In p m.list → IsUtf8 p.id × IsUtf8 p.ip_address)
  pub verify_codec :
      Codec VerifyMessage (λ m. IsUtf8 m.id × IsUtf8 m.version × IsUtf8 m.service_port)

module _ (json : Json) where
  -- `Serialize` and `DeSerialize` of each message
  unfoldable pub serialize_delete : DeleteMessage → NodeWireMessage
  serialize_delete dm = record {
    code = msg_del;
    contents = json.delete_codec.marshal (record dm { code = msg_del });
  }

  unfoldable pub deserialize_delete : NodeWireMessage → DeleteMessage → DeleteMessage
  deserialize_delete msg dm = json.delete_codec.unmarshal msg.contents dm

  unfoldable pub serialize_get_req : GetReqMessage → NodeWireMessage
  serialize_get_req gm = record {
    code = msg_get_req;
    contents = json.get_req_codec.marshal (record gm { code = msg_get_req });
  }

  unfoldable pub deserialize_get_req : NodeWireMessage → GetReqMessage → GetReqMessage
  deserialize_get_req msg gm = json.get_req_codec.unmarshal msg.contents gm

  unfoldable pub serialize_sync_req : SyncReqMessage → NodeWireMessage
  serialize_sync_req sc = record { code = msg_sync_req; contents = json.sync_req_codec.marshal sc }

  unfoldable pub deserialize_sync_req : NodeWireMessage → SyncReqMessage → SyncReqMessage
  deserialize_sync_req msg sc = json.sync_req_codec.unmarshal msg.contents sc

  unfoldable pub serialize_sync_rsp : SyncRspMessage → NodeWireMessage
  serialize_sync_rsp sc = record {
    code = msg_sync_rsp;
    contents = json.sync_rsp_codec.marshal (record sc { code = msg_sync_rsp });
  }

  unfoldable pub deserialize_sync_rsp : NodeWireMessage → SyncRspMessage → SyncRspMessage
  deserialize_sync_rsp msg sc = json.sync_rsp_codec.unmarshal msg.contents sc

  unfoldable pub serialize_verify : VerifyMessage → NodeWireMessage
  serialize_verify vm = record { code = msg_verify; contents = json.verify_codec.marshal vm }

  unfoldable pub deserialize_verify : NodeWireMessage → VerifyMessage → VerifyMessage
  deserialize_verify msg vm = json.verify_codec.unmarshal msg.contents vm

unfoldable pub serialize_verify_ok : NodeWireMessage
serialize_verify_ok = record { code = msg_verify_ok; contents = [] }

unfoldable pub serialize_ping : PingMessage → NodeWireMessage
serialize_ping pm = record { code = msg_ping; contents = [] }

unfoldable pub deserialize_ping : NodeWireMessage → PingMessage → PingMessage
deserialize_ping msg pm = record { code = msg.code }

unfoldable pub serialize_pong : PongMessage → NodeWireMessage
serialize_pong pm = record { code = msg_pong; contents = [] }

unfoldable pub deserialize_pong : NodeWireMessage → PongMessage → PongMessage
deserialize_pong msg pm = record { code = msg.code }
