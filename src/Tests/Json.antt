-- ===== src/Tests/Json.antt =====
-- An encoder for the messages of package message: every string is a text, and is written after its
-- length.
use ngbigcache.Base.{
  ℕ, zero, suc, ◌≡◌, refl, ap, List, [], ◌∷◌, ◌++◌, length, take, drop, Bytes, take-length_append,
  drop-length_append,
}
use ngbigcache.Base.Int.{ℤ, pos, negsuc, pos_part, neg_part}
use ngbigcache.Message.Json.{
  Json, ProposedPeer, DeleteMessage, GetReqMessage, SyncReqMessage, SyncRspMessage, VerifyMessage,
}

abbrev read_delete : Bytes → DeleteMessage → DeleteMessage
read_delete [] old = old
read_delete (c ∷ key) old = record { code = c; key = key }

abbrev read_get_req : Bytes → GetReqMessage → GetReqMessage
read_get_req [] old = old
read_get_req (c ∷ []) old = old
read_get_req (c ∷ n ∷ rest) old = record { code = c; key = take n rest; pending_key = drop n rest }

abbrev read_sync_req : Bytes → SyncReqMessage → SyncReqMessage
read_sync_req [] old = old
read_sync_req (c ∷ []) old = old
read_sync_req (c ∷ mode ∷ rest) old = record { code = c; mode = mode }

abbrev read_verify : Bytes → VerifyMessage → VerifyMessage
read_verify [] old = old
read_verify (mode ∷ []) old = old
read_verify (mode ∷ n ∷ []) old = old
read_verify (mode ∷ n ∷ k ∷ rest) old = record {
  id = take n rest;
  version = take k (drop n rest);
  service_port = drop k (drop n rest);
  mode = mode;
}

abbrev write_peers : List ProposedPeer → Bytes
write_peers [] = []
write_peers (p ∷ ps) =
    length p.id ∷ length p.ip_address ∷ (p.id ++ (p.ip_address ++ write_peers ps))

abbrev read_peers : ℕ → Bytes → List ProposedPeer
read_peers zero b = []
read_peers (suc n) [] = []
read_peers (suc n) (i ∷ []) = []
read_peers (suc n) (i ∷ k ∷ rest) =
    record { id = take i rest; ip_address = take k (drop i rest) }
    ∷ read_peers n (drop k (drop i rest))

pub read_peers-write_peers : (ps : List ProposedPeer) → read_peers (length ps) (write_peers ps) ≡ ps
read_peers-write_peers [] = refl
read_peers-write_peers (p ∷ ps) =
    rw
      (
        take-length_append p.id (p.ip_address ++ write_peers ps),
        drop-length_append p.id (p.ip_address ++ write_peers ps),
        take-length_append p.ip_address (write_peers ps),
        drop-length_append p.ip_address (write_peers ps),
      )
      (ap (λ l. p ∷ l) (read_peers-write_peers ps))

abbrev to_int : ℕ → ℕ → ℤ
to_int n zero = pos n
to_int n (suc m) = negsuc m

pub to_int_lem : (i : ℤ) → to_int (pos_part i) (neg_part i) ≡ i
to_int_lem (pos n) = refl
to_int_lem (negsuc n) = refl

abbrev write_sync_rsp : SyncRspMessage → Bytes
write_sync_rsp m =
    m.code
    ∷ pos_part m.replication_factor
    ∷ neg_part m.replication_factor
    ∷ length m.list
    ∷ write_peers m.list

abbrev read_sync_rsp : Bytes → SyncRspMessage → SyncRspMessage
read_sync_rsp [] old = old
read_sync_rsp (c ∷ []) old = old
read_sync_rsp (c ∷ a ∷ []) old = old
read_sync_rsp (c ∷ a ∷ b ∷ []) old = old
read_sync_rsp (c ∷ a ∷ b ∷ n ∷ rest) old = record {
  code = c;
  replication_factor = to_int a b;
  list = read_peers n rest;
}

abbrev pub sample_json : Json
sample_json = record {
  IsUtf8 = λ b. Unit;
  delete_codec = record {
    marshal = λ m. m.code ∷ m.key;
    unmarshal = read_delete;
    unmarshal-marshal = λ m old t. refl;
  };
  get_req_codec = record {
    marshal = λ m. m.code ∷ length m.key ∷ (m.key ++ m.pending_key);
    unmarshal = read_get_req;
    unmarshal-marshal = λ m old t.
        rw (take-length_append m.key m.pending_key, drop-length_append m.key m.pending_key) refl;
  };
  sync_req_codec = record {
    marshal = λ m. m.code ∷ m.mode ∷ [];
    unmarshal = read_sync_req;
    unmarshal-marshal = λ m old t. refl;
  };
  sync_rsp_codec = record {
    marshal = write_sync_rsp;
    unmarshal = read_sync_rsp;
    unmarshal-marshal =
        λ m old t. rw (to_int_lem m.replication_factor, read_peers-write_peers m.list) refl;
  };
  verify_codec = record {
    marshal =
        λ m. m.mode ∷ length m.id ∷ length m.version ∷ (m.id ++ (m.version ++ m.service_port));
    unmarshal = read_verify;
    unmarshal-marshal = λ m old t.
        rw
          (
            take-length_append m.id (m.version ++ m.service_port),
            drop-length_append m.id (m.version ++ m.service_port),
            take-length_append m.version m.service_port,
            drop-length_append m.version m.service_port,
          )
          refl;
  };
}
