-- ===== src/Cache/Encoding.antt =====
-- bigcache/encoding.go: an entry of a shard as bytes: expiry timestamp, key hash, key length, key,
-- value.
--
-- A Go string is its bytes. Sums with a uint16 are taken modulo 2^16, as the constants of the
-- source have that type there.
pub mod RoundTrip
pub mod LongKeys
use ngbigcache.Base.{
  ℕ, ◌+◌, ◌-◌, ◌%◌, ◌^◌, Bytes, length, ltb, if◌then◌else◌, replicate, take, copy_at, copy, Run, ok,
  panic, ◌>>=◌, put_le, read_le, sub_slice,
}

abbrev pub timestamp_size_in_bytes : ℕ
timestamp_size_in_bytes = 8

abbrev pub hash_size_in_bytes : ℕ
hash_size_in_bytes = 8

abbrev pub key_size_in_bytes : ℕ
key_size_in_bytes = 2

abbrev pub headers_size_in_bytes : ℕ
headers_size_in_bytes = timestamp_size_in_bytes + hash_size_in_bytes + key_size_in_bytes

-- The writes of `wrapEntry` into the blob: the entry, and the buffer as it is then.
unfoldable pub fill_blob : ℕ → ℕ → Bytes → Bytes → Bytes → Run (Bytes × Bytes)
fill_blob timestamp hash key entry blob = do
  let key_length = length key
  stamped ← put_le 8 blob 0 timestamp
  hashed ← put_le 8 stamped timestamp_size_in_bytes hash
  sized ← put_le 2 hashed (timestamp_size_in_bytes + hash_size_in_bytes) (key_length % 2 ^ 16)
  let keyed = copy_at sized headers_size_in_bytes key
  let filled = copy_at keyed (headers_size_in_bytes + key_length) entry
  ok (take (length entry + headers_size_in_bytes + key_length) filled, filled)

-- `wrapEntry`: the entry is the front of the buffer, which is a new one if it was too short.
unfoldable pub wrap_entry : ℕ → ℕ → Bytes → Bytes → Bytes → Run (Bytes × Bytes)
unfolding fill_blob
wrap_entry timestamp hash key entry buffer =
    let blob_length = length entry + headers_size_in_bytes + length key in
    fill_blob timestamp hash key entry
      (if ltb (length buffer) blob_length then replicate blob_length 0 else buffer)

-- `readTimestampFromEntry`
unfoldable pub read_timestamp_from_entry : Bytes → Run ℕ
read_timestamp_from_entry data' = read_le 8 data' 0

-- `readHashFromEntry`
unfoldable pub read_hash_from_entry : Bytes → Run ℕ
read_hash_from_entry data' = read_le 8 data' timestamp_size_in_bytes

-- `readKeyFromEntry`, with `bytesToString` a change of type
unfoldable pub read_key_from_entry : Bytes → Run Bytes
read_key_from_entry data' = do
  length' ← read_le 2 data' (timestamp_size_in_bytes + hash_size_in_bytes)
  key ← sub_slice data' headers_size_in_bytes ((headers_size_in_bytes + length') % 2 ^ 16)
  ok (copy (replicate length' 0) key)

-- `readEntry`: `make` panics at a negative length.
unfoldable pub read_entry : Bytes → Run Bytes
read_entry data' = do
  length' ← read_le 2 data' (timestamp_size_in_bytes + hash_size_in_bytes)
  let start = (headers_size_in_bytes + length') % 2 ^ 16
  if ltb (length data') start then panic else do
    rest ← sub_slice data' start (length data')
    ok (copy (replicate (length data' - start) 0) rest)

-- `resetKeyFromEntry`: the entry with its hash set to 0
unfoldable pub reset_key_from_entry : Bytes → Run Bytes
reset_key_from_entry data' = put_le 8 data' timestamp_size_in_bytes 0
