-- ===== src/Cache/Encoding/LongKeys.antt =====
-- Keys of 65518 to 65535 bytes: the sum of the header size and the key length wraps around.
use ngbigcache.Base.{
  ℕ, ◌+◌, ◌≤◌, ◌%◌, ◌^◌, ◌≡◌, arith, Bytes, ok, panic, read_le, sub_slice, lt→ltb,
}
use ngbigcache.Cache.Encoding.{read_key_from_entry}

-- Where the key length that is stored in an entry is between 65518 and 65535, the key cannot be
-- read: the slice expression ends before it starts, and panics.
pub read_key-panic :
    (blob : Bytes) (n : ℕ)
    → read_le 2 blob 16 ≡ ok n
    → 65518 ≤ n
    → n ≤ 65535
    → read_key_from_entry blob ≡ panic
unfolding read_key_from_entry sub_slice
read_key-panic blob n e lo hi = rw (e, lt→ltb ((18 + n) % 2 ^ 16) 18 (omega arith))
