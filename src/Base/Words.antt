-- ===== src/Base/Words.antt =====
-- The little-endian words of `encoding/binary`, as lists of bytes.
use Prim.Native.Nat.{ℕ, zero, suc, ◌+◌, ◌-◌, ◌*◌, ◌/◌, ◌%◌, ◌^◌, ◌≤◌, ◌<◌}
use mathlib.Core.Path.{◌≡◌, refl, ap}
use mathlib.Core.List.{List, [], ◌∷◌}
use mathlib.Core.Bool.{◌||◌}
use native.Mathlib.Omega.{arith}
use native.Mathlib.Nat.{pow-suc}
use ngbigcache.Base.Lists.{length}
use ngbigcache.Base.Tests.{ltb, if◌then◌else◌, le→ltb_false}
use ngbigcache.Base.Slices.{copy_at, slice}
use ngbigcache.Base.Outcome.{Run, ok, panic}

-- The `w` low bytes of a number, lowest first.
unfoldable pub le_bytes : ℕ → ℕ → List ℕ
le_bytes zero v = []
le_bytes (suc w) v = (v % 256) ∷ le_bytes w (v / 256)

unfoldable pub le_value : List ℕ → ℕ
le_value [] = 0
le_value (b ∷ bs) = b + 256 * le_value bs

pub length-le_bytes : (w v : ℕ) → length (le_bytes w v) ≡ w
unfolding le_bytes
length-le_bytes zero v = refl
length-le_bytes (suc w) v = ap suc (length-le_bytes w (v / 256))

pub le_value-le_bytes : (w v : ℕ) → v < 256 ^ w → le_value (le_bytes w v) ≡ v
unfolding le_bytes le_value
le_value-le_bytes zero v h = omega arith
le_value-le_bytes (suc w) v h =
    let room : v < 256 ^ w * 256 = rw pow-suc at h in
    omega (arith, le_value-le_bytes w (v / 256) (omega arith))

-- `binary.LittleEndian.PutUintN(b[off:], v)`: it panics where `b` is too short.
unfoldable pub put_le : ℕ → List ℕ → ℕ → ℕ → Run (List ℕ)
put_le w b off v = if ltb (length b) (off + w) then panic else ok (copy_at b off (le_bytes w v))

-- `binary.LittleEndian.UintN(b[off:])`
unfoldable pub read_le : ℕ → List ℕ → ℕ → Run ℕ
read_le w b off = if ltb (length b) (off + w) then panic else ok (le_value (slice b off w))

-- `b[lo:hi]`, with a panic outside `0 <= lo <= hi <= len(b)`. Go measures `hi` against `cap(b)`; the
-- lists of the model have no spare capacity.
unfoldable pub sub_slice : List ℕ → ℕ → ℕ → Run (List ℕ)
sub_slice b lo hi = if ltb hi lo || ltb (length b) hi then panic else ok (slice b lo (hi - lo))

pub put_le_ok :
    (w : ℕ) (b : List ℕ) (off v : ℕ)
    → off + w ≤ length b
    → put_le w b off v ≡ ok (copy_at b off (le_bytes w v))
unfolding put_le
put_le_ok w b off v h = rw (le→ltb_false (length b) (off + w) h)

pub read_le_ok :
    (w : ℕ) (b : List ℕ) (off v : ℕ)
    → off + w ≤ length b
    → slice b off w ≡ le_bytes w v
    → v < 256 ^ w
    → read_le w b off ≡ ok v
unfolding read_le
read_le_ok w b off v h e small =
    rw (le→ltb_false (length b) (off + w) h, e, le_value-le_bytes w v small)

pub sub_slice_ok :
    (b : List ℕ) (lo hi : ℕ)
    → lo ≤ hi
    → hi ≤ length b
    → sub_slice b lo hi ≡ ok (slice b lo (hi - lo))
unfolding sub_slice
sub_slice_ok b lo hi h k = rw (le→ltb_false hi lo h, le→ltb_false (length b) hi k)
