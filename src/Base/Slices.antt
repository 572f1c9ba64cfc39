-- ===== src/Base/Slices.antt =====
-- Byte slices as lists of numbers below 256: Go's `copy` and reads of a part.
use Prim.Native.Nat.{ℕ, zero, suc, ◌+◌, ◌≤◌}
use mathlib.Core.Path.{◌≡◌, refl, ap, ◌∙◌}
use mathlib.Core.List.{List, [], ◌∷◌, ◌++◌}
use mathlib.Core.Bool.{Bool, true, false}
use native.Mathlib.Omega.{arith}
use ngbigcache.Base.Tests.{◌==◌, if◌then◌else◌}
use ngbigcache.Base.Lists.{length, take, drop, length-take, take-length_append}

abbrev pub Bytes : Type 0
Bytes = List ℕ

-- `copy(dst, src)`: as many elements as both have.
unfoldable pub copy : List ℕ → List ℕ → List ℕ
copy [] src = []
copy (d ∷ ds) [] = d ∷ ds
copy (d ∷ ds) (s ∷ ss) = s ∷ copy ds ss

-- `copy(dst[off:], src)`, for `off` at most the length of `dst`
unfoldable pub copy_at : List ℕ → ℕ → List ℕ → List ℕ
unfolding copy
copy_at dst zero src = copy dst src
copy_at [] (suc off) src = []
copy_at (d ∷ ds) (suc off) src = d ∷ copy_at ds off src

-- `b[off : off+n]`, for a range inside `b`
abbrev pub slice : List ℕ → ℕ → ℕ → List ℕ
slice b off n = take n (drop off b)

pub length-copy : (dst src : List ℕ) → length (copy dst src) ≡ length dst
unfolding copy
length-copy [] src = refl
length-copy (d ∷ ds) [] = refl
length-copy (d ∷ ds) (s ∷ ss) = ap suc (length-copy ds ss)

pub length-copy_at :
    (dst : List ℕ) (off : ℕ) (src : List ℕ) → length (copy_at dst off src) ≡ length dst
unfolding copy_at
length-copy_at dst zero src = length-copy dst src
length-copy_at [] (suc off) src = refl
length-copy_at (d ∷ ds) (suc off) src = ap suc (length-copy_at ds off src)

pub length-slice : (b : List ℕ) (off n : ℕ) → off + n ≤ length b → length (slice b off n) ≡ n
length-slice b zero zero h = refl
length-slice [] zero (suc n) h = absurd (omega arith)
length-slice (x ∷ b) zero (suc n) h = ap suc (length-slice b zero n (omega arith))
length-slice [] (suc off) zero h = refl
length-slice [] (suc off) (suc n) h = absurd (omega arith)
length-slice (x ∷ b) (suc off) n h = length-slice b off n (omega arith)

pub take-copy :
    (dst src : List ℕ) → length src ≤ length dst → take (length src) (copy dst src) ≡ src
unfolding copy
take-copy [] [] h = refl
take-copy [] (s ∷ ss) h = absurd (omega arith)
take-copy (d ∷ ds) [] h = refl
take-copy (d ∷ ds) (s ∷ ss) h = ap (λ l. s ∷ l) (take-copy ds ss (omega arith))

-- What was copied is read back.
pub slice-copy_at_self :
    (dst : List ℕ) (off : ℕ) (src : List ℕ)
    → off + length src ≤ length dst
    → slice (copy_at dst off src) off (length src) ≡ src
unfolding copy_at
slice-copy_at_self dst zero src h = take-copy dst src (omega arith)
slice-copy_at_self [] (suc off) [] h = absurd (omega arith)
slice-copy_at_self [] (suc off) (s ∷ ss) h = absurd (omega arith)
slice-copy_at_self (d ∷ ds) (suc off) src h = slice-copy_at_self ds off src (omega arith)

slice-copy_right :
    (dst src : List ℕ) (o n : ℕ) → length src ≤ o → slice (copy dst src) o n ≡ slice dst o n
unfolding copy
slice-copy_right [] src o n h = refl
slice-copy_right (d ∷ ds) [] o n h = refl
slice-copy_right (d ∷ ds) (s ∷ ss) zero n h = absurd (omega arith)
slice-copy_right (d ∷ ds) (s ∷ ss) (suc o) n h = slice-copy_right ds ss o n (omega arith)

-- A read before the copied range, or behind it, is not changed.
pub slice-copy_at_before :
    (dst : List ℕ) (off : ℕ) (src : List ℕ) (o n : ℕ)
    → o + n ≤ off
    → slice (copy_at dst off src) o n ≡ slice dst o n
unfolding copy_at
slice-copy_at_before dst off src zero zero h = refl
slice-copy_at_before dst zero src zero (suc n) h = absurd (omega arith)
slice-copy_at_before dst zero src (suc o) n h = absurd (omega arith)
slice-copy_at_before [] (suc off) src zero (suc n) h = refl
slice-copy_at_before (d ∷ ds) (suc off) src zero (suc n) h =
    ap (λ l. d ∷ l) (slice-copy_at_before ds off src zero n (omega arith))
slice-copy_at_before [] (suc off) src (suc o) n h = refl
slice-copy_at_before (d ∷ ds) (suc off) src (suc o) n h =
    slice-copy_at_before ds off src o n (omega arith)

pub slice-copy_at_after :
    (dst : List ℕ) (off : ℕ) (src : List ℕ) (o n : ℕ)
    → off + length src ≤ o
    → slice (copy_at dst off src) o n ≡ slice dst o n
unfolding copy_at
slice-copy_at_after dst zero src o n h = slice-copy_right dst src o n (omega arith)
slice-copy_at_after dst (suc off) src zero n h = absurd (omega arith)
slice-copy_at_after [] (suc off) src (suc o) n h = refl
slice-copy_at_after (d ∷ ds) (suc off) src (suc o) n h =
    slice-copy_at_after ds off src o n (omega arith)

drop_nil : (n : ℕ) → drop {A = ℕ} n [] ≡ []
drop_nil zero = refl
drop_nil (suc n) = refl

pub take_nil : (n : ℕ) → take {A = ℕ} n [] ≡ []
take_nil zero = refl
take_nil (suc n) = refl

slice-take : (b : List ℕ) (n o m : ℕ) → o + m ≤ n → slice (take n b) o m ≡ slice b o m
slice-take b n zero zero h = refl
slice-take b zero zero (suc m) h = absurd (omega arith)
slice-take b zero (suc o) m h = absurd (omega arith)
slice-take [] (suc n) zero (suc m) h = refl
slice-take [] (suc n) (suc o) m h = refl
slice-take (x ∷ b) (suc n) zero (suc m) h = ap (λ l. x ∷ l) (slice-take b n zero m (omega arith))
slice-take (x ∷ b) (suc n) (suc o) m h = slice-take b n o m (omega arith)

-- A read inside a part that was read.
pub slice-slice :
    (b : List ℕ) (i n o m j : ℕ) → j ≡ i + o → o + m ≤ n → slice (slice b i n) o m ≡ slice b j m
slice-slice b zero n o m j e h =
    rw (slice-take b n o m h) (ap (λ k. slice b k m) (let p : o ≡ j = omega arith in p))
slice-slice [] (suc i) n o m j e h = rw (take_nil n, drop_nil o, drop_nil j)
slice-slice (x ∷ b) (suc i) n o m zero e h = absurd (omega arith)
slice-slice (x ∷ b) (suc i) n o m (suc j) e h = slice-slice b i n o m j (omega arith) h

copy_longer :
    (dst src : List ℕ) (o n : ℕ)
    → o + n ≤ length src
    → length src ≤ length dst
    → slice (copy dst src) o n ≡ slice src o n
unfolding copy
copy_longer [] [] o n h k = refl
copy_longer [] (s ∷ ss) o n h k = absurd (omega arith)
copy_longer (d ∷ ds) [] zero zero h k = refl
copy_longer (d ∷ ds) [] zero (suc n) h k = absurd (omega arith)
copy_longer (d ∷ ds) [] (suc o) n h k = absurd (omega arith)
copy_longer (d ∷ ds) (s ∷ ss) zero zero h k = refl
copy_longer (d ∷ ds) (s ∷ ss) zero (suc n) h k =
    ap (λ l. s ∷ l) (copy_longer ds ss zero n (omega arith) (omega arith))
copy_longer (d ∷ ds) (s ∷ ss) (suc o) n h k = copy_longer ds ss o n (omega arith) (omega arith)

-- A prefix that is copied to the front of a longer slice is read there.
pub slice-copy-take :
    (dst src : List ℕ) (t o n : ℕ)
    → o + n ≤ t
    → t ≤ length src
    → t ≤ length dst
    → slice (copy dst (take t src)) o n ≡ slice src o n
slice-copy-take dst src t o n h k l =
    let len : length (take t src) ≡ t = omega (arith, length-take t src) in
    copy_longer dst (take t src) o n (omega arith) (omega arith) ∙ slice-take src t o n h

pub copy_full : (dst src : List ℕ) → length dst ≡ length src → copy dst src ≡ src
unfolding copy
copy_full [] [] e = refl
copy_full [] (s ∷ ss) e = absurd (omega arith)
copy_full (d ∷ ds) [] e = absurd (omega arith)
copy_full (d ∷ ds) (s ∷ ss) e = ap (λ l. s ∷ l) (copy_full ds ss (omega arith))

copy_nil : (dst : List ℕ) → copy dst [] ≡ dst
unfolding copy
copy_nil [] = refl
copy_nil (d ∷ ds) = refl

-- Two copies one behind the other are one copy.
pub copy_at_append :
    (dst : List ℕ) (off : ℕ) (a b : List ℕ) (next : ℕ)
    → next ≡ off + length a
    → copy_at (copy_at dst off a) next b ≡ copy_at dst off (a ++ b)
unfolding copy_at
copy_at_append dst zero [] b zero e = rw (copy_nil dst)
copy_at_append dst zero [] b (suc n) e = absurd (omega arith)
copy_at_append dst zero (x ∷ a) b zero e = absurd (omega arith)
copy_at_append [] zero (x ∷ a) b (suc n) e = unfold copy in refl
copy_at_append (d ∷ dst) zero (x ∷ a) b (suc n) e =
    unfold copy in ap (λ l. x ∷ l) (copy_at_append dst zero a b n (omega arith))
copy_at_append dst (suc off) a b zero e = absurd (omega arith)
copy_at_append [] (suc off) a b (suc n) e = refl
copy_at_append (d ∷ dst) (suc off) a b (suc n) e =
    ap (λ l. d ∷ l) (copy_at_append dst off a b n (omega arith))

-- The middle one of three parts.
pub slice_mid :
    (a b c : List ℕ) (o n : ℕ) → o ≡ length a → n ≡ length b → slice (a ++ (b ++ c)) o n ≡ b
slice_mid [] b c zero n e f = rw f (take-length_append b c)
slice_mid [] b c (suc o) n e f = absurd (omega arith)
slice_mid (x ∷ a) b c zero n e f = absurd (omega arith)
slice_mid (x ∷ a) b c (suc o) n e f = slice_mid a b c o n (omega arith) f

-- Equality of two strings or slices.
unfoldable pub eq_bytes : List ℕ → List ℕ → Bool
eq_bytes [] [] = true
eq_bytes [] (y ∷ ys) = false
eq_bytes (x ∷ xs) [] = false
eq_bytes (x ∷ xs) (y ∷ ys) = let rest = eq_bytes xs ys in if x == y then rest else false

pub eq_bytes_refl : (xs : List ℕ) → eq_bytes xs xs ≡ true
unfolding eq_bytes
eq_bytes_refl [] = refl
eq_bytes_refl (x ∷ xs) = ground (arith, eq_bytes_refl xs)

pub eq_bytes→eq : (xs ys : List ℕ) → eq_bytes xs ys ≡ true → xs ≡ ys
unfolding eq_bytes
eq_bytes→eq [] [] e = refl
eq_bytes→eq [] (y ∷ ys) e = cc
eq_bytes→eq (x ∷ xs) [] e = cc
eq_bytes→eq (x ∷ xs) (y ∷ ys) e = ground (arith, eq_bytes→eq xs ys)
