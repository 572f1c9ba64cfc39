-- ===== src/Utils/NodeId.antt =====
-- `GenerateNodeId` of utils/utils.go. `math/rand` is not part of the repository: what `src.Int63`
-- answers is a function of how often it was called since `srcLock` was taken. The loop runs on
-- fuel. The argument is a natural number; for a negative one `make` panics.
pub mod Letters
pub mod Generate
use ngbigcache.Base.{
  ℕ, zero, suc, ◌+◌, ◌-◌, ◌/◌, ◌%◌, ◌^◌, Option, none, some, List, [], ◌∷◌, ◌==◌, if◌then◌else◌,
  Bytes, get_elem?, set, replicate,
}

-- "abcdefghijklmnopqrstuvwxyzABCDEFGHIJKLMNOPQRSTUVWXYZ"
abbrev pub letter_bytes : Bytes
letter_bytes =
    97 ∷ 98 ∷ 99 ∷ 100 ∷ 101 ∷ 102 ∷ 103 ∷ 104 ∷ 105 ∷ 106 ∷ 107 ∷ 108 ∷ 109 ∷ 110 ∷ 111 ∷ 112 ∷ 113
    ∷ 114 ∷ 115 ∷ 116 ∷ 117 ∷ 118 ∷ 119 ∷ 120 ∷ 121 ∷ 122 ∷ 65 ∷ 66 ∷ 67 ∷ 68 ∷ 69 ∷ 70 ∷ 71 ∷ 72
    ∷ 73 ∷ 74 ∷ 75 ∷ 76 ∷ 77 ∷ 78 ∷ 79 ∷ 80 ∷ 81 ∷ 82 ∷ 83 ∷ 84 ∷ 85 ∷ 86 ∷ 87 ∷ 88 ∷ 89 ∷ 90 ∷ []

abbrev pub letter_idx_bits : ℕ
letter_idx_bits = 6

-- `63 / letterIdxBits`
abbrev pub letter_idx_max : ℕ
letter_idx_max = 63 / letter_idx_bits

-- The variables of the loop; `left` is `i + 1`, and `drawn` counts the calls of `src.Int63`.
pub record Filling : Type 0 where
  pub b : Bytes
  pub left : ℕ
  pub cache : ℕ
  pub remain : ℕ
  pub drawn : ℕ

-- `if remain == 0 { cache, remain = src.Int63(), letterIdxMax }`
unfoldable pub refill : (ℕ → ℕ) → Filling → Filling
refill int63 s =
    if s.remain == 0
    then record s { cache = int63 s.drawn; remain = letter_idx_max; drawn = s.drawn + 1 }
    else s

-- The letter at the masked index, where `idx < len(letterBytes)`.
unfoldable pub letter_at : ℕ → Option ℕ
letter_at cache = get_elem? letter_bytes (cache % 2 ^ letter_idx_bits)

-- `if idx := ...; idx < len(letterBytes) { b[i] = letterBytes[idx]; i-- }`
unfoldable pub put_letter : Filling → Filling
put_letter s = elim (letter_at s.cache) [
  | some c ↦ record s { b = set s.b (s.left - 1) c; left = s.left - 1 }
  | none ↦ s
]

-- `cache >>= letterIdxBits; remain--`
abbrev pub shift : Filling → Filling
shift s = record s { cache = s.cache / 2 ^ letter_idx_bits; remain = s.remain - 1 }

-- `for ...; i >= 0; { ... }`
unfoldable pub fill : (ℕ → ℕ) → ℕ → Filling → Option Bytes
fill int63 zero s = none
fill int63 (suc fuel) s =
    let rest = fill int63 fuel (shift (put_letter (refill int63 s))) in
    if s.left == 0 then some s.b else rest

unfoldable pub generate_node_id : (ℕ → ℕ) → ℕ → ℕ → Option Bytes
generate_node_id int63 fuel n =
    fill int63 fuel
      (record { b = replicate n 0; left = n; cache = int63 0; remain = letter_idx_max; drawn = 1 })
