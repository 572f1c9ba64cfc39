-- ===== src/Utils/NodeId/Letters.antt =====
-- Which letters of the random numbers `GenerateNodeId` of utils/utils.go puts where.
use ngbigcache.Base.{
  ℕ, zero, suc, ◌+◌, ◌-◌, ◌*◌, ◌≤◌, ◌<◌, ◌/◌, ◌^◌, ◌≡◌, ◌∙◌, refl, ap, [], ◌∷◌, ◌++◌, none, some,
  Option-cases, ne→==_false, Bytes, length, take, set, replicate, inl, inr, arith,
}
use mathlib.Core.List.{append_assoc, reverse, reverse-cons}
use ngbigcache.Utils.NodeId.{
  Filling, letter_at, letter_idx_bits, letter_idx_max, put_letter, refill, fill, shift,
}

-- The letters at so many indices of a random number, lowest bits first.
unfoldable pub number_letters : ℕ → ℕ → Bytes
number_letters zero cache = []
number_letters (suc remain) cache =
    let rest = number_letters remain (cache / 2 ^ letter_idx_bits) in
    elim (letter_at cache) [ some c ↦ c ∷ rest | none ↦ rest ]

-- The letters of `k` random numbers from the one drawn after `drawn` others.
unfoldable pub drawn_letters : (ℕ → ℕ) → ℕ → ℕ → Bytes
drawn_letters int63 drawn zero = []
drawn_letters int63 drawn (suc k) =
    number_letters letter_idx_max (int63 drawn) ++ drawn_letters int63 (drawn + 1) k

set_last :
    (m x : ℕ) (acc : Bytes) → set (replicate (suc m) 0 ++ acc) m x ≡ replicate m 0 ++ (x ∷ acc)
set_last zero x acc = refl
set_last (suc m) x acc = ap (λ l. 0 ∷ l) (set_last m x acc)

abbrev pub midway : Bytes → ℕ → ℕ → ℕ → ℕ → Filling
midway b m c r d = record { b = b; left = m; cache = c; remain = r; drawn = d }

put_letter-some :
    (s : Filling) (x : ℕ)
    → letter_at s.cache ≡ some x
    → put_letter s ≡ record s { b = set s.b (s.left - 1) x; left = s.left - 1 }
unfolding put_letter
put_letter-some s x e = rw (put_letter, e) refl

put_letter-none : (s : Filling) → letter_at s.cache ≡ none → put_letter s ≡ s
unfolding put_letter
put_letter-none s e = rw (put_letter, e) refl

pub number_letters-some :
    (r c x : ℕ)
    → letter_at c ≡ some x
    → number_letters (suc r) c ≡ x ∷ number_letters r (c / 2 ^ letter_idx_bits)
unfolding number_letters
number_letters-some r c x e = rw (number_letters, e) refl

pub number_letters-none :
    (r c : ℕ)
    → letter_at c ≡ none
    → number_letters (suc r) c ≡ number_letters r (c / 2 ^ letter_idx_bits)
unfolding number_letters
number_letters-none r c e = rw (number_letters, e) refl

fill_left :
    (int63 : ℕ → ℕ) (fuel : ℕ) (b : Bytes) (m c r d : ℕ)
    → fill int63 (suc fuel) (midway b (suc m) c r d)
      ≡ fill int63 fuel (shift (put_letter (refill int63 (midway b (suc m) c r d))))
unfolding fill
fill_left int63 fuel b m c r d = rw (ne→==_false (suc m) 0 (omega arith)) refl

refill-zero :
    (int63 : ℕ → ℕ) (b : Bytes) (m c d : ℕ)
    → refill int63 (midway b m c 0 d) ≡ midway b m (int63 d) letter_idx_max (d + 1)
unfolding refill
refill-zero int63 b m c d = refl

refill-suc :
    (int63 : ℕ → ℕ) (b : Bytes) (m c r d : ℕ)
    → refill int63 (midway b m c (suc r) d) ≡ midway b m c (suc r) d
unfolding refill
refill-suc int63 b m c r d = rw (ne→==_false (suc r) 0 (omega arith)) refl

-- What a run of the loop on this fuel gives.
abbrev pub Fills : (ℕ → ℕ) → ℕ → Type 0
Fills int63 fuel =
    (k m c r d : ℕ) (acc : Bytes)
    → m ≤ length (number_letters r c ++ drawn_letters int63 d k)
    → r + 10 * k < fuel
    → fill int63 fuel (midway (replicate m 0 ++ acc) m c r d)
      ≡ some (reverse (take m (number_letters r c ++ drawn_letters int63 d k)) ++ acc)

pred_suc : (n : ℕ) → suc n - 1 ≡ n
pred_suc n = omega arith

fill_next :
    (int63 : ℕ → ℕ) (fuel : ℕ)
    → Fills int63 fuel
    → (k m c r d : ℕ) (acc : Bytes)
    → suc m ≤ length (number_letters (suc r) c ++ drawn_letters int63 d k)
    → r + 10 * k < fuel
    → fill int63 fuel (shift (put_letter (midway (replicate (suc m) 0 ++ acc) (suc m) c (suc r) d)))
      ≡ some (reverse (take (suc m) (number_letters (suc r) c ++ drawn_letters int63 d k)) ++ acc)
fill_next int63 fuel fills k m c r d acc enough room = elim (Option-cases (letter_at c)) [
  | inl e ↦
      rw
        (
          put_letter-none (midway (replicate (suc m) 0 ++ acc) (suc m) c (suc r) d) e,
          number_letters-none r c e,
          pred_suc r,
        )
        (fills k (suc m) (c / 2 ^ letter_idx_bits) r d acc
          (rw (number_letters-none r c e) at enough) room)
  | inr (x, e) ↦
      let ahead : Bytes = number_letters r (c / 2 ^ letter_idx_bits) ++ drawn_letters int63 d k in
      let enough' : suc m ≤ suc (length ahead) = rw (number_letters-some r c x e) at enough in
      rw
        (
          put_letter-some (midway (replicate (suc m) 0 ++ acc) (suc m) c (suc r) d) x e,
          number_letters-some r c x e,
          pred_suc r,
          pred_suc m,
          set_last m x acc,
          reverse-cons x (take m ahead),
          append_assoc (reverse (take m ahead)) (x ∷ []) acc,
        )
        (fills k m (c / 2 ^ letter_idx_bits) r d (x ∷ acc) (omega arith) room)
]

pub fill_letters : (int63 : ℕ → ℕ) (fuel : ℕ) → Fills int63 fuel
unfolding fill number_letters drawn_letters
fill_letters int63 zero k m c r d acc enough room = absurd (omega arith)
fill_letters int63 (suc fuel) k zero c r d acc enough room = refl
fill_letters int63 (suc fuel) zero (suc m) c zero d acc enough room = absurd (omega arith)
fill_letters int63 (suc fuel) (suc k) (suc m) c zero d acc enough room =
    fill_left int63 fuel (replicate (suc m) 0 ++ acc) m c zero d
    ∙ ap (λ s. fill int63 fuel (shift (put_letter s)))
        (refill-zero int63 (replicate (suc m) 0 ++ acc) (suc m) c d)
    ∙ fill_next int63 fuel (fill_letters int63 fuel) k m (int63 d) 9 (d + 1) acc enough
        (omega arith)
fill_letters int63 (suc fuel) k (suc m) c (suc r) d acc enough room =
    fill_left int63 fuel (replicate (suc m) 0 ++ acc) m c (suc r) d
    ∙ ap (λ s. fill int63 fuel (shift (put_letter s)))
        (refill-suc int63 (replicate (suc m) 0 ++ acc) (suc m) c r d)
    ∙ fill_next int63 fuel (fill_letters int63 fuel) k m c r d acc enough (omega arith)
