-- ===== src/Utils/NodeId/Generate.antt =====
-- What `GenerateNodeId` of utils/utils.go returns.
use ngbigcache.Base.{
  ℕ, zero, suc, ◌+◌, ◌*◌, ◌≤◌, ◌<◌, ◌/◌, ◌^◌, ◌≡◌, ◌∙◌, sym, refl, ap, [], ◌∷◌, ◌++◌, subst,
  length-append, length-take, In-snoc, ◌⊎◌, ◌%◌, none, some, Option-cases, Bytes, length, take,
  replicate, In, inl, inr, arith, get_elem?,
}
use mathlib.Core.List.{append-nil, reverse, reverse-cons}
use mathlib.Core.Option.{some-injective}
use ngbigcache.Utils.NodeId.{
  letter_bytes, letter_at, letter_idx_bits, letter_idx_max, fill, generate_node_id,
}
use ngbigcache.Utils.NodeId.Letters.{
  number_letters, drawn_letters, midway, number_letters-some, number_letters-none, fill_letters,
}

get_elem?-In : (xs : Bytes) (i x : ℕ) → get_elem? xs i ≡ some x → In x xs
get_elem?-In [] i x e = absurd (let f : none ≡ some x = e in cc)
get_elem?-In (y ∷ xs) zero x e = inl (sym (some-injective y x e))
get_elem?-In (y ∷ xs) (suc i) x e = inr (get_elem?-In xs i x e)

In-append : (x : ℕ) (xs ys : Bytes) → In x (xs ++ ys) → In x xs ⊎ In x ys
In-append x [] ys i = inr i
In-append x (y ∷ xs) ys (inl e) = inl (inl e)
In-append x (y ∷ xs) ys (inr i) = elim (In-append x xs ys i) [ inl j ↦ inl (inr j) | inr j ↦ inr j ]

In-take : (x n : ℕ) (xs : Bytes) → In x (take n xs) → In x xs
In-take x zero xs i = absurd i
In-take x (suc n) [] i = absurd i
In-take x (suc n) (y ∷ xs) (inl e) = inl e
In-take x (suc n) (y ∷ xs) (inr i) = inr (In-take x n xs i)

In-reverse : (x : ℕ) (xs : Bytes) → In x (reverse xs) → In x xs
In-reverse x [] i = i
In-reverse x (y ∷ xs) i =
    elim (In-snoc x y (reverse xs) (subst (λ l. In x l) (reverse-cons y xs) i)) [
      | inl j ↦ inr (In-reverse x xs j)
      | inr e ↦ inl e
    ]

length-reverse : (xs : Bytes) → length (reverse xs) ≡ length xs
length-reverse [] = refl
length-reverse (x ∷ xs) =
    rw (reverse-cons x xs, length-append (reverse xs) (x ∷ []), length-reverse xs) (omega arith)

number_letters-In : (r c x : ℕ) → In x (number_letters r c) → In x letter_bytes
unfolding number_letters letter_at
number_letters-In zero c x i = absurd i
number_letters-In (suc r) c x i = elim (Option-cases (letter_at c)) [
  | inl e ↦
      number_letters-In r (c / 2 ^ letter_idx_bits) x
        (subst (λ l. In x l) (number_letters-none r c e) i)
  | inr (y, e) ↦ elim (subst (λ l. In x l) (number_letters-some r c y e) i) [
    | inl q ↦ get_elem?-In letter_bytes (c % 2 ^ letter_idx_bits) x (e ∙ ap some (sym q))
    | inr j ↦ number_letters-In r (c / 2 ^ letter_idx_bits) x j
  ]
]

drawn_letters-In : (int63 : ℕ → ℕ) (d k x : ℕ) → In x (drawn_letters int63 d k) → In x letter_bytes
unfolding drawn_letters
drawn_letters-In int63 d zero x i = absurd i
drawn_letters-In int63 d (suc k) x i =
    elim (In-append x (number_letters letter_idx_max (int63 d)) (drawn_letters int63 (d + 1) k) i) [
      | inl j ↦ number_letters-In letter_idx_max (int63 d) x j
      | inr j ↦ drawn_letters-In int63 (d + 1) k x j
    ]

-- If the first `k + 1` random numbers have at least `n` letters among their groups of six bits, ten
-- of each number and the lowest first, and the fuel is more than the number of the groups, then
-- `GenerateNodeId` returns the first `n` of the letters, last one first: `n` bytes, each
-- of `letterBytes`.
pub generate_node_id-letters :
    (int63 : ℕ → ℕ) (n k fuel : ℕ)
    → n ≤ length (drawn_letters int63 0 (suc k))
    → 10 * suc k < fuel
    → (id : Bytes) × (generate_node_id int63 fuel n ≡ some id)
      × (id ≡ reverse (take n (drawn_letters int63 0 (suc k))))
      × (length id ≡ n)
      × ((c : ℕ) → In c id → In c letter_bytes)
unfolding generate_node_id drawn_letters
generate_node_id-letters int63 n k fuel enough room =
    let letters : Bytes = drawn_letters int63 0 (suc k) in
    let filled : fill int63 fuel (midway (replicate n 0) n (int63 0) letter_idx_max 1)
        ≡ some (reverse (take n letters)) =
      rw (append-nil {A = ℕ} (replicate n 0), append-nil {A = ℕ} (reverse (take n letters))) at
        (fill_letters int63 fuel k n (int63 0) letter_idx_max 1 [] enough (omega arith)) in
    (
      reverse (take n letters),
      filled,
      refl,
      length-reverse (take n letters) ∙ omega (arith, length-take n letters),
      λ c i.
          drawn_letters-In int63 0 (suc k) c
            (In-take c n letters (In-reverse c (take n letters) i)),
    )
