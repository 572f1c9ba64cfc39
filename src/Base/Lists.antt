-- ===== src/Base/Lists.antt =====
-- Lists measured and indexed by native numbers, membership and distinctness by recursion.
use Prim.Native.Nat.{ℕ, zero, suc, ◌+◌, ◌-◌, ◌≤◌, ◌<◌, min}
use mathlib.Core.Path.{◌≡◌, refl, ap, sym, subst, ◌∙◌}
use mathlib.Core.Logic.{◌≢◌, ◌⊎◌, inl, inr}
use mathlib.Core.List.{List, [], ◌∷◌, ◌++◌}
use mathlib.Core.Option.{Option, none, some, some-injective}
use native.Mathlib.Omega.{arith}

module _ {ℓ} {A : Type ℓ} where
  abbrev pub length : List A → ℕ
  length [] = 0
  length (x ∷ xs) = suc (length xs)

  abbrev pub get_elem? : List A → ℕ → Option A
  get_elem? [] i = none
  get_elem? (x ∷ xs) zero = some x
  get_elem? (x ∷ xs) (suc i) = get_elem? xs i

  -- A write out of bounds changes nothing.
  abbrev pub set : List A → ℕ → A → List A
  set [] i v = []
  set (x ∷ xs) zero v = v ∷ xs
  set (x ∷ xs) (suc i) v = x ∷ set xs i v

  abbrev pub take : ℕ → List A → List A
  take zero xs = []
  take (suc n) [] = []
  take (suc n) (x ∷ xs) = x ∷ take n xs

  abbrev pub drop : ℕ → List A → List A
  drop zero xs = xs
  drop (suc n) [] = []
  drop (suc n) (x ∷ xs) = drop n xs

  abbrev pub replicate : ℕ → A → List A
  replicate zero a = []
  replicate (suc n) a = a ∷ replicate n a

  -- `copy(a[i:], a[i+1:]); a = a[:len(a)-1]`
  abbrev pub remove_at : ℕ → List A → List A
  remove_at i [] = []
  remove_at zero (x ∷ xs) = xs
  remove_at (suc i) (x ∷ xs) = x ∷ remove_at i xs

module _ {ℓ} {A : Type ℓ} where
  pub length-append : (xs ys : List A) → length (xs ++ ys) ≡ length xs + length ys
  length-append [] ys = omega arith
  length-append (x ∷ xs) ys = omega (arith, length-append xs ys)

  pub List-cases : (xs : List A) → (xs ≡ []) ⊎ ((x : A) × (rest : List A) × (xs ≡ x ∷ rest))
  List-cases [] = inl refl
  List-cases (x ∷ xs) = inr (x, xs, refl)

  pub length-set : (xs : List A) (i : ℕ) (v : A) → length (set xs i v) ≡ length xs
  length-set [] i v = refl
  length-set (x ∷ xs) zero v = refl
  length-set (x ∷ xs) (suc i) v = ap suc (length-set xs i v)

  pub get_elem?-set_self :
      (xs : List A) (i : ℕ) (v : A) → i < length xs → get_elem? (set xs i v) i ≡ some v
  get_elem?-set_self [] i v h = elim h [ ]
  get_elem?-set_self (x ∷ xs) zero v h = refl
  get_elem?-set_self (x ∷ xs) (suc i) v h = get_elem?-set_self xs i v (omega arith)

  pub get_elem?-below : (xs : List A) (i : ℕ) (x : A) → get_elem? xs i ≡ some x → i < length xs
  get_elem?-below [] i x e = absurd (let f : none ≡ some x = e in cc)
  get_elem?-below (y ∷ xs) zero x e = omega arith
  get_elem?-below (y ∷ xs) (suc i) x e = omega (arith, get_elem?-below xs i x e)

  pub get_elem?-some : (xs : List A) (i : ℕ) → i < length xs → (x : A) × (get_elem? xs i ≡ some x)
  get_elem?-some [] i h = absurd (omega arith)
  get_elem?-some (x ∷ xs) zero h = (x, refl)
  get_elem?-some (x ∷ xs) (suc i) h = get_elem?-some xs i (omega arith)

  pub get_elem?-set_held :
      (xs : List A) (i : ℕ) (x y : A) → get_elem? xs i ≡ some x → get_elem? (set xs i y) i ≡ some y
  get_elem?-set_held [] i x y e = absurd (let f : none ≡ some x = e in cc)
  get_elem?-set_held (z ∷ xs) zero x y e = refl
  get_elem?-set_held (z ∷ xs) (suc i) x y e = get_elem?-set_held xs i x y e

  pub get_elem?-set_ne :
      (xs : List A) (i j : ℕ) (v : A) → i ≢ j → get_elem? (set xs i v) j ≡ get_elem? xs j
  get_elem?-set_ne [] i j v h = refl
  get_elem?-set_ne (x ∷ xs) zero zero v h = absurd (h refl)
  get_elem?-set_ne (x ∷ xs) zero (suc j) v h = refl
  get_elem?-set_ne (x ∷ xs) (suc i) zero v h = refl
  get_elem?-set_ne (x ∷ xs) (suc i) (suc j) v h = get_elem?-set_ne xs i j v (λ e. h (ap suc e))

  pub length-take : (n : ℕ) (xs : List A) → length (take n xs) ≡ min n (length xs)
  length-take zero xs = omega arith
  length-take (suc n) [] = omega arith
  length-take (suc n) (x ∷ xs) = omega (arith, length-take n xs)

  pub length-drop : (n : ℕ) (xs : List A) → length (drop n xs) ≡ length xs - n
  length-drop zero xs = omega arith
  length-drop (suc n) [] = omega arith
  length-drop (suc n) (x ∷ xs) = omega (arith, length-drop n xs)

  pub length-replicate : (n : ℕ) (a : A) → length (replicate n a) ≡ n
  length-replicate zero a = refl
  length-replicate (suc n) a = ap suc (length-replicate n a)

  pub take-length_append : (xs ys : List A) → take (length xs) (xs ++ ys) ≡ xs
  take-length_append [] ys = refl
  take-length_append (x ∷ xs) ys = ap (λ l. x ∷ l) (take-length_append xs ys)

  pub drop-length_append : (xs ys : List A) → drop (length xs) (xs ++ ys) ≡ ys
  drop-length_append [] ys = refl
  drop-length_append (x ∷ xs) ys = drop-length_append xs ys

  pub take_all : (n : ℕ) (xs : List A) → length xs ≤ n → take n xs ≡ xs
  take_all zero [] h = refl
  take_all zero (x ∷ xs) h = absurd (omega arith)
  take_all (suc n) [] h = refl
  take_all (suc n) (x ∷ xs) h = ap (λ l. x ∷ l) (take_all n xs (omega arith))

module _ {A : Type 0} where
  -- Membership that can be taken apart into data.
  abbrev pub In : A → List A → Type 0
  In a [] = ⊥
  In a (x ∷ xs) = (a ≡ x) ⊎ In a xs

  abbrev pub Distinct : List A → Type 0
  Distinct [] = Unit
  Distinct (x ∷ xs) = (¬ (In x xs)) × Distinct xs

  pub In-append_left : (a : A) (xs ys : List A) → In a xs → In a (xs ++ ys)
  In-append_left a [] ys h = elim h [ ]
  In-append_left a (x ∷ xs) ys (inl e) = inl e
  In-append_left a (x ∷ xs) ys (inr h) = inr (In-append_left a xs ys h)

  pub In-append_right : (a : A) (xs ys : List A) → In a ys → In a (xs ++ ys)
  In-append_right a [] ys h = h
  In-append_right a (x ∷ xs) ys h = inr (In-append_right a xs ys h)

  pub In-snoc : (a b : A) (xs : List A) → In a (xs ++ b ∷ []) → In a xs ⊎ (a ≡ b)
  In-snoc a b [] (inl e) = inr e
  In-snoc a b [] (inr h) = elim h [ ]
  In-snoc a b (x ∷ xs) (inl e) = inl (inl e)
  In-snoc a b (x ∷ xs) (inr h) = elim (In-snoc a b xs h) [ inl k ↦ inl (inr k) | inr e ↦ inr e ]

  pub Distinct-snoc : (b : A) (xs : List A) → Distinct xs → ¬ (In b xs) → Distinct (xs ++ b ∷ [])
  Distinct-snoc b [] d n = ((λ h. h), tt)
  Distinct-snoc b (x ∷ xs) (nx, d) n = (
    λ h. elim (In-snoc x b xs h) [ inl k ↦ nx k | inr e ↦ n (inl (sym e)) ],
    Distinct-snoc b xs d (λ h. n (inr h)),
  )

  pub In-remove_at : (a : A) (xs : List A) (i : ℕ) → In a (remove_at i xs) → In a xs
  In-remove_at a [] i h = h
  In-remove_at a (x ∷ xs) zero h = inr h
  In-remove_at a (x ∷ xs) (suc i) (inl e) = inl e
  In-remove_at a (x ∷ xs) (suc i) (inr h) = inr (In-remove_at a xs i h)

  pub Distinct-remove_at : (xs : List A) (i : ℕ) → Distinct xs → Distinct (remove_at i xs)
  Distinct-remove_at [] i d = d
  Distinct-remove_at (x ∷ xs) zero (n, d) = d
  Distinct-remove_at (x ∷ xs) (suc i) (n, d) =
      ((λ h. n (In-remove_at x xs i h)), Distinct-remove_at xs i d)

  pub In-get_elem? : (a : A) (xs : List A) (i : ℕ) → get_elem? xs i ≡ some a → In a xs
  In-get_elem? a [] i e = absurd (cc)
  In-get_elem? a (x ∷ xs) zero e = inl (some-injective _ _ (sym e))
  In-get_elem? a (x ∷ xs) (suc i) e = inr (In-get_elem? a xs i e)

  -- The element that is removed from a list without repetitions is gone.
  pub not_In-remove_at :
      (a : A) (xs : List A) (i : ℕ)
      → Distinct xs
      → get_elem? xs i ≡ some a
      → ¬ (In a (remove_at i xs))
  not_In-remove_at a [] i d e h = h
  not_In-remove_at a (x ∷ xs) zero (n, d) e h =
      n (subst (λ y. In y xs) (some-injective _ _ (sym e)) h)
  not_In-remove_at a (x ∷ xs) (suc i) (n, d) e (inl p) =
      n (subst (λ y. In y xs) p (In-get_elem? a xs i e))
  not_In-remove_at a (x ∷ xs) (suc i) (n, d) e (inr h) = not_In-remove_at a xs i d e h

  -- What is not removed stays.
  pub In-remove_at_ne :
      (a b : A) (xs : List A) (i : ℕ)
      → get_elem? xs i ≡ some b
      → a ≢ b
      → In a xs
      → In a (remove_at i xs)
  In-remove_at_ne a b [] i e n h = h
  In-remove_at_ne a b (x ∷ xs) zero e n (inl p) = absurd (n (p ∙ some-injective _ _ e))
  In-remove_at_ne a b (x ∷ xs) zero e n (inr h) = h
  In-remove_at_ne a b (x ∷ xs) (suc i) e n (inl p) = inl p
  In-remove_at_ne a b (x ∷ xs) (suc i) e n (inr h) = inr (In-remove_at_ne a b xs i e n h)
