-- ===== src/Gods/Assoc.antt =====
-- Association lists satisfy what `ngbigcache.Gods` asks of an ordered tree. They stand for the
-- package where a theorem is applied to concrete data.
use ngbigcache.Base.{
  ℕ, ◌≤◌, ◌≡◌, ◌↔◌, inl, inr, refl, Option, none, some, List, [], ◌∷◌, if◌then◌else◌, arith, ltb,
  length, Option-cases,
}
use ngbigcache.Base.Assoc.{get, put, remove, get-put, get-remove}
use ngbigcache.Gods.{AvlTree}

module _ {V : Type 0} where
  abbrev smaller : ℕ × V → Option (ℕ × V) → Option (ℕ × V)
  smaller e none = some e
  smaller e (some f) = if ltb f.0 e.0 then some f else some e

  unfoldable pub first : List (ℕ × V) → Option (ℕ × V)
  first [] = none
  first (e ∷ t) = smaller e (first t)

  pub get-empty : (k : ℕ) → get {V = V} [] k ≡ none
  unfolding get
  get-empty k = refl

  pub first-eq-none : (t : List (ℕ × V)) (k : ℕ) → first t ≡ none → get t k ≡ none
  unfolding first get
  first-eq-none [] k e = refl
  first-eq-none (x ∷ t) k e = ground arith

  pub get-first : (t : List (ℕ × V)) (k : ℕ) (v : V) → first t ≡ some (k, v) → get t k ≡ some v
  unfolding first get
  get-first [] k v e = absurd (cc)
  get-first ((i, w) ∷ t) k v e = ground (arith, get-first t k v)

  pub first-le :
      (t : List (ℕ × V)) (k j : ℕ) (v w : V) → first t ≡ some (k, v) → get t j ≡ some w → k ≤ j
  unfolding first get
  first-le [] k j v w e h = absurd (cc)
  first-le ((i, u) ∷ t) k j v w e h = elim (Option-cases (first t)) [
    | inl n ↦ ground (arith, n, first-eq-none t j n)
    | inr ((a, b), s) ↦ ground (arith, s, first-le t a j b w s)
  ]

  pub size-eq-zero : (t : List (ℕ × V)) → (length t ≡ 0) ↔ (first t ≡ none)
  unfolding first
  size-eq-zero [] = ((λ e. refl), (λ e. refl))
  size-eq-zero (x ∷ t) = ground arith

abbrev pub assoc_tree : (V : Type 0) → AvlTree V
assoc_tree V = record {
  Tree = List (ℕ × V);
  empty = [];
  get = get;
  put = put;
  remove = remove;
  size = length;
  first = first;
  get-empty = get-empty;
  get-put = get-put;
  get-remove = get-remove;
  first-eq-none = first-eq-none;
  get-first = get-first;
  first-le = first-le;
  size-eq-zero = size-eq-zero;
}
