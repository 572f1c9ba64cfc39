-- ===== src/Gods.antt =====
-- What the code takes from github.com/emirpasic/gods: `avltree` with an integer comparator and
-- `hashset` of strings. The package is not part of the repository, so its operations are
-- parameters, and the laws are what its documentation says of a map that is ordered by its keys
-- and of a set.
pub mod Assoc
pub mod Keys
use ngbigcache.Base.{
  ℕ, ◌≤◌, ◌≡◌, ◌≢◌, ◌↔◌, ◌⊎◌, Option, none, some, Bool, true, List, [], ◌==◌, if◌then◌else◌, In,
  Bytes,
}

-- `*avltree.Tree`; `first` is what `Key` and `Value` of a new iterator give after `Next`, and
-- `none` is their nil on an empty tree.
pub record AvlTree (V : Type 0) : Type 1 where
  pub Tree : Type 0
  pub empty : Tree
  pub get : Tree → ℕ → Option V
  pub put : Tree → ℕ → V → Tree
  pub remove : Tree → ℕ → Tree
  pub size : Tree → ℕ
  pub first : Tree → Option (ℕ × V)
  pub get-empty : (k : ℕ) → get empty k ≡ none
  pub get-put :
      (t : Tree) (k : ℕ) (v : V) (j : ℕ) → get (put t k v) j ≡ (if k == j then some v else get t j)
  pub get-remove : (t : Tree) (k j : ℕ) → get (remove t k) j ≡ (if k == j then none else get t j)
  pub first-eq-none : (t : Tree) (k : ℕ) → first t ≡ none → get t k ≡ none
  pub get-first : (t : Tree) (k : ℕ) (v : V) → first t ≡ some (k, v) → get t k ≡ some v
  pub first-le : (t : Tree) (k j : ℕ) (v w : V) → first t ≡ some (k, v) → get t j ≡ some w → k ≤ j
  pub size-eq-zero : (t : Tree) → (size t ≡ 0) ↔ (first t ≡ none)

-- `*hashset.Set` of the keys of the cache. The order of `Values` is that of a Go map.
pub record HashSet : Type 1 where
  pub Set : Type 0
  pub new : Set
  pub add : Set → Bytes → Set
  pub remove : Set → Bytes → Set
  pub values : Set → List Bytes
  pub is_empty : Set → Bool
  pub values-new : values new ≡ []
  pub values-add : (s : Set) (k j : Bytes) → In j (values (add s k)) ↔ ((j ≡ k) ⊎ In j (values s))
  pub values-remove :
      (s : Set) (k j : Bytes) → In j (values (remove s k)) ↔ ((j ≢ k) × In j (values s))
  pub is_empty_iff : (s : Set) → (is_empty s ≡ true) ↔ (values s ≡ [])
