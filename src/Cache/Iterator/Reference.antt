-- ===== src/Cache/Iterator/Reference.antt =====
-- The entries of the shards of a cache of bigcache/bigcache.go, read one after another, as an iterator
-- should give them.
use ngbigcache.Base.{
  ℕ, zero, suc, ◌+◌, ◌≡◌, refl, ap, Bool, false, none, some, List, [], ◌∷◌, ◌++◌, Run, ok, ◌>>=◌,
  Result, length, drop, get_elem?, arith,
}
use mathlib.Core.Option.{some-injective}
use ngbigcache.Cache.Library.{Library}
use ngbigcache.Cache.Shard.{Shard, indices}
use ngbigcache.Cache.Iterator.{EntryInfo, EntryInfoIterator, IteratorError, value_at}

-- What `Value` returns.
abbrev pub Seen : Type 0
Seen = Result IteratorError EntryInfo

module _ {lib : Library} where
  -- The entries of a shard at some indices, and those of some shards, one after another.
  unfoldable pub read_indices : Shard lib → List ℕ → Run (List Seen)
  read_indices s [] = ok []
  read_indices s (index ∷ rest) = do v ← value_at s index; vs ← read_indices s rest; ok (v ∷ vs)

  unfoldable pub read_shards : List (Shard lib) → Run (List Seen)
  unfolding read_indices
  read_shards [] = ok []
  read_shards (s ∷ rest) = do
    vs ← read_indices s (indices s.hashmap)
    ws ← read_shards rest
    ok (vs ++ ws)

  -- No lock of a shard is held.
  abbrev pub AllUnlocked : List (Shard lib) → Type 0
  AllUnlocked [] = Unit
  AllUnlocked (s ∷ rest) = (s.locked ≡ false) × AllUnlocked rest

  -- How many entries some shards have.
  abbrev pub entry_count : List (Shard lib) → ℕ
  entry_count [] = 0
  entry_count (s ∷ rest) = length (indices s.hashmap) + entry_count rest

-- An iterator that has `elements` of the shard with a number, at a position.
abbrev pub placed : ℕ → ℕ → List ℕ → Bool → EntryInfoIterator
placed i k elements valid = record {
  current_shard = i;
  position = k;
  elements = elements;
  elements_count = length elements;
  valid = valid;
}

pub length-indices : (hashmap : List (ℕ × ℕ)) → length (indices hashmap) ≡ length hashmap
length-indices [] = refl
length-indices ((hash, index) ∷ t) = ap suc (length-indices t)

pub suc_eq : (n : ℕ) → suc n ≡ n + 1
suc_eq n = omega arith

pub empty_list : (xs : List ℕ) → length xs ≡ 0 → xs ≡ []
empty_list [] e = refl
empty_list (x ∷ xs) e = absurd (omega arith)

pub drop-cons :
    {A : Type 0} (xs : List A) (i : ℕ) (x : A) (rest : List A)
    → drop i xs ≡ x ∷ rest
    → (get_elem? xs i ≡ some x) × (drop (suc i) xs ≡ rest)
drop-cons [] zero x rest e = absurd (let f : [] ≡ x ∷ rest = e in cc)
drop-cons [] (suc i) x rest e = absurd (let f : [] ≡ x ∷ rest = e in cc)
drop-cons (y ∷ xs) zero x rest e = (cc, cc)
drop-cons (y ∷ xs) (suc i) x rest e = drop-cons xs i x rest e

pub drop-get_elem? :
    {A : Type 0} (xs : List A) (i : ℕ) (x : A)
    → get_elem? xs i ≡ some x
    → drop i xs ≡ x ∷ drop (suc i) xs
drop-get_elem? [] i x e = absurd (let f : none ≡ some x = e in cc)
drop-get_elem? (y ∷ xs) zero x e = ap (λ z. z ∷ xs) (some-injective _ _ e)
drop-get_elem? (y ∷ xs) (suc i) x e = drop-get_elem? xs i x e
