-- ===== src/Base/Dict.antt =====
-- A sync.Map with byte strings for keys, whose order of iteration is that of the list.
use ngbigcache.Base.Slices.{Bytes, eq_bytes, eq_bytes_refl, eq_bytes→eq}
use ngbigcache.Base.Tests.{if◌then◌else◌, Bool-cases}
use mathlib.Core.Path.{◌≡◌}
use mathlib.Core.Logic.{◌≢◌, ◌⊎◌, inl, inr}
use mathlib.Core.Bool.{true, false}
use mathlib.Core.Option.{Option, none, some}
use mathlib.Core.List.{List, [], ◌∷◌}
use native.Mathlib.Omega.{arith}

pub eq_bytes-cases :
    (a b : Bytes) → ((eq_bytes a b ≡ true) × (a ≡ b)) ⊎ ((eq_bytes a b ≡ false) × (a ≢ b))
eq_bytes-cases a b = elim (Bool-cases (eq_bytes a b)) [
  | inl t ↦ inl (t, eq_bytes→eq a b t)
  | inr f ↦ inr (f, λ p. absurd (let e : eq_bytes a b ≡ true = rw p (eq_bytes_refl b) in cc))
]

module _ {V : Type 0} where
  unfoldable pub load : List (Bytes × V) → Bytes → Option V
  load [] j = none
  load ((k, v) ∷ t) j = if eq_bytes k j then some v else load t j

  unfoldable pub delete : List (Bytes × V) → Bytes → List (Bytes × V)
  delete [] j = []
  delete ((k, v) ∷ t) j = let rest = delete t j in if eq_bytes k j then rest else (k, v) ∷ rest

  unfoldable pub store : List (Bytes × V) → Bytes → V → List (Bytes × V)
  unfolding delete
  store t k v = (k, v) ∷ delete t k

  pub load-delete :
      (t : List (Bytes × V)) (k j : Bytes)
      → load (delete t k) j ≡ (if eq_bytes k j then none else load t j)
  unfolding load delete
  load-delete [] k j = ground arith
  load-delete ((i, v) ∷ t) k j =
      ground (arith, eq_bytes-cases i k, eq_bytes-cases i j, eq_bytes-cases k j, load-delete t k j)

  pub load-store :
      (t : List (Bytes × V)) (k : Bytes) (v : V) (j : Bytes)
      → load (store t k v) j ≡ (if eq_bytes k j then some v else load t j)
  unfolding load store
  load-store t k v j = ground (arith, load-delete t k j)
