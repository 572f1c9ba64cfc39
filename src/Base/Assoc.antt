-- ===== src/Base/Assoc.antt =====
-- Association lists keyed by numbers: a Go map, whose order of iteration is that of the list.
use Prim.Native.Nat.{ℕ}
use mathlib.Core.Path.{◌≡◌}
use mathlib.Core.Option.{Option, none, some}
use mathlib.Core.List.{List, [], ◌∷◌}
use native.Mathlib.Omega.{arith}
use ngbigcache.Base.Tests.{◌==◌, if◌then◌else◌}

module _ {V : Type 0} where
  unfoldable pub get : List (ℕ × V) → ℕ → Option V
  get [] j = none
  get ((k, v) ∷ t) j = if k == j then some v else get t j

  unfoldable pub remove : List (ℕ × V) → ℕ → List (ℕ × V)
  remove [] j = []
  remove ((k, v) ∷ t) j = let rest = remove t j in if k == j then rest else (k, v) ∷ rest

  unfoldable pub put : List (ℕ × V) → ℕ → V → List (ℕ × V)
  unfolding remove
  put t k v = (k, v) ∷ remove t k

  pub get-remove :
      (t : List (ℕ × V)) (k j : ℕ) → get (remove t k) j ≡ (if k == j then none else get t j)
  unfolding get remove
  get-remove [] k j = ground arith
  get-remove ((i, v) ∷ t) k j = ground (arith, get-remove t k j)

  pub get-put :
      (t : List (ℕ × V)) (k : ℕ) (v : V) (j : ℕ)
      → get (put t k v) j ≡ (if k == j then some v else get t j)
  unfolding get put
  get-put t k v j = ground (arith, get-remove t k j)
