-- ===== src/Base/Returns.antt =====
-- A property of the value that a Go call returns, if it returns.
use mathlib.Core.Path.{◌≡◌, refl, subst}
use mathlib.Core.Bool.{Bool, true, false}
use mathlib.Core.Option.{Option, none, some}
use mathlib.Core.List.{List, [], ◌∷◌}
use ngbigcache.Base.Tests.{if◌then◌else◌}
use ngbigcache.Base.Outcome.{Run, ok, panic, blocked, ◌>>=◌, Result, value, error}

-- Every value that is returned has the property.
abbrev pub Holds {ℓ κ} : {A : Type ℓ} → (A → Type κ) → Run A → Type κ
Holds P (ok a) = P a
Holds P panic = Unit
Holds P blocked = Unit

pub Holds-bind {ℓ κ ι} :
    {A : Type ℓ} {B : Type κ} (P : B → Type ι) (m : Run A) (k : A → Run B)
    → ((a : A) → m ≡ ok a → Holds P (k a))
    → Holds P (m >>= k)
Holds-bind P (ok a) k h = h a refl
Holds-bind P panic k h = tt
Holds-bind P blocked k h = tt

pub Holds-ok {ℓ κ} : {A : Type ℓ} (P : A → Type κ) (m : Run A) (a : A) → Holds P m → m ≡ ok a → P a
Holds-ok P m a h e = subst (Holds P) e h

pub Holds-if {ℓ κ} :
    {A : Type ℓ} (P : A → Type κ) (b : Bool) (m n : Run A)
    → (b ≡ true → Holds P m)
    → (b ≡ false → Holds P n)
    → Holds P (if b then m else n)
Holds-if P true m n h k = h refl
Holds-if P false m n h k = k refl

pub Holds-option {ℓ κ ι} :
    {A : Type ℓ} {B : Type κ} (P : B → Type ι) (o : Option A) (n : Run B) (k : A → Run B)
    → (o ≡ none → Holds P n)
    → ((a : A) → o ≡ some a → Holds P (k a))
    → Holds P (elim o [ none ↦ n | some a ↦ k a ])
Holds-option P none n k f g = f refl
Holds-option P (some a) n k f g = g a refl

pub Holds-list {ℓ κ ι} :
    {A : Type ℓ} {B : Type κ} (P : B → Type ι) (xs : List A) (n : Run B) (k : A → List A → Run B)
    → (xs ≡ [] → Holds P n)
    → ((a : A) (rest : List A) → xs ≡ a ∷ rest → Holds P (k a rest))
    → Holds P (elim xs [ [] ↦ n | a ∷ rest ↦ k a rest ])
Holds-list P [] n k f g = f refl
Holds-list P (x ∷ xs) n k f g = g x xs refl

pub if-both {ℓ κ} :
    {A : Type ℓ} (P : A → Type κ) (b : Bool) (x y : A) → P x → P y → P (if b then x else y)
if-both P true x y h k = h
if-both P false x y h k = k

pub Holds-result {ℓ κ ι ν} :
    {E : Type κ} {A : Type ℓ} {B : Type ν} (P : B → Type ι) (r : Result E A) (f : E → Run B)
    (g : A → Run B)
    → ((e : E) → Holds P (f e))
    → ((a : A) → Holds P (g a))
    → Holds P (elim r [ error e ↦ f e | value a ↦ g a ])
Holds-result P (error e) f g h k = h e
Holds-result P (value a) f g h k = k a
