-- ===== src/Utils/SliceList.antt =====
-- utils/sliceList.go: a concurrent map with a counter. A value of the model is never nil, and the
-- counter, an int32, is not taken modulo 2^32.
pub mod Laws
use ngbigcache.Base.{ℕ, ◌+◌, ◌-◌, Bool, true, false, Option, none, some, List, [], ◌∷◌, Bytes}
use ngbigcache.Base.Dict.{load, store, delete}

pub record SliceList (A : Type 0) : Type 0 where
  pub items : List (Bytes × A)
  pub size : ℕ

-- `NewSliceList`
unfoldable pub new_slice_list : (A : Type 0) → SliceList A
new_slice_list A = record { items = []; size = 0 }

abbrev pub seconds : {A : Type 0} → List (Bytes × A) → List A
seconds [] = []
seconds ((k, v) ∷ t) = v ∷ seconds t

module _ {A : Type 0} where
  -- `Add`
  unfoldable pub add : SliceList A → Bytes → A → SliceList A
  add list key value = record { items = store list.items key value; size = list.size + 1 }

  -- `Contains`
  unfoldable pub contains : SliceList A → Bytes → Bool
  contains list key = elim (load list.items key) [ none ↦ false | some value ↦ true ]

  -- `Size`
  unfoldable pub size_of : SliceList A → ℕ
  size_of list = list.size

  -- `Remove`
  unfoldable pub remove : SliceList A → Bytes → SliceList A
  remove list key = elim (load list.items key) [
    | none ↦ list
    | some value ↦ record { items = delete list.items key; size = list.size - 1 }
  ]

  -- `Get`
  unfoldable pub get : SliceList A → Bytes → Option A
  get list key = load list.items key

  -- `Values`, in the order of the map
  unfoldable pub values : SliceList A → List A
  values list = seconds list.items

  -- `Keys`
  unfoldable pub keys : SliceList A → List (Bytes × A)
  keys list = list.items
