-- ===== src/Utils/SliceList/Laws.antt =====
-- What `Contains` and `Get` say after `Add` and `Remove`.
use ngbigcache.Base.{
  subst, ◌+◌, ◌-◌, ◌≡◌, ◌∙◌, refl, sym, ap, true, false, none, some, Option-cases, List, [], ◌∷◌,
  if◌then◌else◌, length, Bytes, eq_bytes, eq_bytes_refl, arith, inl, inr,
}
use ngbigcache.Base.Dict.{load, store, delete, load-store, load-delete, eq_bytes-cases}
use ngbigcache.Utils.SliceList.{SliceList, add, remove, get, contains}

module _ {A : Type 0} where
  remove_absent :
      (list : SliceList A) (key : Bytes) → load list.items key ≡ none → remove list key ≡ list
  unfolding remove
  remove_absent list key e = rw (remove, e) refl

  remove_present :
      (list : SliceList A) (key : Bytes) (value : A)
      → load list.items key ≡ some value
      → remove list key ≡ record { items = delete list.items key; size = list.size - 1 }
  unfolding remove
  remove_present list key value e = rw (remove, e) refl

module _ {A : Type 0} (list : SliceList A) (key : Bytes) where
  pub get-add :
      (value : A) (other : Bytes)
      → get (add list key value) other ≡ (if eq_bytes key other then some value else get list other)
  unfolding get add
  get-add value other = load-store list.items key value other

  pub get-remove :
      (other : Bytes)
      → get (remove list key) other ≡ (if eq_bytes key other then none else get list other)
  unfolding get remove
  get-remove other = elim (Option-cases (load list.items key)) [
    | inl e ↦ ap (λ l. get l other) (remove_absent list key e) ∙ elim (eq_bytes-cases key other) [
      | inl (b, q) ↦ rw b (ap (load list.items) (sym q) ∙ e)
      | inr (b, n) ↦ rw b refl
    ]
    | inr (v, e) ↦
        ap (λ l. get l other) (remove_present list key v e) ∙ load-delete list.items key other
  ]

  pub contains-get : contains list key ≡ elim (get list key) [ none ↦ false | some value ↦ true ]
  unfolding contains get
  contains-get = refl

  pub contains-none : contains list key ≡ false → get list key ≡ none
  contains-none f = elim (Option-cases (get list key)) [
    | inl e ↦ e
    | inr (v, e) ↦ absurd (let t : contains list key ≡ true = contains-get ∙ rw e refl in cc)
  ]

pub contains-remove_self :
    {A : Type 0} (list : SliceList A) (key : Bytes) → contains (remove list key) key ≡ false
contains-remove_self list key =
    rw (contains-get (remove list key) key, get-remove list key key, eq_bytes_refl key) refl

-- The counter says how many keys there are.
abbrev pub Unique : {A : Type 0} → List (Bytes × A) → Type 0
Unique [] = Unit
Unique ((k, v) ∷ t) = (load t k ≡ none) × Unique t

abbrev pub IsCounted : {A : Type 0} → SliceList A → Type 0
IsCounted list = (list.size ≡ length list.items) × Unique list.items

module _ {A : Type 0} where
  delete_absent : (t : List (Bytes × A)) (k : Bytes) → load t k ≡ none → delete t k ≡ t
  unfolding load delete
  delete_absent [] k e = refl
  delete_absent ((i, v) ∷ t) k e = elim (eq_bytes-cases i k) [
    | inl (b, q) ↦ absurd (let f : some v ≡ none = rw b at e in cc)
    | inr (b, n) ↦ rw (b, delete_absent t k (rw b at e)) refl
  ]

  length-delete :
      (t : List (Bytes × A)) (k : Bytes) (v : A)
      → Unique t
      → load t k ≡ some v
      → length t ≡ length (delete t k) + 1
  unfolding load delete
  length-delete [] k v u e = absurd (let f : none ≡ some v = e in cc)
  length-delete ((i, w) ∷ t) k v u e = elim (eq_bytes-cases i k) [
    | inl (b, q) ↦ rw (b, delete_absent t k (ap (load t) (sym q) ∙ u.0)) (omega arith)
    | inr (b, n) ↦ rw (b, length-delete t k v u.1 (rw b at e)) (omega arith)
  ]

  Unique-delete : (t : List (Bytes × A)) (k : Bytes) → Unique t → Unique (delete t k)
  unfolding delete
  Unique-delete [] k u = u
  Unique-delete ((i, w) ∷ t) k u = elim (eq_bytes-cases i k) [
    | inl (b, q) ↦ rw b (Unique-delete t k u.1)
    | inr (b, n) ↦ rw b (load-delete t k i ∙ ground (arith, u.0), Unique-delete t k u.1)
  ]

  -- If the key is not in the list, then `Add` keeps the counter right.
  pub add-IsCounted :
      (list : SliceList A) (key : Bytes) (value : A)
      → get list key ≡ none
      → IsCounted list
      → IsCounted (add list key value)
  unfolding add get store
  add-IsCounted list key value absent counted =
      let e = delete_absent list.items key absent in
      rw e ((omega (arith, counted.0), (absent, counted.1)))

  pub remove-IsCounted :
      (list : SliceList A) (key : Bytes) → IsCounted list → IsCounted (remove list key)
  remove-IsCounted list key counted = elim (Option-cases (load list.items key)) [
    | inl e ↦ subst IsCounted (sym (remove_absent list key e)) counted
    | inr (v, e) ↦
        let less : list.size - 1 ≡ length (delete list.items key) =
          omega (arith, counted.0, length-delete list.items key v counted.1 e) in
        subst IsCounted (sym (remove_present list key v e))
          (less, Unique-delete list.items key counted.1)
  ]
