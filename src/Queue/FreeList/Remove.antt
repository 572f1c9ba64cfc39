-- ===== src/Queue/FreeList/Remove.antt =====
-- The ways in which a listed item leaves the free list: by its pointer, as `add` removes a
-- neighbour that it merges, or by its position, as `find_in_size_list` removes what it takes.
use ngbigcache.Base.{
  ℕ, suc, ◌+◌, ◌-◌, ◌≤◌, ◌≡◌, ◌≢◌, refl, sym, subst, ◌∙◌, inl, inr, Option, none, some, [], ◌∷◌,
  List, In, Distinct, remove_at, get_elem?, not_In-remove_at, In-remove_at, Distinct-remove_at,
  In-get_elem?, arith, ==-cases, ap,
}
use mathlib.Core.Option.{some-injective}
use ngbigcache.Gods.{AvlTree}
use ngbigcache.Queue.FreeList.{
  FreeList, size_class, update, list_pos, list_pos_from, remove_from_size_list,
}
use ngbigcache.Queue.FreeList.Valid.{IsValid}

-- `listPos` returns a position of the pointer, and -1 only if there is none.
list_pos_from-some :
    (x v : ℕ) (ys : List ℕ) (i : ℕ)
    → list_pos_from x v ys ≡ some i
    → (x ≤ i) × (get_elem? ys (i - x) ≡ some v)
unfolding list_pos_from
list_pos_from-some x v [] i e = absurd (cc)
list_pos_from-some x v (y ∷ ys) i e = elim (==-cases v y) [
  | inl (t, p) ↦
      let q : x ≡ i = some-injective _ _ (rw t at e) in
      let z : i - x ≡ 0 = omega arith in (omega arith, rw z (ap some (sym p)))
  | inr (t, p) ↦
      let ih = list_pos_from-some (x + 1) v ys i (rw t at e) in
      let z : i - x ≡ suc (i - (x + 1)) = omega (arith, ih.0) in (omega (arith, ih.0), rw z ih.1)
]

list_pos_from-none : (x v : ℕ) (ys : List ℕ) → list_pos_from x v ys ≡ none → ¬ (In v ys)
unfolding list_pos_from
list_pos_from-none x v [] e h = h
list_pos_from-none x v (y ∷ ys) e h = elim (==-cases v y) [
  | inl (t, p) ↦ let q : some x ≡ none = rw t at e in cc
  | inr (t, p) ↦ elim h [ inl r ↦ p r | inr r ↦ list_pos_from-none (x + 1) v ys (rw t at e) r ]
]

pub list_pos-some : (v : ℕ) (ys : List ℕ) (i : ℕ) → list_pos v ys ≡ some i → get_elem? ys i ≡ some v
unfolding list_pos
list_pos-some v ys i e =
    let z : i - 0 ≡ i = omega arith in rw z at (list_pos_from-some 0 v ys i e).1

pub list_pos-none : (v : ℕ) (ys : List ℕ) → list_pos v ys ≡ none → ¬ (In v ys)
unfolding list_pos
list_pos-none v ys = list_pos_from-none 0 v ys

module _ {avl : AvlTree ℕ} (list : FreeList avl) (valid : IsValid list) (v : ℕ) where
  -- After the removal at position `i` of list `c`, no list holds the item that stood there.
  pub remove_at_left :
      (c i : ℕ)
      → get_elem? (list.size_list c) i ≡ some v
      → (d y : ℕ) → In y (update list.size_list c (remove_at i (list.size_list c)) d)
      → In y (list.size_list d) × (y ≢ v)
  remove_at_left c i e d y h = elim (==-cases c d) [
    | inl (t, p) ↦
        let k : In y (remove_at i (list.size_list c)) = rw t at h in
        (
          subst (λ z. In y (list.size_list z)) p (In-remove_at y (list.size_list c) i k),
          λ q.
              not_In-remove_at v (list.size_list c) i (valid.distinct c) e
                (subst (λ z. In z (remove_at i (list.size_list c))) q k),
        )
    | inr (t, p) ↦
        let k : In y (list.size_list d) = rw t at h in
        (
          k,
          λ q. p (
              some-injective _ _ (
                sym (valid.listed c v (In-get_elem? v (list.size_list c) i e)).1
                ∙ (valid.listed d v (subst (λ z. In z (list.size_list d)) q k)).1)),
        )
  ]

  pub remove_at_once :
      (c i d : ℕ) → Distinct (update list.size_list c (remove_at i (list.size_list c)) d)
  remove_at_once c i d = elim (==-cases c d) [
    | inl (t, p) ↦ rw t (Distinct-remove_at (list.size_list c) i (valid.distinct c))
    | inr (t, p) ↦ rw t (valid.distinct d)
  ]

  abbrev at_pos : ℕ → Option ℕ → ℕ → List ℕ
  at_pos c none = list.size_list
  at_pos c (some i) = update list.size_list c (remove_at i (list.size_list c))

  abbrev at_class : Option ℕ → ℕ → List ℕ
  at_class none = list.size_list
  at_class (some c) = at_pos c (list_pos v (list.size_list c))

  -- The size lists after `removeFromSizeList`.
  abbrev pub lists_without : ℕ → List ℕ
  lists_without = at_class (size_class (list.items v).actual_size)

  pub remove_from_size_list_lem :
      (tree : avl.Tree)
      → remove_from_size_list (record list { index_tree = tree }) v
        ≡ record list { index_tree = tree; size_list = lists_without }
  unfolding remove_from_size_list
  remove_from_size_list_lem tree = ground arith

  in_class : (d : ℕ) → In v (list.size_list d) → size_class (list.items v).actual_size ≡ some d
  in_class d h = (valid.listed d v h).1

  pub lists_without_left : (d y : ℕ) → In y (lists_without d) → In y (list.size_list d) × (y ≢ v)
  lists_without_left d y h = by_class (size_class (list.items v).actual_size) refl h
    where
      by_pos :
          (c : ℕ) (o : Option ℕ)
          → size_class (list.items v).actual_size ≡ some c
          → list_pos v (list.size_list c) ≡ o
          → In y (at_pos c o d)
          → In y (list.size_list d) × (y ≢ v)
      by_pos c none s e k = (
        k,
        λ q.
            let m : In v (list.size_list d) = subst (λ z. In z (list.size_list d)) q k in
            let p : d ≡ c = some-injective _ _ (sym (in_class d m) ∙ s) in
            list_pos-none v (list.size_list c) e (subst (λ z. In v (list.size_list z)) p m),
      )
      by_pos c (some i) s e k = remove_at_left c i (list_pos-some v (list.size_list c) i e) d y k

      by_class :
          (o : Option ℕ)
          → size_class (list.items v).actual_size ≡ o
          → In y (at_class o d)
          → In y (list.size_list d) × (y ≢ v)
      by_class none e k =
          (k, λ q. let m = in_class d (subst (λ z. In z (list.size_list d)) q k) in cc)
      by_class (some c) e k = by_pos c (list_pos v (list.size_list c)) e refl k

  pub lists_without_once : (d : ℕ) → Distinct (lists_without d)
  lists_without_once d = by_class (size_class (list.items v).actual_size)
    where
      by_pos : (c : ℕ) (o : Option ℕ) → Distinct (at_pos c o d)
      by_pos c none = valid.distinct d
      by_pos c (some i) = remove_at_once c i d

      by_class : (o : Option ℕ) → Distinct (at_class o d)
      by_class none = valid.distinct d
      by_class (some c) = by_pos c (list_pos v (list.size_list c))
