-- ===== src/Queue/FreeList/Find.antt =====
-- `find` takes the block that it returns out of the free positions, and changes nothing if no
-- listed item is large enough.
use ngbigcache.Base.{
  ℕ, zero, suc, ◌+◌, ◌-◌, ◌*◌, ◌≤◌, ◌<◌, ◌≡◌, refl, subst, inl, inr, none, some, In, arith,
  if◌then◌else◌, ==-cases, leb, ltb, Bool-cases, Option, List, [], ◌∷◌, get_elem?, leb→le,
  leb-false, ltb→lt, ltb-false, Option-cases,
}
use native.Mathlib.Decide.{dec_lt}
use native.Mathlib.Numerals.{add-one}
use ngbigcache.Gods.{AvlTree}
use ngbigcache.Queue.FreeList.{
  FreeList, size_class, find_start, scan, find_in_size_list, find_loop, find,
}
use ngbigcache.Queue.FreeList.Valid.{IsValid, Taken}
use ngbigcache.Queue.FreeList.Take.{Bucket, take_item-Taken}

-- The bucket size of the next round of `find` is that of the next list.
next_Bucket :
    (idx size buck_size : ℕ)
    → idx ≤ 6
    → Bucket idx size buck_size
    → Bucket (idx + 1) size (if ltb idx 6 then buck_size * 2 else 4097)
next_Bucket idx size buck_size h b = elim (Bool-cases (ltb idx 6)) [
  | inl t ↦ elim b [
    | inl (_, e) ↦ rw t (inl (omega (arith, ltb→lt idx 6 t), rw add-one (rw e)))
    | inr (inl (_, e)) ↦ rw t (inr (inl (omega (arith, ltb→lt idx 6 t), e)))
    | inr (inr (e, _)) ↦ absurd (omega arith)
  ]
  | inr f ↦ rw f (inr (inr (omega (arith, ltb-false idx 6 f), refl)))
]

find_start-Bucket :
    (size : ℕ) → Bucket (find_start size).0 size (find_start size).1 × ((find_start size).0 ≤ 7)
unfolding find_start
find_start-Bucket size = ground arith

-- A list before the one at which `find` starts holds smaller items, and no list stands behind
-- the eighth.
early_smaller : (size c a : ℕ) → c < (find_start size).0 → size_class a ≡ some c → a < size
unfolding find_start size_class
early_smaller size c a h e = ground arith

class-le : (c a : ℕ) → size_class a ≡ some c → c ≤ 7
unfolding size_class
class-le c a e = ground arith

module _ {avl : AvlTree ℕ} where
  -- No item of the list is as large as `size`.
  abbrev AllSmaller : FreeList avl → ℕ → List ℕ → Type 0
  AllSmaller list size ys = (y : ℕ) → In y ys → (list.items y).actual_size < size

  -- A search ends with a block that it took, or with the list as it was.
  abbrev Finds : FreeList avl → ℕ → FreeList avl → Option ℕ → Type 0 → Type 0
  Finds list size after none P = (after ≡ list) × P
  Finds list size after (some i) P = Taken list size i after

  Finds-map :
      {P Q : Type 0} (list : FreeList avl) (size : ℕ) (after : FreeList avl) (o : Option ℕ)
      → (P → Q)
      → Finds list size after o P
      → Finds list size after o Q
  Finds-map list size after none f (e, p) = (e, f p)
  Finds-map list size after (some i) f t = t

  module _ (list : FreeList avl) (valid : IsValid list) (size : ℕ) (positive : 1 ≤ size) where
    AllSmaller-cons :
        (y : ℕ) (ys : List ℕ)
        → (list.items y).actual_size < size
        → AllSmaller list size ys
        → AllSmaller list size (y ∷ ys)
    AllSmaller-cons y ys h hs z (inl e) = rw e h
    AllSmaller-cons y ys h hs z (inr m) = hs z m

    scan-Finds :
        (idx buck_size x : ℕ) (ys : List ℕ)
        → Bucket idx size buck_size
        → ((i y j : ℕ)
            → get_elem? ys i ≡ some y
            → j ≡ x + i
            → get_elem? (list.size_list idx) j ≡ some y)
        → Finds list size
            (scan list idx size buck_size x ys).0
            (scan list idx size buck_size x ys).1
            (AllSmaller list size ys)
    unfolding scan
    scan-Finds idx buck_size x [] b at = (refl, λ y h. elim h [ ])
    scan-Finds idx buck_size x (tmp ∷ rest) b at =
        elim (Bool-cases (leb size (list.items tmp).actual_size)) [
          | inl t ↦ rw t (
              take_item-Taken list valid idx x tmp (at 0 tmp x refl (omega arith)) size buck_size
                positive (leb→le _ _ t) b)
          | inr f ↦ rw f (
              Finds-map list size _ (scan list idx size buck_size (x + 1) rest).1
                (AllSmaller-cons tmp rest (leb-false _ _ f))
                (scan-Finds idx buck_size (x + 1) rest b
                  (λ i y j e p. at (suc i) y j e (omega arith))))
        ]

    find_in_size_list-Finds :
        (idx buck_size : ℕ)
        → Bucket idx size buck_size
        → Finds list size
            (find_in_size_list list idx size buck_size).0
            (find_in_size_list list idx size buck_size).1
            (AllSmaller list size (list.size_list idx))
    unfolding find_in_size_list
    find_in_size_list-Finds idx buck_size b =
        scan-Finds idx buck_size 0 (list.size_list idx) b
          (λ i y j e p. let q : j ≡ i = omega arith in rw q e)

    find_loop-Finds :
        (rounds idx buck_size : ℕ)
        → rounds + idx ≡ 8
        → (idx ≤ 7 → Bucket idx size buck_size)
        → Finds list size
            (find_loop rounds list idx size buck_size).0
            (find_loop rounds list idx size buck_size).1
            ((c y : ℕ)
              → idx ≤ c
              → c ≤ 7
              → In y (list.size_list c)
              → (list.items y).actual_size < size)
    unfolding find_loop
    find_loop-Finds zero idx buck_size e b = (refl, λ c y lo hi m. absurd (omega arith))
    find_loop-Finds (suc rounds) idx buck_size e b =
        let found = find_in_size_list-Finds idx buck_size (b (omega arith)) in
        elim (Option-cases (find_in_size_list list idx size buck_size).1) [
          | inl n ↦
              let f : Finds list size (find_in_size_list list idx size buck_size).0 none
                  (AllSmaller list size (list.size_list idx)) =
                rw n at found in
              rw (n, find_loop, f.0)
                (Finds-map list size _
                  (find_loop rounds list (idx + 1) size
                    (if ltb idx 6 then buck_size * 2 else 4097)).1
                  (λ more c y lo hi m. elim (==-cases c idx) [
                    | inl (t, p) ↦ f.1 y (subst (λ k. In y (list.size_list k)) p m)
                    | inr (t, q) ↦ more c y (omega arith) hi m
                  ])
                  (find_loop-Finds rounds (idx + 1) (if ltb idx 6 then buck_size * 2 else 4097)
                    (omega arith)
                    (λ le. next_Bucket idx size buck_size (omega arith) (b (omega arith)))))
          | inr (i, s) ↦ rw (s, find_loop) (rw s (rw s at found))
        ]

    find-Finds : Finds list size (find list size).0 (find list size).1 (
        (c y : ℕ)
        → (find_start size).0 ≤ c
        → c ≤ 7
        → In y (list.size_list c)
        → (list.items y).actual_size < size)
    unfolding find
    find-Finds =
        let (b, h) = find_start-Bucket size in
        find_loop-Finds (8 - (find_start size).0) (find_start size).0 (find_start size).1
          (omega arith) (λ _. b)

  -- If the free list is valid, the size is at least 1 and `find` returns an index, then the `size`
  -- positions from the index on were free, they are not free any more, no other position became
  -- free, and the free list is valid.
  pub find-some :
      (list : FreeList avl) (size index : ℕ)
      → IsValid list
      → 1 ≤ size
      → (find list size).1 ≡ some index
      → Taken list size index (find list size).0
  find-some list size index valid pos e = rw e at (find-Finds list valid size pos)

  -- If the free list is valid, the size is at least 1 and `find` returns nothing, then it changed
  -- nothing, and every block in a size list is smaller than the size.
  pub find-none :
      (list : FreeList avl) (size : ℕ)
      → IsValid list
      → 1 ≤ size
      → (find list size).1 ≡ none
      → ((find list size).0 ≡ list)
        × ((c y : ℕ) → In y (list.size_list c) → (list.items y).actual_size < size)
  find-none list size valid pos e =
      let f : Finds list size (find list size).0 none _ =
        rw e at (find-Finds list valid size pos) in
      (
        f.0,
        λ c y m.
            let class = (valid.listed c y m).1 in
            elim (dec_lt c (find_start size).0) [
              | yes lt ↦ early_smaller size c (list.items y).actual_size lt class
              | no ge ↦ f.1 c y (omega arith) (class-le c _ class) m
            ],
      )
