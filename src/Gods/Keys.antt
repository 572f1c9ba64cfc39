-- ===== src/Gods/Keys.antt =====
-- Lists of keys satisfy what `ngbigcache.Gods` asks of a set. They stand for the package where a
-- theorem is applied to concrete data.
use ngbigcache.Base.{
  ◌≡◌, ◌≢◌, ◌↔◌, inl, inr, refl, ◌∙◌, Bool, true, false, List, [], ◌∷◌, if◌then◌else◌, In, Bytes,
  eq_bytes, eq_bytes_refl, eq_bytes→eq, Bool-cases,
}
use ngbigcache.Gods.{HashSet}

unfoldable pub remove : List Bytes → Bytes → List Bytes
remove [] k = []
remove (j ∷ s) k = let rest = remove s k in if eq_bytes j k then rest else j ∷ rest

unfoldable pub is_empty : List Bytes → Bool
is_empty [] = true
is_empty (j ∷ s) = false

ne→eq_bytes_false : (j k : Bytes) → eq_bytes j k ≡ false → j ≢ k
ne→eq_bytes_false j k e p = absurd (let h : eq_bytes j k ≡ true = rw p (eq_bytes_refl k) in cc)

pub In-remove : (s : List Bytes) (k j : Bytes) → In j (remove s k) ↔ ((j ≢ k) × In j s)
unfolding remove
In-remove [] k j = (λ h. elim h [ ], λ h. elim h.1 [ ])
In-remove (i ∷ s) k j = elim (Bool-cases (eq_bytes i k)) [
  | inl t ↦ rw t (
    λ h. let r = (In-remove s k j).0 h in (r.0, inr r.1),
    λ h. elim h.1 [
      | inl p ↦ absurd (h.0 (p ∙ eq_bytes→eq i k t))
      | inr m ↦ (In-remove s k j).1 (h.0, m)
    ],
  )
  | inr f ↦ rw f (
    λ h. elim h [
      | inl p ↦ (rw p (ne→eq_bytes_false i k f), inl p)
      | inr m ↦ let r = (In-remove s k j).0 m in (r.0, inr r.1)
    ],
    λ h. elim h.1 [ inl p ↦ inl p | inr m ↦ inr ((In-remove s k j).1 (h.0, m)) ],
  )
]

pub is_empty_nil : (s : List Bytes) → (is_empty s ≡ true) ↔ (s ≡ [])
unfolding is_empty
is_empty_nil [] = (λ e. refl, λ e. refl)
is_empty_nil (j ∷ s) = (λ e. absurd (cc), λ e. absurd (cc))

abbrev pub key_set : HashSet
key_set = record {
  Set = List Bytes;
  new = [];
  add = λ s k. k ∷ s;
  remove = remove;
  values = λ s. s;
  is_empty = is_empty;
  values-new = refl;
  values-add = λ s k j. (λ h. h, λ h. h);
  values-remove = In-remove;
  is_empty_iff = is_empty_nil;
}
