-- ===== src/Cache/Ttl/Entries.antt =====
-- What the table of expiry times holds, and when its timer is set.
use ngbigcache.Base.{
  ℕ, ◌≤◌, ◌<◌, ◌≡◌, ◌≢◌, ◌⊎◌, ◌↔◌, ◌∙◌, sym, refl, ap, subst, inl, inr, Option-cases, none, some,
  Bool-cases, List, [], In, Bytes, arith, ◌==◌, ==-cases, eq→==, if◌then◌else◌,
}
use ngbigcache.Cache.Library.{Library}
use ngbigcache.Cache.Ttl.{TtlManager, put, remove, peek, interval, reset_timer, remove_head}

-- The keys of a tree that expire at a second.
abbrev pub tree_keys : (lib : Library) → lib.time_trees.Tree → ℕ → List Bytes
tree_keys lib tree timestamp = elim (lib.time_trees.get tree timestamp) [
  | none ↦ []
  | some set ↦ lib.sets.values set
]

abbrev pub keys_at : {lib : Library} → TtlManager lib → ℕ → List Bytes
keys_at {lib} table other = tree_keys lib table.time_tree other

module _ (lib : Library) (tree : lib.time_trees.Tree) where
  keys_put :
      (timestamp other : ℕ) (set : lib.sets.Set)
      → tree_keys lib (lib.time_trees.put tree timestamp set) other
        ≡ (if timestamp == other then lib.sets.values set else tree_keys lib tree other)
  keys_put timestamp other set = elim (Bool-cases (timestamp == other)) [
    | inl t ↦ rw (tree_keys, lib.time_trees.get-put tree timestamp set other, t) refl
    | inr f ↦ rw (tree_keys, lib.time_trees.get-put tree timestamp set other, f) refl
  ]

  keys_remove :
      (timestamp other : ℕ)
      → tree_keys lib (lib.time_trees.remove tree timestamp) other
        ≡ (if timestamp == other then [] else tree_keys lib tree other)
  keys_remove timestamp other = elim (Bool-cases (timestamp == other)) [
    | inl t ↦ rw (tree_keys, lib.time_trees.get-remove tree timestamp other, t) refl
    | inr f ↦ rw (tree_keys, lib.time_trees.get-remove tree timestamp other, f) refl
  ]

module _ {lib : Library} (ttl : TtlManager lib) (timestamp : ℕ) (key : Bytes) (now : ℕ) where
  -- The set that `put` writes, and the tree then.
  abbrev grown : lib.sets.Set
  grown = elim (lib.time_trees.get ttl.time_tree timestamp) [
    | none ↦ lib.sets.add lib.sets.new key
    | some set ↦ lib.sets.add set key
  ]

  put_tree :
      (put ttl timestamp key now).time_tree ≡ lib.time_trees.put ttl.time_tree timestamp grown
  unfolding put peek reset_timer
  put_tree = elim (Option-cases (lib.time_trees.get ttl.time_tree timestamp)) [
    | inl n ↦
        let tree = lib.time_trees.put ttl.time_tree timestamp (lib.sets.add lib.sets.new key) in
        rw (put, grown, n)
          (elim (Bool-cases (lib.time_trees.size tree == 1)) [
            | inl t ↦ rw t refl
            | inr f ↦ elim (Option-cases (lib.time_trees.first tree)) [
              | inl m ↦ rw (f, m) refl
              | inr ((k, set), m) ↦ elim (Bool-cases (k == timestamp)) [
                | inl b ↦ rw (f, m, b) refl
                | inr b ↦ rw (f, m, b) refl
              ]
            ]
          ])
    | inr (set, e) ↦ rw (put, grown, e) refl
  ]

  In-grown : (k : Bytes) → In k (lib.sets.values grown) ↔ ((k ≡ key) ⊎ In k (keys_at ttl timestamp))
  In-grown k = elim (Option-cases (lib.time_trees.get ttl.time_tree timestamp)) [
    | inl n ↦
        rw (n, grown, tree_keys, keys_at)
          (subst
            (λ vs. In k (lib.sets.values (lib.sets.add lib.sets.new key)) ↔ ((k ≡ key) ⊎ In k vs))
            lib.sets.values-new (lib.sets.values-add lib.sets.new key k))
    | inr (set, e) ↦ rw (e, grown, tree_keys, keys_at) (lib.sets.values-add set key k)
  ]

  -- After `put`, the keys that expire at a second are those that did, and the new key at its second.
  pub keys_at-put :
      (other : ℕ) (k : Bytes)
      → In k (keys_at (put ttl timestamp key now) other)
        ↔ (((other ≡ timestamp) × (k ≡ key)) ⊎ In k (keys_at ttl other))
  keys_at-put other k =
      rw (keys_at, put_tree, keys_put lib ttl.time_tree timestamp other grown)
        (elim (==-cases timestamp other) [
          | inl (t, e) ↦ rw t (
              subst
                (λ o.
                  In k (lib.sets.values grown)
                  ↔ (((o ≡ timestamp) × (k ≡ key)) ⊎ In k (keys_at ttl o)))
                e
                (
                  λ h. elim ((In-grown k).0 h) [ inl p ↦ inl (refl, p) | inr m ↦ inr m ],
                  λ h. elim h [ inl p ↦ (In-grown k).1 (inl p.1) | inr m ↦ (In-grown k).1 (inr m) ],
                ))
          | inr (t, n) ↦ rw t (λ h. inr h, λ h. elim h [ inl p ↦ absurd (n (sym p.0)) | inr m ↦ m ])
        ])

  -- Where the timestamp is new and earlier than every other one, `put` sets the timer to it.
  pub put-timer :
      lib.time_trees.get ttl.time_tree timestamp ≡ none
      → ((other : ℕ) (set : lib.sets.Set)
          → lib.time_trees.get ttl.time_tree other ≡ some set
          → timestamp < other)
      → (put ttl timestamp key now).timer ≡ some (interval timestamp now)
  unfolding put peek reset_timer
  put-timer fresh earliest =
      let tree = lib.time_trees.put ttl.time_tree timestamp (lib.sets.add lib.sets.new key) in
      let here : lib.time_trees.get tree timestamp ≡ some (lib.sets.add lib.sets.new key) =
        lib.time_trees.get-put ttl.time_tree timestamp (lib.sets.add lib.sets.new key) timestamp
        ∙ rw (eq→== timestamp timestamp refl) refl in
      rw (put, fresh)
        (elim (Bool-cases (lib.time_trees.size tree == 1)) [
          | inl t ↦ rw t refl
          | inr f ↦ elim (Option-cases (lib.time_trees.first tree)) [
            | inl m ↦ absurd (
                let z : lib.time_trees.get tree timestamp ≡ none =
                  lib.time_trees.first-eq-none tree timestamp m in
                cc)
            | inr ((k, set), m) ↦ elim (==-cases k timestamp) [
              | inl (b, e) ↦ rw (f, m, b) refl
              | inr (b, n) ↦
                  let there : lib.time_trees.get tree k ≡ some set =
                    lib.time_trees.get-first tree k set m in
                  let le : k ≤ timestamp = lib.time_trees.first-le tree k timestamp set _ m here in
                  let older : lib.time_trees.get ttl.time_tree k ≡ some set =
                    sym (
                      lib.time_trees.get-put ttl.time_tree timestamp (lib.sets.add lib.sets.new key)
                        k
                      ∙ ground (arith, n))
                    ∙ there in
                  absurd (omega (arith, earliest k set older))
            ]
          ]
        ])

  remove_tree :
      (set : lib.sets.Set)
      → lib.time_trees.get ttl.time_tree timestamp ≡ some set
      → (remove ttl timestamp key now).time_tree ≡ (
          if lib.sets.is_empty (lib.sets.remove set key)
          then lib.time_trees.remove
              (lib.time_trees.put ttl.time_tree timestamp (lib.sets.remove set key))
              timestamp
          else lib.time_trees.put ttl.time_tree timestamp (lib.sets.remove set key))
  unfolding remove remove_head peek reset_timer
  remove_tree set e =
      let less = lib.sets.remove set key in
      let tree = lib.time_trees.put ttl.time_tree timestamp less in
      let cut = lib.time_trees.remove tree timestamp in
      rw (remove, e)
        (elim (Bool-cases (lib.sets.is_empty less)) [
          | inr f ↦ rw f refl
          | inl t ↦ elim (Option-cases (lib.time_trees.first tree)) [
            | inl m ↦ rw (t, m) refl
            | inr ((k, head), m) ↦ elim (Bool-cases (k == timestamp)) [
              | inr b ↦ rw (t, m, b) refl
              | inl b ↦ elim (Option-cases (lib.time_trees.first cut)) [
                | inl n ↦ rw (t, m, b, remove_head, n) refl
                | inr ((j, next), n) ↦ rw (t, m, b, remove_head, n) refl
              ]
            ]
          ]
        ])

  -- The keys that are left, where the timestamp was in the tree.
  keys_left :
      (set : lib.sets.Set) (other : ℕ)
      → lib.time_trees.get ttl.time_tree timestamp ≡ some set
      → keys_at (remove ttl timestamp key now) other ≡ (
          if timestamp == other
          then lib.sets.values (lib.sets.remove set key)
          else keys_at ttl other)
  keys_left set other e =
      let less = lib.sets.remove set key in
      let tree = lib.time_trees.put ttl.time_tree timestamp less in
      rw (keys_at, remove_tree set e)
        (elim (Bool-cases (lib.sets.is_empty less)) [
          | inr f ↦ rw f (keys_put lib ttl.time_tree timestamp other less)
          | inl t ↦ rw t (
              keys_remove lib tree timestamp other ∙ elim (Bool-cases (timestamp == other)) [
                | inl b ↦ rw b (sym ((lib.sets.is_empty_iff less).0 t))
                | inr b ↦ rw (b, keys_put lib ttl.time_tree timestamp other less, b) refl
              ])
        ])

  remove_absent :
      lib.time_trees.get ttl.time_tree timestamp ≡ none
      → (remove ttl timestamp key now).time_tree ≡ ttl.time_tree
  unfolding remove
  remove_absent n = rw (remove, n) refl

  -- After `remove`, the keys that expire at a second are those that did, but the key at its second.
  pub keys_at-remove :
      (other : ℕ) (k : Bytes)
      → In k (keys_at (remove ttl timestamp key now) other)
        ↔ (((other ≢ timestamp) ⊎ (k ≢ key)) × In k (keys_at ttl other))
  keys_at-remove other k = elim (Option-cases (lib.time_trees.get ttl.time_tree timestamp)) [
    | inl n ↦
        rw (keys_at, remove_absent n)
          (
            λ h. elim (==-cases timestamp other) [
              | inl (t, e) ↦
                  let z : tree_keys lib ttl.time_tree other ≡ [] =
                    ap (λ o. tree_keys lib ttl.time_tree o) (sym e) ∙ rw (tree_keys, n) refl in
                  elim (subst (λ vs. In k vs) z h) [ ]
              | inr (t, m) ↦ (inl (λ p. m (sym p)), h)
            ],
            λ h. h.1,
          )
    | inr (set, e) ↦ rw (keys_left set other e) (elim (==-cases timestamp other) [
      | inr (t, m) ↦ rw t (λ h. (inl (λ p. m (sym p)), h), λ h. h.1)
      | inl (t, p) ↦
          let here : lib.sets.values set ≡ keys_at ttl other =
            sym (ap (λ o. keys_at ttl o) (sym p) ∙ rw (keys_at, tree_keys, e) refl) in
          rw t (
            λ h.
                let r = (lib.sets.values-remove set key k).0 h in
                (inr r.0, subst (λ vs. In k vs) here r.1),
            λ h. elim h.0 [
              | inl q ↦ absurd (q (sym p))
              | inr q ↦
                  (lib.sets.values-remove set key k).1 (q, subst (λ vs. In k vs) (sym here) h.1)
            ],
          )
    ])
  ]
