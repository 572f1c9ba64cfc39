-- ===== src/Cache/Shard/Evict/Pass.antt =====
-- What `evictDel` of bigcache/shard.go removes.
use ngbigcache.Base.{
  ok-injective, ℕ, ◌≡◌, ◌⊎◌, ◌∙◌, refl, sym, ap, subst, some, none, ==-cases, inl, inr, In, Bytes,
  ok, blocked, List, [], ◌∷◌, value, error, Option-cases, arith, if◌then◌else◌,
}
use ngbigcache.Base.Assoc as assoc
use ngbigcache.Queue.BytesQueue.Layout.{Entries}
use ngbigcache.Cache.Encoding.RoundTrip.{layout, read_key-wrapped, read_entry-wrapped}
use ngbigcache.Cache.Encoding.{read_key_from_entry, read_entry}
use ngbigcache.Cache.Library.{Library}
use ngbigcache.Cache.Shard.{Shard, get, entry_not_found}
use ngbigcache.Cache.Shard.Get.{get_lem, get_miss, queue_get}
use ngbigcache.Cache.Shard.Set.{Caches, answer}
use ngbigcache.Cache.Shard.Evict.{evict_keys, evict_del}
use ngbigcache.Cache.Shard.Evict.Key.{CallbackReturns, HasStamp, Stays, kept, taken, evict_key_lem}

module _ {lib : Library} where
  -- Two well-formed shards that have the same entry under a hash answer alike.
  Stays-answer :
      (s s' : Shard lib) (es es' : Entries) (hash : ℕ)
      → Caches s es
      → Caches s' es'
      → Stays s s' hash
      → (key : Bytes) → answer (get s' key hash) ≡ answer (get s key hash)
  Stays-answer s s' es es' hash keeps keeps' (same, read) asked =
      elim (Option-cases (assoc.get s.hashmap hash)) [
        | inl n ↦
            rw
              (
                get_miss s keeps.unlocked asked hash n,
                get_miss s' keeps'.unlocked asked hash (same ∙ n),
              )
              refl
        | inr (i, f) ↦
            let (d, m, (t, k, v, st, hf, kf, p)) = keeps.indexed hash i (λ x. x) f in
            let (d', m', (t', k', v', st', hf', kf', p')) =
              keeps'.indexed hash i (λ x. x) (same ∙ f) in
            let held : In (i, layout t hash k v) es = rw⁻¹ p m in
            let held' : In (i, layout t' hash k' v') es' = rw⁻¹ p' m' in
            let found : value (layout t' hash k' v') ≡ value (layout t hash k v) =
              ok-injective _ _ (
                sym (queue_get s' es' (λ h. ⊥) keeps' hash i (same ∙ f) t' k' v' st' hf' kf' held')
                ∙ read i f
                ∙ queue_get s es (λ h. ⊥) keeps hash i f t k v st hf kf held) in
            let d_eq : layout t' hash k' v' ≡ layout t hash k v = cc in
            let k_eq : k' ≡ k = ok-injective _ _ (
              sym (read_key-wrapped t' hash k' v' st' hf' kf')
              ∙ ap read_key_from_entry d_eq
              ∙ read_key-wrapped t hash k v st hf kf) in
            let v_eq : v' ≡ v = ok-injective _ _ (
              sym (read_entry-wrapped t' hash k' v' st' hf' kf')
              ∙ ap read_entry d_eq
              ∙ read_entry-wrapped t hash k v st hf kf) in
            rw
              (
                get_lem s es (λ h. ⊥) keeps hash i f t k v st hf kf held asked,
                get_lem s' es' (λ h. ⊥) keeps' hash i (same ∙ f) t' k' v' st' hf' kf' held' asked,
                k_eq,
                v_eq,
              )
              (ground arith)
      ]

  Stays-trans :
      (s s' s'' : Shard lib) (hash : ℕ) → Stays s s' hash → Stays s' s'' hash → Stays s s'' hash
  Stays-trans s s' s'' hash (e, f) (e', f') = (e' ∙ e, λ i at. f' i (e ∙ at) ∙ f i at)

  Stays-HasStamp :
      (s s' : Shard lib) (hash timestamp : ℕ)
      → Stays s s' hash
      → HasStamp s' hash timestamp
      → HasStamp s hash timestamp
  Stays-HasStamp s s' hash timestamp (e, f) (i, d, at, q, r) =
      let here = sym e ∙ at in (i, d, here, sym (f i here) ∙ q, r)

  -- A hash of one of the keys, under which a shard has an entry with the timestamp.
  abbrev pub Due : Shard lib → ℕ → List Bytes → ℕ → Type 0
  Due s timestamp keys hash =
      HasStamp s hash timestamp × ((key : Bytes) × In key keys × (lib.sum64 key ≡ hash))

  -- The places that stay, and those that become empty.
  abbrev Passed : Shard lib → Shard lib → ℕ → List Bytes → Type 0
  Passed s s' timestamp keys =
      ((hash : ℕ)
        → Stays s s' hash ⊎ (Due s timestamp keys hash × (assoc.get s'.hashmap hash ≡ none)))
      × ((key : Bytes) → In key keys → ¬ (HasStamp s' (lib.sum64 key) timestamp))

  none-HasStamp :
      (s : Shard lib) (hash timestamp : ℕ)
      → assoc.get s.hashmap hash ≡ none
      → ¬ (HasStamp s hash timestamp)
  none-HasStamp s hash timestamp e (i, d, at, _, _) =
      absurd (let f : none ≡ some i = sym e ∙ at in cc)

  -- A key before others, whose places the pass over them leaves without the timestamp.
  Passed-cons :
      (s s' s'' : Shard lib) (timestamp : ℕ) (key : Bytes) (keys : List Bytes)
      → ((hash : ℕ)
          → Stays s s' hash
            ⊎ ((lib.sum64 key ≡ hash)
                × HasStamp s hash timestamp
                × (assoc.get s'.hashmap hash ≡ none)))
      → ¬ (HasStamp s' (lib.sum64 key) timestamp)
      → Passed s' s'' timestamp keys
      → Passed s s'' timestamp (key ∷ keys)
  Passed-cons s s' s'' timestamp key keys one gone (rest, none_left) = (
    λ hash. elim (one hash) [
      | inl stays ↦ elim (rest hash) [
        | inl stays' ↦ inl (Stays-trans s s' s'' hash stays stays')
        | inr ((has, (k, i, e)), empty) ↦
            inr ((Stays-HasStamp s s' hash timestamp stays has, (k, inr i, e)), empty)
      ]
      | inr (q, has, empty) ↦ inr (
        (has, (key, inl refl, q)),
        elim (rest hash) [ inl (same, _) ↦ same ∙ empty | inr (_, empty') ↦ empty' ],
      )
    ],
    λ k i. elim i [
      | inl e ↦ λ has. elim (rest (lib.sum64 key)) [
        | inl stays ↦ gone (
            Stays-HasStamp s' s'' (lib.sum64 key) timestamp stays
              (subst (λ z. HasStamp s'' (lib.sum64 z) timestamp) e has))
        | inr (_, empty) ↦
            none-HasStamp s'' (lib.sum64 key) timestamp empty
              (subst (λ z. HasStamp s'' (lib.sum64 z) timestamp) e has)
      ]
      | inr j ↦ none_left k j
    ],
  )

  evict_keys_lem :
      (keys : List Bytes) (s : Shard lib) (es : Entries) (timestamp : ℕ)
      → Caches s es
      → CallbackReturns s
      → (s' : Shard lib) × (es' : Entries) × (evict_keys timestamp s keys ≡ ok s')
        × Caches s' es'
        × Passed s s' timestamp keys
  unfolding evict_keys
  evict_keys_lem [] s es timestamp keeps calls =
      (s, es, refl, keeps, ((λ hash. inl (refl, λ i e. refl)), λ k i. absurd i))
  evict_keys_lem (key ∷ keys) s es timestamp keeps calls =
      elim (evict_key_lem s es timestamp key keeps calls) [
        | kept s' es' e keeps' same stays has_not ↦
            let (s'', es'', f, keeps'', passed) =
              evict_keys_lem keys s' es' timestamp keeps' (rw same calls) in
            (
              s'',
              es'',
              rw e f,
              keeps'',
              Passed-cons s s' s'' timestamp key keys (λ hash. inl (stays hash))
                  (λ has.
                    has_not
                      (Stays-HasStamp s s' (lib.sum64 key) timestamp (stays (lib.sum64 key)) has))
                  passed,
            )
        | taken s' es' e keeps' same stays has empty ↦
            let (s'', es'', f, keeps'', passed) =
              evict_keys_lem keys s' es' timestamp keeps' (rw same calls) in
            (
              s'',
              es'',
              rw e f,
              keeps'',
              Passed-cons s s' s'' timestamp key keys
                  (λ hash. elim (==-cases (lib.sum64 key) hash) [
                    | inl (_, q) ↦ inr (
                      q,
                      subst (λ h. HasStamp s h timestamp) q has,
                      subst (λ h. assoc.get s'.hashmap h ≡ none) q empty,
                    )
                    | inr (_, n) ↦ inl (stays hash n)
                  ])
                  (none-HasStamp s' (lib.sum64 key) timestamp empty) passed,
            )
      ]

  -- If a shard is well-formed, and its callback returns on every wrapped entry, then `evictDel` returns and
  -- leaves a well-formed shard: under a hash it answers as before, or there was an entry with the
  -- timestamp under it, which is the hash of a key of the set, and it finds nothing there; and it
  -- has no entry with the timestamp left under the hash of a key of the set.
  pub evict_del-get :
      (s : Shard lib) (es : Entries) (timestamp : ℕ) (set : lib.sets.Set)
      → Caches s es
      → CallbackReturns s
      → (s' : Shard lib) × (es' : Entries) × (evict_del s timestamp set ≡ ok s')
        × Caches s' es'
        × ((hash : ℕ)
            → ((key : Bytes) → answer (get s' key hash) ≡ answer (get s key hash))
              ⊎ (Due s timestamp (lib.sets.values set) hash
                  × ((key : Bytes) → answer (get s' key hash) ≡ ok (error (entry_not_found key)))))
        × ((key : Bytes) → In key (lib.sets.values set) → ¬ (HasStamp s' (lib.sum64 key) timestamp))
  unfolding evict_del
  evict_del-get s es timestamp set keeps calls =
      let (s', es', e, keeps', (stays, none_left)) =
        evict_keys_lem (lib.sets.values set) s es timestamp keeps calls in
      (
        s',
        es',
        subst (λ b. (if b then blocked else evict_keys timestamp s (lib.sets.values set)) ≡ ok s')
            (sym keeps.unlocked) e,
        keeps',
        λ hash. elim (stays hash) [
          | inl same ↦ inl (Stays-answer s s' es es' hash keeps keeps' same)
          | inr (due, empty) ↦
              inr (due, λ key. rw (get_miss s' keeps'.unlocked key hash empty) refl)
        ],
        none_left,
      )
