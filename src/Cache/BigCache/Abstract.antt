-- ===== src/Cache/BigCache/Abstract.antt =====
-- What a cache of bigcache/bigcache.go stands for: for each hash at most one entry, a key and its
-- value. Two keys with the same hash share the place of an entry.
use ngbigcache.Base.{
  ℕ, subst, ◌≡◌, ◌≢◌, ◌∙◌, ◌⊎◌, sym, refl, ap, Option, none, some, Option-cases, In, inl, inr, ◌==◌,
  ==-cases, if◌then◌else◌, get_elem?, set, get_elem?-set_ne, get_elem?-set_held, Bytes, eq_bytes,
  ok, Result, value, error, arith,
}
use ngbigcache.Base.Dict.{eq_bytes-cases}
use Prim.Native.Nat.{bit_and}
use mathlib.Core.Option.{some-injective}
use ngbigcache.Base.Assoc as assoc
use ngbigcache.Queue.BytesQueue.Layout.{Entries}
use ngbigcache.Cache.Encoding.RoundTrip.{layout}
use ngbigcache.Cache.Library.{Library}
use ngbigcache.Cache.Shard.{Shard, CacheError, entry_not_found, get, hit, miss, collision}
use ngbigcache.Cache.Shard.Get.{get_lem, get_miss}
use ngbigcache.Cache.Shard.Set.{Caches, answer, same_answer}
use ngbigcache.Cache.BigCache.{BigCache}

abbrev pub Table : Type 0
Table = ℕ → Option (Bytes × Bytes)

-- What a lookup of a key finds in the place of its hash.
abbrev pub look : Option (Bytes × Bytes) → Bytes → Result CacheError Bytes
look none key = error (entry_not_found key)
look (some (k, v)) key = if eq_bytes key k then value v else error (entry_not_found key)

-- The table with another place for a hash.
abbrev pub change : Table → ℕ → Option (Bytes × Bytes) → Table
change t hash e other = if hash == other then e else t other

module _ {lib : Library} where
  -- A well-formed shard answers for a hash as the table does.
  abbrev pub Answers : Shard lib → ℕ → Option (Bytes × Bytes) → Type 0
  Answers s hash e = (asked : Bytes) → answer (get s asked hash) ≡ ok (look e asked)

  abbrev pub IsShardOf : BigCache lib → ℕ → Shard lib → Type 0
  IsShardOf c hash s = get_elem? c.shards (bit_and hash c.shard_mask) ≡ some s

  abbrev pub Represents : BigCache lib → Table → Type 0
  Represents c t =
      (hash : ℕ)
      → (s : Shard lib) × IsShardOf c hash s
        × ((es : Entries) × Caches s es)
        × Answers s hash (t hash)

  -- What a shard answers for a hash, if it finds a key there.
  pub found-Answers :
      (s : Shard lib) (es : Entries) (key entry : Bytes) (hash : ℕ)
      → Caches s es
      → get s key hash ≡ ok (hit s, value entry)
      → Answers s hash (some (key, entry))
  found-Answers s es key entry hash keeps found asked =
      elim (Option-cases (assoc.get s.hashmap hash)) [
        | inl n ↦ absurd (
            let e = get_miss s keeps.unlocked key hash n in
            let f : answer (get s key hash) ≡ ok (error (entry_not_found key)) = rw e refl in
            let g : answer (get s key hash) ≡ ok (value entry) = rw found refl in cc)
        | inr (i, f) ↦
            let (d, m, (t, k, v, st, hf, kf, p)) = keeps.indexed hash i (λ x. x) f in
            let m' : In (i, layout t hash k v) es = rw⁻¹ p m in
            let e = get_lem s es (λ h. ⊥) keeps hash i f t k v st hf kf m' in
            let g : answer (get s key hash) ≡ ok (value entry) = rw found refl in
            elim (eq_bytes-cases key k) [
              | inr (b, n) ↦ absurd (
                  let h : answer (get s key hash) ≡ ok (error (entry_not_found key)) =
                    rw (e key, b) refl in
                  cc)
              | inl (b, q) ↦
                  let h : answer (get s key hash) ≡ ok (value v) = rw (e key, b) refl in
                  let w : v ≡ entry = cc in rw (e asked, q, w) (ground arith)
            ]
      ]

  -- A shard that differs in other fields than the lock, the map and the queue.
  pub same_entries :
      (s s' : Shard lib) (es : Entries)
      → Caches s es
      → s'.locked ≡ s.locked
      → s'.hashmap ≡ s.hashmap
      → s'.entries ≡ s.entries
      → Caches s' es
        × ((key : Bytes) (other : ℕ) → answer (get s' key other) ≡ answer (get s key other))
  same_entries s s' es keeps l h q =
      let back : (hash : ℕ) → assoc.get s.hashmap hash ≡ assoc.get s'.hashmap hash =
        λ hash. ap (λ m. assoc.get m hash) (sym h) in
      let keeps' : Caches s' es = record {
        unlocked = l ∙ keeps.unlocked;
        lays = rw q keeps.lays;
        indexed = λ hash i o f. keeps.indexed hash i o (back hash ∙ f);
        apart =
            λ hash other i o p f g. keeps.apart hash other i o p (back hash ∙ f) (back other ∙ g);
      } in
      (
        keeps',
        λ key other.
            same_answer s s' es es other keeps keeps' (sym (back other)) (λ i d f m. m) key,
      )

  -- `get` of a shard changes its statistics.
  pub get_step :
      (s : Shard lib) (es : Entries) (hash : ℕ) (asked : Bytes)
      → Caches s es
      → (s' : Shard lib) × (r : Result CacheError Bytes) × (get s asked hash ≡ ok (s', r))
        × Caches s' es
        × ((key : Bytes) (other : ℕ) → answer (get s' key other) ≡ answer (get s key other))
  unfolding hit miss collision
  get_step s es hash asked keeps = elim (Option-cases (assoc.get s.hashmap hash)) [
    | inl n ↦ (
      miss s,
      error (entry_not_found asked),
      get_miss s keeps.unlocked asked hash n,
      (same_entries s (miss s) es keeps refl refl refl).0,
      (same_entries s (miss s) es keeps refl refl refl).1,
    )
    | inr (i, f) ↦
        let (d, m, (t, k, v, st, hf, kf, p)) = keeps.indexed hash i (λ x. x) f in
        let m' : In (i, layout t hash k v) es = rw⁻¹ p m in
        let e = get_lem s es (λ h. ⊥) keeps hash i f t k v st hf kf m' asked in
        elim (eq_bytes-cases asked k) [
          | inl (b, q) ↦ (
            hit s,
            value v,
            e ∙ rw b refl,
            (same_entries s (hit s) es keeps refl refl refl).0,
            (same_entries s (hit s) es keeps refl refl refl).1,
          )
          | inr (b, n) ↦ (
            collision s,
            error (entry_not_found asked),
            e ∙ rw b refl,
            (same_entries s (collision s) es keeps refl refl refl).0,
            (same_entries s (collision s) es keeps refl refl refl).1,
          )
        ]
  ]

  -- A shard that is changed at one hash.
  pub replace-Represents :
      (c : BigCache lib) (t t' : Table) (hash : ℕ) (s s' : Shard lib) (es' : Entries)
      → Represents c t
      → IsShardOf c hash s
      → Caches s' es'
      → Answers s' hash (t' hash)
      → ((asked : Bytes) (other : ℕ)
          → (hash ≡ other) ⊎ (answer (get s' asked other) ≡ answer (get s asked other)))
      → ((other : ℕ) → hash ≢ other → t' other ≡ t other)
      → Represents (record c { shards = set c.shards (bit_and hash c.shard_mask) s' }) t'
  replace-Represents c t t' hash s s' es' represents at keeps' own others same other =
      let (s0, at0, kept0, answers0) = represents other in
      elim (==-cases (bit_and hash c.shard_mask) (bit_and other c.shard_mask)) [
        | inl (_, e) ↦
            let at' : get_elem? c.shards (bit_and other c.shard_mask) ≡ some s =
              ap (get_elem? c.shards) (sym e) ∙ at in
            let q : s0 ≡ s = some-injective _ _ (sym at0 ∙ at') in
            (
              s',
              ap (λ i. get_elem? (set c.shards i s') (bit_and other c.shard_mask)) e
                  ∙ get_elem?-set_held c.shards (bit_and other c.shard_mask) s s' at',
              (es', keeps'),
              elim (==-cases hash other) [
                | inl (_, p) ↦ subst (λ h. Answers s' h (t' h)) p own
                | inr (_, n) ↦ λ asked. elim (others asked other) [
                  | inl p ↦ absurd (n p)
                  | inr f ↦
                      f
                      ∙ ap (λ x. answer (get x asked other)) (sym q)
                      ∙ answers0 asked
                      ∙ ap (λ o. ok (look o asked)) (sym (same other n))
                ]
              ],
            )
        | inr (_, n) ↦ (
          s0,
          get_elem?-set_ne c.shards _ _ s' n ∙ at0,
          kept0,
          λ asked.
              answers0 asked
              ∙ ap (λ o. ok (look o asked))
                  (sym (same other (λ p. n (ap (λ h. bit_and h c.shard_mask) p)))),
        )
      ]
