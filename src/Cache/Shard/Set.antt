-- ===== src/Cache/Shard/Set.antt =====
-- `set` as a whole: what it returns, and what `get` returns afterwards.
use ngbigcache.Base.{
  ℕ, ◌+◌, ◌*◌, ◌≤◌, ◌<◌, ◌^◌, ◌≡◌, ◌≢◌, ◌⊎◌, ◌∙◌, refl, some, none, Option, Option-cases, ◌∷◌, In,
  inl, inr, arith, length, Bytes, ==-cases, if◌then◌else◌, eq_bytes_refl, ok, ◌>>=◌, Run, value, ap,
}
use ngbigcache.Base.Int.{ℤ, is_zero_ℤ}
use ngbigcache.Base.Assoc as assoc
use ngbigcache.Queue.BytesQueue.{BytesQueue}
use ngbigcache.Queue.BytesQueue as queue
use ngbigcache.Queue.BytesQueue.Layout.{Lays, Entries, without}
use ngbigcache.Queue.BytesQueue.Push.{push-cases}
use ngbigcache.Cache.Encoding.{wrap_entry}
use ngbigcache.Cache.Encoding.RoundTrip.{layout, length-layout, wrap_entry_lem}
use ngbigcache.Cache.Library.{Library}
use ngbigcache.Cache.Ttl.{TtlManager}
use ngbigcache.Cache.Ttl as ttl
use ngbigcache.Cache.Shard.{
  Shard, CacheError, get, set, hit, item_index, drop_previous, push_wrapped, expiry_timestamp,
}
use ngbigcache.Cache.Shard.Keeps.{Keeps}
use ngbigcache.Cache.Shard.Get.{get_lem, get_miss}
use ngbigcache.Cache.Shard.Drop.{drop_previous_lem, dropped, dropped-Keeps, In-without_ne}
use ngbigcache.Cache.Shard.Store.{stored, stored-Keeps, get_self, get_other}
use ngbigcache.Cache.Shard.Locked.{Blocks, set_refused-Blocks}

-- The invariant, at every hash.
abbrev pub Caches : {lib : Library} → Shard lib → Entries → Type 0
Caches s es = Keeps s es (λ h. ⊥)

-- What a call returns, without the shard that it leaves.
abbrev pub answer : {S A : Type 0} → Run (S × A) → Run A
answer r = r >>= λ x. ok x.1

expiry_timestamp-lt :
    (lib : Library) (duration : ℤ) (epoch : ℕ) → expiry_timestamp lib duration epoch < 2 ^ 64
unfolding expiry_timestamp
expiry_timestamp-lt lib duration epoch = ground arith

module _ {lib : Library} where
  -- Two shards that have the same entry under a hash answer alike.
  pub same_answer :
      (s s' : Shard lib) (es es' : Entries) (hash : ℕ)
      → Caches s es
      → Caches s' es'
      → assoc.get s'.hashmap hash ≡ assoc.get s.hashmap hash
      → ((i : ℕ) (d : Bytes) → assoc.get s.hashmap hash ≡ some i → In (i, d) es → In (i, d) es')
      → (asked : Bytes) → answer (get s' asked hash) ≡ answer (get s asked hash)
  same_answer s s' es es' hash keeps keeps' e kept asked =
      elim (Option-cases (assoc.get s.hashmap hash)) [
        | inl n ↦
            rw
              (
                get_miss s keeps.unlocked asked hash n,
                get_miss s' keeps'.unlocked asked hash (e ∙ n),
              )
              refl
        | inr (i, f) ↦
            let (d, m, (t, k, v, st, hf, kf, p)) = keeps.indexed hash i (λ x. x) f in
            let m' : In (i, layout t hash k v) es = rw⁻¹ p m in
            rw
              (
                get_lem s es (λ h. ⊥) keeps hash i f t k v st hf kf m' asked,
                get_lem s' es' (λ h. ⊥) keeps' hash i (e ∙ f) t k v st hf kf (kept i _ f m') asked,
              )
              (ground arith)
      ]

  -- The entry is stored: `get` of the key returns it, and for other hashes `get` answers as before.
  abbrev pub Saved :
      Shard lib → Bytes → ℕ → Bytes → ℕ → Run (Shard lib × ℕ × Option CacheError) → Type 0
  Saved s key hash entry timestamp r =
      (s' : Shard lib) × (r ≡ ok (s', timestamp, none))
      × ((es' : Entries) × Caches s' es')
      × (get s' key hash ≡ ok (hit s', value entry))
      × ((asked : Bytes) (other : ℕ)
          → (hash ≡ other) ⊎ (answer (get s' asked other) ≡ answer (get s asked other)))

  -- `Push` refused the entry, and the lock stays held.
  abbrev pub Lost : Shard lib → Run (Shard lib × ℕ × Option CacheError) → Type 0
  Lost s r = (s' : Shard lib) × (r ≡ ok (s', 0, none)) × Blocks s' × (0 < s.entries.max_capacity)

  module _ (s : Shard lib) (es : Entries) (keeps : Caches s es) (key : Bytes) (hash : ℕ)
      (entry : Bytes) (duration : ℤ) (epoch now : ℕ) (hash_fits : hash < 2 ^ 64)
      (key_fits : length key ≤ 65517)
      (room : (s.entries.capacity + (length entry + 18 + length key + 4)) * 2 ≤ 2 ^ 32) where
    abbrev timestamp : ℕ
    timestamp = expiry_timestamp lib duration epoch

    abbrev fresh : Bytes
    fresh = layout timestamp hash key entry

    short : length fresh < 2 ^ 32
    short = omega (arith, length-layout timestamp hash key entry)

    none_dropped :
        assoc.get s.hashmap hash ≡ none → drop_previous s key (item_index s.hashmap hash) now ≡ ok s
    unfolding drop_previous
    none_dropped n = rw (n, item_index) refl

    -- From the shard that `drop_previous` leaves.
    after_drop :
        (dropped : Shard lib) (es1 : Entries)
        → drop_previous s key (item_index s.hashmap hash) now ≡ ok dropped
        → Keeps dropped es1 (λ h. h ≡ hash)
        → dropped.hashmap ≡ s.hashmap
        → dropped.entries.max_capacity ≡ s.entries.max_capacity
        → dropped.entries.capacity ≡ s.entries.capacity
        → ((i : ℕ) (d : Bytes) (h : ℕ)
            → hash ≢ h
            → assoc.get s.hashmap h ≡ some i
            → In (i, d) es
            → In (i, d) es1)
        → Saved s key hash entry timestamp (set s key hash entry duration epoch now)
          ⊎ Lost s (set s key hash entry duration epoch now)
    unfolding set push_wrapped
    after_drop dropped es1 drop keeps1 map max size kept =
        let stamp = expiry_timestamp-lt lib duration epoch in
        let (buffer, wrap) =
          wrap_entry_lem timestamp hash key entry stamp hash_fits key_fits dropped.entry_buffer in
        elim (push-cases dropped.entries es1 keeps1.lays fresh short) [
          | inr (refused, _) ↦
              let (s', e, b) =
                set_refused-Blocks s dropped key hash entry duration epoch now fresh buffer _ _
                  keeps.unlocked drop wrap refused.0 in
              inr (s', e, b, omega (arith, max, refused.1))
          | inl (index, q, pushed, laid, _, grown) ↦ inl (
              saved index q laid buffer drop wrap pushed
                (omega (arith, grown, size, length-layout timestamp hash key entry)))
        ]
      where
        saved :
            (index : ℕ) (q : BytesQueue lib.index_trees)
            → Lays q ((index, fresh) ∷ es1)
            → (buffer : Bytes) → drop_previous s key (item_index s.hashmap hash) now ≡ ok dropped
            → wrap_entry timestamp hash key entry dropped.entry_buffer ≡ ok (fresh, buffer)
            → queue.push dropped.entries fresh ≡ ok (q, value index)
            → q.capacity ≤ 2 ^ 32
            → Saved s key hash entry timestamp (set s key hash entry duration epoch now)
        saved index q laid buffer drop wrap pushed small =
            let stamp = expiry_timestamp-lt lib duration epoch in
            let table : TtlManager lib =
              if is_zero_ℤ duration
              then dropped.ttl_table
              else ttl.put dropped.ttl_table timestamp key now in
            let s' =
              stored dropped es1 hash keeps1 timestamp key entry stamp hash_fits key_fits index q
                laid buffer table in
            let k' =
              stored-Keeps dropped es1 hash keeps1 timestamp key entry stamp hash_fits key_fits
                index q laid small buffer table in
            let self =
              get_self dropped es1 hash keeps1 timestamp key entry stamp hash_fits key_fits index q
                laid small in
            let others =
              get_other dropped es1 hash keeps1 timestamp key entry stamp hash_fits key_fits index q
                laid small in
            (
              s',
              rw (drop, wrap, pushed, keeps.unlocked, map) (ground arith),
              ((index, fresh) ∷ es1, k'),
              get_lem s' ((index, fresh) ∷ es1) (λ h. ⊥) k' hash index self timestamp key entry
                    stamp hash_fits key_fits (inl refl) key
                  ∙ rw (eq_bytes_refl key) refl,
              λ asked other. elim (==-cases hash other) [
                | inl (t, e) ↦ inl e
                | inr (t, n) ↦ inr (
                    same_answer s s' es ((index, fresh) ∷ es1) other keeps k'
                      (others other n ∙ ap (λ m. assoc.get m other) map)
                      (λ i d f m. inr (kept i d other n f m)) asked)
              ],
            )

    -- For a shard from whose queue nothing was popped, a hash that fits 64 bits, a key of at most
    -- 65517 bytes, and a queue whose size, doubled with the new entry, is at most 2^32: either `set`
    -- returns the expiry timestamp and no error, the shard is well-formed, `get` of the key returns
    -- the value, and `get` for every other hash answers as before; or the queue has a maximal size,
    -- `set` returns 0 and no error, and every later call that takes the lock waits for ever.
    pub set_get :
        Saved s key hash entry timestamp (set s key hash entry duration epoch now)
        ⊎ Lost s (set s key hash entry duration epoch now)
    set_get = elim (Option-cases (assoc.get s.hashmap hash)) [
      | inl n ↦
          after_drop s es (none_dropped n)
            (record {
              unlocked = keeps.unlocked;
              lays = keeps.lays;
              indexed = λ h i o. keeps.indexed h i (λ x. x);
              apart = λ h k i o p. keeps.apart h k i (λ x. x) (λ x. x);
            })
            refl refl refl (λ i d h o e m. m)
      | inr (i, e) ↦
          let (d, m, (t, k, v, st, hf, kf, p)) = keeps.indexed hash i (λ x. x) e in
          let m' : In (i, layout t hash k v) es = rw⁻¹ p m in
          after_drop (dropped s es keeps hash i e t k v st hf kf m' key now) (without i es)
            (drop_previous_lem s es keeps hash i e t k v st hf kf m' key now)
            (dropped-Keeps s es keeps hash i e t k v st hf kf m' key now) refl refl refl
            (λ j b h n f o.
              In-without_ne i j b es o
                (λ q. n (keeps.apart hash h i (λ x. x) (λ x. x) e (f ∙ ap some q))))
    ]
