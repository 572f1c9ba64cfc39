-- ===== src/Cache/BigCache/Runs.antt =====
-- A sequence of calls of the cache of bigcache/bigcache.go, and the same calls on a table.
use ngbigcache.Base.{
  ℕ, ◌+◌, ◌*◌, ◌≤◌, ◌^◌, ◌≡◌, ◌∙◌, refl, true, none, some, List, [], ◌∷◌, inl, inr, length, Bytes,
  Run, ok, ◌>>=◌, Option, Result, arith,
}
use ngbigcache.Base.Int.{ℤ, is_zero_ℤ}
use ngbigcache.Cache.Library.{Library}
use ngbigcache.Cache.Shard.{Shard, CacheError, Removals, expiry_timestamp}
use ngbigcache.Cache.Shard.Keeps.{IsWrapped}
use ngbigcache.Cache.BigCache.{BigCache}
use ngbigcache.Cache.BigCache as big_cache
use ngbigcache.Cache.BigCache.Abstract.{Table, look, change, Represents, IsShardOf}
use ngbigcache.Cache.BigCache.Timeless.{AllTimeless, kept_set, kept_get, kept_delete}
use ngbigcache.Cache.BigCache.Refines.{get-Represents, set_entry-Represents, delete-Represents}

-- The shard of the key has no maximal size, and room for the entry.
abbrev pub HasRoom : {lib : Library} → BigCache lib → Bytes → Bytes → Type 0
HasRoom {lib} c key entry =
    (s : Shard lib)
    → IsShardOf c (lib.sum64 key) s
    → (s.entries.max_capacity ≡ 0)
      × ((s.entries.capacity + (length entry + 18 + length key + 4)) * 2 ≤ 2 ^ 32)

-- The table with a key and its value.
abbrev pub with_entry : (lib : Library) → Table → Bytes → Bytes → Table
with_entry lib t key entry = change t (lib.sum64 key) (some (key, entry))

pub set_unbounded :
    {lib : Library} (c : BigCache lib) (t : Table) (key entry : Bytes) (duration : ℤ)
    (epoch now : ℕ)
    → Represents c t
    → length key ≤ 65517
    → HasRoom c key entry
    → (c' : BigCache lib) × (big_cache.set_entry c key entry duration epoch now
        ≡ ok (c', expiry_timestamp lib duration epoch, none))
      × Represents c' (with_entry lib t key entry)
set_unbounded c t key entry duration epoch now represents fits room =
    let (c', ts, e, after) =
      set_entry-Represents c t represents key entry duration epoch now fits
        (λ s at. (room s at).1) in
    elim after [
      | inl (q, r) ↦ (c', e ∙ rw q refl, r)
      | inr (s, at, max) ↦ absurd (omega (arith, max, (room s at).0))
    ]

-- A call of `Set`, with its duration, the clock of the shard and the second, of `Get`, and of
-- `Delete`.
pub data Call : Type 0 where
  set_call : Bytes → Bytes → ℤ → ℕ → ℕ → Call
  get_call : Bytes → Call
  delete_call : Bytes → ℕ → Call

-- The results of the calls of `Get` on a table.
abbrev pub table_run : (Bytes → ℕ) → List Call → Table → List (Result CacheError Bytes)
table_run sum64 [] t = []
table_run sum64 (set_call key entry duration epoch now ∷ calls) t =
    table_run sum64 calls (change t (sum64 key) (some (key, entry)))
table_run sum64 (get_call key ∷ calls) t = look (t (sum64 key)) key ∷ table_run sum64 calls t
table_run sum64 (delete_call key now ∷ calls) t = table_run sum64 calls (change t (sum64 key) none)

-- The table after the calls.
abbrev pub table_after : (Bytes → ℕ) → List Call → Table → Table
table_after sum64 [] t = t
table_after sum64 (set_call key entry duration epoch now ∷ calls) t =
    table_after sum64 calls (change t (sum64 key) (some (key, entry)))
table_after sum64 (get_call key ∷ calls) t = table_after sum64 calls t
table_after sum64 (delete_call key now ∷ calls) t =
    table_after sum64 calls (change t (sum64 key) none)

module _ {lib : Library} where
  -- The calls on a cache, and the results of those of `Get`.
  unfoldable pub run :
      List Call → BigCache lib → Run (BigCache lib × List (Result CacheError Bytes))
  run [] c = ok (c, [])
  run (set_call key entry duration epoch now ∷ calls) c = do
    r ← big_cache.set_entry c key entry duration epoch now
    run calls r.0
  run (get_call key ∷ calls) c = do r ← big_cache.get c key; s ← run calls r.0; ok (s.0, r.1 ∷ s.1)
  run (delete_call key now ∷ calls) c = do r ← big_cache.delete c key now; run calls r.0

  -- The callback of the shard of a key returns on every entry.
  abbrev pub CallbackReturns : BigCache lib → Bytes → Type 0
  CallbackReturns c key =
      (s : Shard lib)
      → IsShardOf c (lib.sum64 key) s
      → (d : Bytes) → IsWrapped (lib.sum64 key) d
      → (calls : Removals) × (s.on_remove d ≡ ok calls)

  -- Every `Set` has the duration 0, a key of at most 65517 bytes and finds room, and for every
  -- `Delete` the callback returns.
  abbrev pub Allowed : List Call → BigCache lib → Type 0
  Allowed [] c = Unit
  Allowed (set_call key entry duration epoch now ∷ calls) c =
      (is_zero_ℤ duration ≡ true)
      × (length key ≤ 65517)
      × HasRoom c key entry
      × ((c' : BigCache lib) (timestamp : ℕ)
          → big_cache.set_entry c key entry duration epoch now ≡ ok (c', timestamp, none)
          → Allowed calls c')
  Allowed (get_call key ∷ calls) c =
      (c' : BigCache lib) (r : Result CacheError Bytes)
      → big_cache.get c key ≡ ok (c', r)
      → Allowed calls c'
  Allowed (delete_call key now ∷ calls) c =
      CallbackReturns c key
      × ((c' : BigCache lib) (e : Option CacheError)
          → big_cache.delete c key now ≡ ok (c', e)
          → Allowed calls c')

  -- If a cache represents a table and has no time of expiry in its expiry tables, every `Set` of a
  -- sequence of calls has the duration 0, which is no expiry, a key of at most 65517 bytes, and
  -- finds room in a queue without a maximal size, and the callback returns for every `Delete`, then the
  -- calls return, every `Get` among them with what the table has then, the cache represents the
  -- table that the calls lead to, and there is no time of expiry still, so that the goroutines
  -- of the expiry tables, which take no step here, have nothing to evict.
  pub run-table_run :
      (calls : List Call) (c : BigCache lib) (t : Table)
      → Represents c t
      → AllTimeless c
      → Allowed calls c
      → (c' : BigCache lib) × (run calls c ≡ ok (c', table_run lib.sum64 calls t))
        × Represents c' (table_after lib.sum64 calls t)
        × AllTimeless c'
  unfolding run
  run-table_run [] c t represents timeless allowed = (c, refl, represents, timeless)
  run-table_run (set_call key entry duration epoch now ∷ calls) c t represents timeless
        (zero, fits, room, after) =
      let (c1, e, next) = set_unbounded c t key entry duration epoch now represents fits room in
      let (c', f, last, still) =
        run-table_run calls c1 (with_entry lib t key entry) next
          (kept_set c c1 key entry duration epoch now _ none zero timeless e) (after c1 _ e) in
      (c', rw e f, last, still)
  run-table_run (get_call key ∷ calls) c t represents timeless after =
      let (c1, e, next) = get-Represents c t represents key in
      let (c', f, last, still) =
        run-table_run calls c1 t next (kept_get c c1 key _ timeless e) (after c1 _ e) in
      (c', rw (e, f) refl, last, still)
  run-table_run (delete_call key now ∷ calls) c t represents timeless (returns, after) =
      let (c1, x, e, _, next) = delete-Represents c t represents key now returns in
      let (c', f, last, still) =
        run-table_run calls c1 (change t (lib.sum64 key) none) next
          (kept_delete c c1 key now x timeless e) (after c1 x e) in
      (c', rw e f, last, still)
