-- ===== src/Cache/Shard/Keeps.antt =====
-- The invariant of a shard from whose queue nothing was popped: every index in its map is that of
-- an entry of the queue, which was wrapped with the hash that the map has it under.
use ngbigcache.Base.{ℕ, ◌≤◌, ◌<◌, ◌^◌, ◌≡◌, some, In, length, Bytes, false}
use ngbigcache.Base.Assoc as assoc
use ngbigcache.Queue.BytesQueue.Layout.{Lays, Entries}
use ngbigcache.Cache.Encoding.RoundTrip.{layout}
use ngbigcache.Cache.Library.{Library}
use ngbigcache.Cache.Shard.{Shard}

-- The bytes are those of a key and a value, with a key that can be read back.
abbrev pub IsWrapped : ℕ → Bytes → Type 0
IsWrapped hash d =
    (timestamp : ℕ) × (key entry : Bytes) × (timestamp < 2 ^ 64)
    × (hash < 2 ^ 64)
    × (length key ≤ 65517)
    × (d ≡ layout timestamp hash key entry)

module _ {lib : Library} where
  -- The map at a hash, and the entry there.
  abbrev pub At : Shard lib → Entries → ℕ → ℕ → Type 0
  At s es hash i = (d : Bytes) × In (i, d) es × IsWrapped hash d

  -- The invariant, but for the hashes that `Open` has.
  pub record Keeps (s : Shard lib) (es : Entries) (Open : ℕ → Type 0) : Type 0 where
    pub unlocked : s.locked ≡ false
    pub lays : Lays s.entries es
    pub indexed : (hash i : ℕ) → ¬ (Open hash) → assoc.get s.hashmap hash ≡ some i → At s es hash i
    pub apart :
        (hash other i : ℕ)
        → ¬ (Open hash)
        → ¬ (Open other)
        → assoc.get s.hashmap hash ≡ some i
        → assoc.get s.hashmap other ≡ some i
        → hash ≡ other
