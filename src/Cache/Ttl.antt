-- ===== src/Cache/Ttl.antt =====
-- bigcache/ttl.go: which keys expire at which second, and the one timer.
--
-- A hash set is an object that the tree points to, so a change of the set is a write to the tree at
-- its timestamp. The timer is the interval of its last `Reset`, in seconds as a uint64, or `none`
-- when it is stopped or has fired. `now` is the second at which the method reads the clock. Every
-- method holds the tree lock from its start to its end; the lock is left out. The loop of `eviction`
-- changes the shard too and is in `Cache.Shard`.
pub mod Entries
use ngbigcache.Base.{ℕ, ◌+◌, ◌-◌, ◌%◌, ◌^◌, Bytes, Option, none, some, ◌==◌, if◌then◌else◌}
use ngbigcache.Cache.Library.{Library}

pub record TtlManager (lib : Library) : Type 0 where
  pub time_tree : lib.time_trees.Tree
  pub timer : Option ℕ

-- `newTtlManager`: the timer is set to ten hours.
unfoldable pub new_ttl_manager : (lib : Library) → TtlManager lib
new_ttl_manager lib = record { time_tree = lib.time_trees.empty; timer = some 36000 }

-- `timeStamp - uint64(time.Now().Unix())`
unfoldable pub interval : ℕ → ℕ → ℕ
interval timestamp now = (timestamp + 2 ^ 64 - now % 2 ^ 64) % 2 ^ 64

module _ {lib : Library} where
  -- `resetTimer`
  unfoldable pub reset_timer : TtlManager lib → ℕ → ℕ → TtlManager lib
  unfolding interval
  reset_timer ttl timestamp now = record ttl { timer = some (interval timestamp now) }

  -- `stopTimer`
  unfoldable pub stop_timer : TtlManager lib → TtlManager lib
  stop_timer ttl = record ttl { timer = none }

  -- `peek`
  unfoldable pub peek : TtlManager lib → Option (ℕ × lib.sets.Set)
  peek ttl = lib.time_trees.first ttl.time_tree

  -- `put`
  unfoldable pub put : TtlManager lib → ℕ → Bytes → ℕ → TtlManager lib
  unfolding peek reset_timer
  put ttl timestamp cache_key now = elim (lib.time_trees.get ttl.time_tree timestamp) [
    | some set ↦ record ttl {
      time_tree = lib.time_trees.put ttl.time_tree timestamp (lib.sets.add set cache_key);
    }
    | none ↦
        let added : TtlManager lib = record ttl {
          time_tree =
              lib.time_trees.put ttl.time_tree timestamp (lib.sets.add lib.sets.new cache_key);
        } in
        if lib.time_trees.size added.time_tree == 1
        then reset_timer added timestamp now
        else elim (peek added) [
          | none ↦ added
          | some (key, set) ↦ if key == timestamp then reset_timer added timestamp now else added
        ]
  ]

  -- The end of `remove` where the set at the head of the tree became empty.
  unfoldable pub remove_head : TtlManager lib → ℕ → ℕ → TtlManager lib
  unfolding peek reset_timer
  remove_head ttl timestamp now =
      let cut : TtlManager lib = record ttl {
        time_tree = lib.time_trees.remove ttl.time_tree timestamp;
      } in
      elim (peek cut) [ none ↦ cut | some (key, set) ↦ reset_timer cut key now ]

  -- `remove`
  unfoldable pub remove : TtlManager lib → ℕ → Bytes → ℕ → TtlManager lib
  unfolding remove_head peek
  remove ttl timestamp cache_key now = elim (lib.time_trees.get ttl.time_tree timestamp) [
    | none ↦ ttl
    | some set ↦
        let less = lib.sets.remove set cache_key in
        let written : TtlManager lib = record ttl {
          time_tree = lib.time_trees.put ttl.time_tree timestamp less;
        } in
        let cut : TtlManager lib = record ttl {
          time_tree = lib.time_trees.remove written.time_tree timestamp;
        } in
        if lib.sets.is_empty less
        then elim (peek written) [
          | none ↦ cut
          | some (key, head) ↦ if key == timestamp then remove_head written timestamp now else cut
        ]
        else written
  ]

  -- `reset`
  unfoldable pub reset : TtlManager lib → TtlManager lib
  unfolding stop_timer
  reset ttl = stop_timer (record ttl { time_tree = lib.time_trees.empty })
