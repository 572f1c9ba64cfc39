-- ===== src/Cache/Library.antt =====
-- What a cache takes from outside the repository: the ordered trees and the sets of
-- github.com/emirpasic/gods, the hasher of the configuration, and the seconds of a `time.Duration`,
-- which Go computes in floating point and the code converts to a uint64.
use ngbigcache.Base.{ℕ, ◌<◌, ◌^◌, Bytes}
use ngbigcache.Base.Int.{ℤ}
use ngbigcache.Gods.{AvlTree, HashSet}

pub record Library : Type 1 where
  pub index_trees : AvlTree ℕ
  pub sets : HashSet
  pub time_trees : AvlTree sets.Set
  pub sum64 : Bytes → ℕ
  pub seconds : ℤ → ℕ
  pub sum64-lt : (key : Bytes) → sum64 key < 2 ^ 64
