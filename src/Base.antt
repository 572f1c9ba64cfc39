-- ===== src/Base.antt =====
-- What the modules share: library names passed on, tests on numbers, lists measured and indexed
-- by native numbers, the byte-level parts of Go's `copy`, `append` and `encoding/binary`, and the
-- outcome of a Go call.
mod Tests
mod Lists
mod Slices
mod Words
mod Outcome
pub mod Int
pub mod Assoc
pub mod Dict
pub mod Returns
pub use Tests.*
pub use Lists.*
unfoldable pub use Slices.*
unfoldable pub use Words.*
pub use Outcome.*
pub use Prim.Native.Nat.{ℕ, zero, suc, ◌+◌, ◌-◌, ◌*◌, ◌/◌, ◌%◌, ◌^◌, ◌≤◌, ◌<◌}
pub use mathlib.Core.Path.{◌≡◌, refl, sym, ap, subst, ◌∙◌}
pub use mathlib.Core.Logic.{◌≢◌, ◌↔◌, ◌⊎◌, inl, inr}
pub use mathlib.Core.Bool.{Bool, true, false, not, ◌&&◌, ◌||◌}
pub use mathlib.Core.Option.{Option, none, some}
pub use mathlib.Core.List.{List, [], ◌∷◌, ◌++◌, map}
pub use native.Mathlib.Omega.{arith}
