-- ===== src/Base.antt =====
-- What the other modules share: the libraries' names, passed on, tests on numbers, lists measured
-- by native numbers, signed integers, options as fallible results.
mod Tests
mod Lists
mod Results
mod Text
mod Powers
pub mod Int
unfoldable pub use Tests.*
pub use Lists.*
pub use Results.*
pub use Text.*
pub use Powers.*
pub use Prim.Native.Nat.{ℕ, zero, suc, ◌+◌, ◌-◌, ◌*◌, ◌/◌, ◌%◌, ◌^◌, ◌≤◌, ◌<◌}
pub use mathlib.Core.Path.{◌≡◌, refl, sym, ap, ◌∙◌}
pub use mathlib.Core.Logic.{◌≢◌, ◌↔◌, ◌⊎◌, inl, inr}
pub use mathlib.Core.Bool.{Bool, true, false, ◌&&◌, ◌||◌, not}
pub use mathlib.Core.Option.{Option, none, some}
pub use mathlib.Core.List.{List, [], ◌∷◌, ◌++◌, map}
pub use native.Mathlib.Omega.{arith}
