-- ===== src/Common.antt =====
-- The names that every module shares: the libraries' names, passed on, and the helpers of the
-- children (Boolean tests, lists over the native numbers, texts, string maps, results).
pub mod Tests
pub mod Lists
pub mod Texts
pub mod Maps
pub mod Strings
pub mod Paths
pub mod Sets
pub mod Results
pub mod Int
pub mod Search
pub use Tests.*
pub use Prim.Native.Nat.{ℕ, zero, suc, ◌+◌, ◌-◌, ◌*◌, ◌%◌, ◌/◌, ◌^◌, ◌≤◌, ◌<◌}
pub use mathlib.Core.Path.{◌≡◌, refl, sym, ap, ◌∙◌}
pub use mathlib.Core.Logic.{◌≢◌, ◌↔◌, ◌⊎◌, inl, inr}
pub use mathlib.Core.Bool.{Bool, true, false, not, ◌&&◌, ◌||◌}
pub use mathlib.Core.Option.{Option, none, some}
pub use mathlib.Core.List.{List, [], ◌∷◌, ◌++◌, map}
pub use native.Mathlib.Omega.{arith}
