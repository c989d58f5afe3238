-- ===== src/Base.antt =====
-- The names that every other module shares: the libraries', passed on, Boolean tests, lists
-- measured by native numbers, Go's results with errors and panics, and machine words.
mod Tests
mod Lists
mod Errors
mod Words
mod Texts
mod Maps
pub use Tests.*
pub use Lists.*
pub use Errors.*
pub use Words.*
pub use Texts.*
pub use Maps.*
pub use Prim.Native.Nat.{ℕ, zero, suc, ◌+◌, ◌-◌, ◌*◌, ◌/◌, ◌%◌, ◌^◌, ◌≤◌, ◌<◌, min}
pub use mathlib.Core.Path.{◌≡◌, refl, sym, ap, ◌∙◌}
pub use mathlib.Core.Logic.{◌≢◌, ◌↔◌, ◌⊎◌, inl, inr}
pub use mathlib.Core.Bool.{Bool, true, false, ◌&&◌, ◌||◌, not}
pub use mathlib.Core.Option.{Option, none, some}
pub use mathlib.Core.List.{List, [], ◌∷◌, ◌++◌, append-nil, append_assoc}
pub use native.Mathlib.Omega.{arith}
