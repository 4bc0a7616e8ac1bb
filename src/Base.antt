-- ===== src/Base.antt =====
-- The names that the other modules share: the libraries' names, passed on, and those of the
-- children. `Text` is a string as the list of its code points.
mod Tests
mod Lists
mod Loops
mod Equality
mod Results
mod Sets
mod Sort
pub mod Dict
pub mod Int
pub use Tests.*
pub use Lists.*
pub use Loops.*
unfoldable pub use Equality.*
pub use Results.*
unfoldable pub use Sets.*
unfoldable pub use Sort.*
pub use Prim.Native.Nat.{ℕ, zero, suc, ◌+◌, ◌-◌, ◌*◌, ◌/◌, ◌%◌, ◌^◌, ◌≤◌, ◌<◌, min, max}
pub use mathlib.Core.Path.{◌≡◌, refl, sym, ap, ◌∙◌}
pub use mathlib.Core.Logic.{◌≢◌, ◌↔◌, ◌⊎◌, inl, inr}
pub use mathlib.Core.Bool.{Bool, true, false, not, ◌&&◌, ◌||◌}
pub use mathlib.Core.Option.{Option, none, some}
pub use mathlib.Core.List.{List, [], ◌∷◌, ◌++◌, map, append-nil, append_assoc}
pub use native.Mathlib.Omega.{arith}
